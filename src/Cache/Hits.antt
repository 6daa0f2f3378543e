-- ===== src/Cache/Hits.antt =====
-- proxy/app/shared/cache.py: what a hit of the semantic cache is, and which questions hit.
use mathlib.Core.Path.{ap}
use rag_system.Base.{
  take, ℕ, zero, suc, ◌≤◌, leb, leb→le, true, some, List, [], ◌∷◌, String, eq_iff, ◌≡◌, refl, sym,
  ◌∙◌, arith, Bool-cases, Option-cases, inl, inr,
}
use rag_system.Cache.Memory.{Manager, cache_get}
use rag_system.Cache.Recall.{get-get}
use rag_system.Cache.Semantic.{
  Entry, Value, entry, ids, other, Embedder, SemanticCache, hit, is_in, bucket_key, scan,
  semantic_get, listed,
}

module _ {E : Type 0} (embedder : Embedder E) where
  -- An entry that is there, similar enough, with this response
  abbrev pub Answers : ℕ → ℕ → E → String → Manager (Value E) → String → Type 0
  Answers now threshold query_emb r m entry_id =
      (x : Entry E) × (e : E) × ((cache_get now entry_id m).0 ≡ some (entry x))
      × (x.embedding ≡ some e)
      × (x.response ≡ some r)
      × (threshold ≤ embedder.cosine_similarity query_emb e)

  scan-Answers :
      (now threshold : ℕ) (query_emb : E) (r : String) (l : List String) (m : Manager (Value E))
      → (scan embedder now threshold query_emb l m).0 ≡ hit r
      → (entry_id : String) × (is_in entry_id l ≡ true)
        × Answers now threshold query_emb r m entry_id
  unfolding scan is_in
  scan-Answers now threshold query_emb r [] m h = ground arith
  scan-Answers now threshold query_emb r (i ∷ l) m h =
      let (found, m') = cache_get now i m in
      let Found : Type 0 =
        (entry_id : String) × (is_in entry_id (i ∷ l) ≡ true)
        × Answers now threshold query_emb r m entry_id in
      let later : (scan embedder now threshold query_emb l m').0 ≡ hit r → Found = λ h.
        let (j, there, (x, e, same, at_e, at_r, near)) =
          scan-Answers now threshold query_emb r l m' h in
        (
          j,
          ground arith,
          (x, e, sym (get-get now now j i m (omega arith)) ∙ same, at_e, at_r, near),
        ) in
      let go : (scan embedder now threshold query_emb (i ∷ l) m).0 ≡ hit r → Found =
        elim (Option-cases (cache_get now i m).0) [
          | inl nothing ↦ simp (scan, nothing) later
          | inr (ids ids', e) ↦ simp (scan, e) (λ h. ground arith)
          | inr (other s, e) ↦ simp (scan, e) (λ h. ground arith)
          | inr (entry x, e) ↦ elim (Option-cases x.embedding) [
            | inl nothing ↦ simp (scan, e, nothing) later
            | inr (stored, at_e) ↦
                elim (Bool-cases (leb threshold (embedder.cosine_similarity query_emb stored))) [
                  | inl near ↦ elim (Option-cases x.response) [
                    | inl nothing ↦ simp (scan, e, at_e, near, nothing) later
                    | inr (r', at_r) ↦
                        simp (scan, e, at_e, near, at_r)
                          (λ h. (
                            i,
                            ground (arith, eq_iff i i),
                            (
                              x,
                              stored,
                              e,
                              at_e,
                              ground (arith, at_r, h),
                              leb→le threshold (embedder.cosine_similarity query_emb stored) near,
                            ),
                          ))
                  ]
                  | inr far ↦ simp (scan, e, at_e, far) later
                ]
          ]
        ] in
      go h

  is_in-take : (n : ℕ) (i : String) (l : List String) → is_in i (take n l) ≡ true → is_in i l ≡ true
  unfolding is_in
  is_in-take zero i [] h = h
  is_in-take zero i (x ∷ l) h = ground (arith, h)
  is_in-take (suc n) i [] h = h
  is_in-take (suc n) i (x ∷ l) h = ground (arith, is_in-take n i l)

  -- A hit of a question is the response of an entry that the bucket of the question's embedding lists,
  -- that is still there, and whose embedding is as similar as the threshold asks.
  pub semantic_get_hits :
      (now : ℕ) (query r : String) (c : SemanticCache E)
      → (semantic_get embedder now query c).0 ≡ hit r
      → (e : E) × (embedder.compute_embedding query ≡ some e)
        × (entry_id : String) × (is_in entry_id
              (listed (cache_get now (bucket_key embedder e) c.cache).0)
            ≡ true)
        × Answers now c.threshold e r c.cache entry_id
  unfolding semantic_get listed
  semantic_get_hits now query r c h =
      let Found : Type 0 =
        (e : E) × (embedder.compute_embedding query ≡ some e)
        × (entry_id : String) × (is_in entry_id
              (listed (cache_get now (bucket_key embedder e) c.cache).0)
            ≡ true)
        × Answers now c.threshold e r c.cache entry_id in
      let go : (semantic_get embedder now query c).0 ≡ hit r → Found =
        elim (Option-cases (embedder.compute_embedding query)) [
          | inl nothing ↦ simp (semantic_get, nothing) (λ h. ground arith)
          | inr (e, embedded) ↦
              let bucket = bucket_key embedder e in
              elim (Option-cases (cache_get now bucket c.cache).0) [
                | inl nothing ↦ simp (semantic_get, embedded, nothing) (λ h. ground arith)
                | inr (other s, found) ↦ simp (semantic_get, embedded, found) (λ h. ground arith)
                | inr (entry x, found) ↦ simp (semantic_get, embedded, found) (λ h. ground arith)
                | inr (ids l, found) ↦
                    simp (semantic_get, embedded, found)
                      (λ h.
                        let m = (cache_get now bucket c.cache).1 in
                        let (i, there, (x, stored, same, at_e, at_r, near)) =
                          scan-Answers now c.threshold e r (take 200 l) m h in
                        (
                          e,
                          refl,
                          i,
                          ap (λ v. is_in i (listed v)) found ∙ is_in-take 200 i l there,
                          (
                            x,
                            stored,
                            sym (get-get now now i bucket c.cache (omega arith)) ∙ same,
                            at_e,
                            at_r,
                            near,
                          ),
                        ))
              ]
        ] in
      go h
