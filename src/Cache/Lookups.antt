-- ===== src/Cache/Lookups.antt =====
-- proxy/app/shared/cache.py: which questions the semantic cache answers after a response was stored.
use Prim.Native.String.{◌++◌ as str_append, slice}
use text.Mathlib.TextLemmas.{append_assoc}
use text.Mathlib.TextPositions.{slice-append_left}
use mathlib.Core.Path.{ap}
use rag_system.Base.{
  take, ℕ, ◌+◌, ◌*◌, ◌≤◌, leb, ltb, le→leb, true, false, none, some, List, ◌∷◌, String, str_eq,
  eq_iff, length, if◌then◌else◌, ◌≡◌, ◌≢◌, refl, sym, ◌∙◌, arith, Bool-cases, inl, inr,
}
use rag_system.Cache.Memory.{Manager, cache_get, cache_set}
use rag_system.Cache.Recall.{get-get, get-set}
use rag_system.Cache.Semantic.{
  Entry, Value, entry, ids, Embedder, SemanticCache, hit, missed, is_in, bucket_key, entry_key,
  scan, semantic_get, listed, inserted, semantic_set, remember,
}

entry_key-bucket_key :
    (h h' : String) → str_append "sem_cache:entry:" h ≢ str_append "sem_cache:bucket:" h'
entry_key-bucket_key h h' e =
    let cut : "sem_cache:entry:" ≡ "sem_cache:bucket" =
      sym (slice-append_left "sem_cache:entry:" h)
      ∙ ap (λ s. slice s 0 16) (e ∙ append_assoc "sem_cache:bucket" ":" h')
      ∙ slice-append_left "sem_cache:bucket" (str_append ":" h') in
    ground (arith, cut, eq_iff "sem_cache:entry:" "sem_cache:bucket")

inserted_front : (i : String) (l : List String) → (rest : List String) × (inserted i l ≡ i ∷ rest)
unfolding inserted
inserted_front i l = elim (Bool-cases (ltb 50 (length (i ∷ l)))) [
  | inl long ↦ (take 49 l, rw long refl)
  | inr short ↦ (l, rw short refl)
]

module _ {E : Type 0} (embedder : Embedder E) where
  scan_first :
      (now threshold : ℕ) (e : E) (i : String) (l : List String) (r : String)
      (m : Manager (Value E)) (x : Entry E)
      → (cache_get now i m).0 ≡ some (entry x)
      → x.embedding ≡ some e
      → x.response ≡ some r
      → leb threshold (embedder.cosine_similarity e e) ≡ true
      → (scan embedder now threshold e (i ∷ l) m).0 ≡ hit r
  unfolding scan
  scan_first now threshold e i l r m x found at_e at_r near =
      simp (scan, found, at_e, near, at_r) refl

  kept_apart :
      (query : String) (e : E)
      → (str_eq (entry_key embedder query) (bucket_key embedder e) ≡ false)
        × (str_eq (bucket_key embedder e) (entry_key embedder query) ≡ false)
  unfolding entry_key bucket_key
  kept_apart query e = ground (
    arith,
    entry_key-bucket_key (embedder.query_hash query) (embedder.bucket_hash e),
    eq_iff (entry_key embedder query) (bucket_key embedder e),
    eq_iff (bucket_key embedder e) (entry_key embedder query),
  )

  module _ (now at : ℕ) (query response : String) (e : E) (c : SemanticCache E)
      (embedded : embedder.compute_embedding query ≡ some e) (earlier : at ≤ now)
      (lives : now ≤ at + c.ttl) where
    abbrev key : String
    key = entry_key embedder query

    abbrev bucket : String
    bucket = bucket_key embedder e

    abbrev stored : SemanticCache E
    stored = remember embedder at e query response c

    abbrev listing : List String
    listing = listed (cache_get at bucket c.cache).0

    abbrev new_entry : Entry E
    new_entry = record { embedding = some e; response = some response; query = slice query 0 200 }

    abbrev written : Manager (Value E)
    written = cache_set at key (entry new_entry) c.ttl c.cache

    abbrev reread : Manager (Value E)
    reread = (cache_get at bucket written).1

    same_key : str_eq key key ≡ true
    same_key = ground (arith, eq_iff key key)

    same_bucket : str_eq bucket bucket ≡ true
    same_bucket = ground (arith, eq_iff bucket bucket)

    reread-listing : listed (cache_get at bucket written).0 ≡ listing
    reread-listing =
        ap listed (
          get-set at at c.ttl bucket key (entry new_entry) c.cache ∙ rw (kept_apart query e).0 refl)

    stored_lem : stored ≡ record c {
      cache =
          if is_in key listing
          then reread
          else cache_set at bucket (ids (inserted key listing)) (c.ttl * 2) reread;
    }
    unfolding remember
    stored_lem = rw reread-listing refl

    get-reread :
        (k : String)
        → (cache_get now k reread).0
          ≡ (if str_eq key k then some (entry new_entry) else (cache_get now k c.cache).0)
    get-reread k = ground (
      arith,
      get-get now at k bucket written earlier,
      get-set now at c.ttl k key (entry new_entry) c.cache,
    )

    get-entry : (cache_get now key stored.cache).0 ≡ some (entry new_entry)
    get-entry = ground (
      arith,
      (ap (λ x. x.cache) stored_lem),
      get-reread key,
      same_key,
      kept_apart query e,
      get-set now at (c.ttl * 2) key bucket (ids (inserted key listing)) reread,
    )

    get-bucket_listed :
        is_in key listing ≡ true
        → (cache_get now bucket stored.cache).0 ≡ (cache_get now bucket c.cache).0
    get-bucket_listed there =
        ground (arith, (ap (λ x. x.cache) stored_lem), get-reread bucket, kept_apart query e)

    get-bucket_fresh :
        is_in key listing ≡ false
        → (cache_get now bucket stored.cache).0 ≡ some (ids (inserted key listing))
    get-bucket_fresh fresh = ground (
      arith,
      (ap (λ x. x.cache) stored_lem),
      same_bucket,
      get-set now at (c.ttl * 2) bucket bucket (ids (inserted key listing)) reread,
    )

    -- A response that was stored for a question whose entry was not listed is found again at the same
    -- question, up to the end of its lifetime, where an embedding is similar enough to itself.
    pub semantic_get-semantic_set :
        is_in (entry_key embedder query) (listed (cache_get at (bucket_key embedder e) c.cache).0)
          ≡ false
        → c.threshold ≤ embedder.cosine_similarity e e
        → (semantic_get embedder now query (semantic_set embedder at query response c).1).0
          ≡ hit response
    unfolding semantic_get semantic_set remember
    semantic_get-semantic_set fresh near =
        let (rest, front) = inserted_front key listing in
        let after : Manager (Value E) = (cache_get now bucket stored.cache).1 in
        let found : (cache_get now key after).0 ≡ some (entry new_entry) =
          get-get now now key bucket stored.cache (omega arith) ∙ get-entry in
        simp (semantic_get, semantic_set, embedded, get-bucket_fresh fresh, front)
          (scan_first now (remember embedder at e query response c).threshold e key (take 199 rest)
            response after new_entry found refl refl
            (le→leb c.threshold (embedder.cosine_similarity e e) near))

    -- A response that is stored for a question whose entry the bucket lists already does not prolong
    -- the bucket: once the lifetime of the list is over, and before that of the response is, the
    -- question is missed, though its entry with the new response is there.
    pub refreshed_missed :
        is_in (entry_key embedder query) (listed (cache_get at (bucket_key embedder e) c.cache).0)
          ≡ true
        → (cache_get now (bucket_key embedder e) c.cache).0 ≡ none
        → let c' = (semantic_set embedder at query response c).1 in
          ((semantic_get embedder now query c').0 ≡ missed)
          × ((x : Entry E) × ((cache_get now (entry_key embedder query) c'.cache).0
                ≡ some (entry x))
              × (x.response ≡ some response))
    unfolding semantic_get semantic_set
    refreshed_missed there over =
        simp (semantic_get, semantic_set, embedded, get-bucket_listed there, over)
          (refl, (new_entry, get-entry, refl))
