-- ===== src/Retrieval/Eviction.antt =====
-- proxy/app/core/retrieval.py: how large the cache of embeddings grows, and what it keeps.
use rag_system.Base.{
  ℕ, zero, suc, ◌+◌, ◌-◌, ◌≤◌, ltb, true, false, none, some, List, [], ◌∷◌, ◌++◌, String, str_eq,
  length, length-append, drop, ◌≡◌, refl, ap, arith, Bool-cases, inl, inr,
}
use rag_system.Base.Dict.{Dict, contains, get, put, get-put_self}
use rag_system.Retrieval.Embeddings.{EmbeddingCache, Queries, get_embedding, set_embedding}

module _ {ℓ} {A : Type ℓ} where
  length-drop : (n : ℕ) (xs : List A) → length (drop n xs) ≡ length xs - n
  length-drop n [] = omega arith
  length-drop zero (x ∷ xs) = omega arith
  length-drop (suc n) (x ∷ xs) = omega (arith, length-drop n xs)

  drop-zero : (xs : List A) → drop zero xs ≡ xs
  drop-zero [] = refl
  drop-zero (x ∷ xs) = refl

module _ {ℓ} {A : Type ℓ} where
  -- A key that is put where it was not stays while only what was there before is dropped.
  get-drop-put :
      (k : String) (v : A) (n : ℕ) (d : Dict A)
      → get k d ≡ none
      → n ≤ length d
      → get k (drop n (put k v d)) ≡ some v
  unfolding get put
  get-drop-put k v zero d h le = ground (arith, drop-zero (put k v d), get-put_self k v d)
  get-drop-put k v (suc n) [] h le = ground (arith, le)
  get-drop-put k v (suc n) ((j, w) ∷ d) h le = elim (Bool-cases (str_eq j k)) [
    | inl same ↦ ground (arith, h, same)
    | inr differs ↦
        rw differs (get-drop-put k v n d (ground (arith, h, differs)) (omega (arith, le)))
  ]

  length-put :
      (k : String) (v : A) (d : Dict A)
      → length (put k v d) ≡ (elim (get k d) [ none ↦ suc (length d) | some w ↦ length d ])
  unfolding get put
  length-put k v [] = refl
  length-put k v ((j, w) ∷ d) = ground (arith, length-put k v d)

module _ {E : Type 0} (queries : Queries) where
  -- In a cache that is not larger than its size, which is not zero, an embedding that is set is got
  -- again, and the exact entries stay within the size.
  pub get_embedding-set_embedding :
      (query : String) (e : E) (c : EmbeddingCache E)
      → 1 ≤ c.max_size
      → length c.exact_cache ≤ c.max_size
      → let c' = set_embedding queries query e c in
        (get_embedding queries query c' ≡ some e) × (length c'.exact_cache ≤ c'.max_size)
  unfolding set_embedding get_embedding
  get_embedding-set_embedding query e c some_room bounded =
      let k = queries.hash_query query in
      let size = length-put k e c.exact_cache in
      elim (Bool-cases (ltb c.max_size (length (put k e c.exact_cache)))) [
        | inl over ↦
            let absent : get k c.exact_cache ≡ none = ground (arith, size, over, bounded) in
            let found : get k (set_embedding queries query e c).exact_cache ≡ some e = rw over (
              get-drop-put k e (length (put k e c.exact_cache) - c.max_size) c.exact_cache absent
                (ground (arith, size, absent, bounded, some_room))) in
            (
              rw (get_embedding, found) refl,
              rw over (
                  omega (
                    arith,
                    length-drop (length (put k e c.exact_cache) - c.max_size)
                        (put k e c.exact_cache),
                  )),
            )
        | inr fits ↦
            let found : get k (set_embedding queries query e c).exact_cache ≡ some e =
              rw fits (get-put_self k e c.exact_cache) in
            (rw (get_embedding, found) refl, rw fits (ground (arith, fits)))
      ]

  set_again :
      (query : String) (e : E) (c : EmbeddingCache E)
      → contains (queries.hash_query query) c.exact_cache ≡ true
      → length c.exact_cache ≤ c.max_size
      → set_embedding queries query e c ≡ record c {
        exact_cache = put (queries.hash_query query) e c.exact_cache;
        query_embeddings = c.query_embeddings ++ ((query, e) ∷ []);
      }
        × (length (put (queries.hash_query query) e c.exact_cache) ≡ length c.exact_cache)
  unfolding set_embedding contains
  set_again query e c there bounded =
      let k = queries.hash_query query in
      let same : length (put k e c.exact_cache) ≡ length c.exact_cache =
        ground (arith, length-put k e c.exact_cache, there) in
      let fits : ltb c.max_size (length (put k e c.exact_cache)) ≡ false =
        ground (arith, same, bounded) in
      (rw fits refl, same)

  -- The same question set a number of times
  unfoldable pub repeated : ℕ → String → E → EmbeddingCache E → EmbeddingCache E
  repeated zero query e c = c
  repeated (suc n) query e c = repeated n query e (set_embedding queries query e c)

  -- Where the cache is within its size and has the question, every repetition of the same question
  -- leaves the exact entries as many as they were, and makes the list that is searched by words one
  -- longer: it has no bound.
  pub repeated_grows :
      (n : ℕ) (query : String) (e : E) (c : EmbeddingCache E)
      → contains (queries.hash_query query) c.exact_cache ≡ true
      → length c.exact_cache ≤ c.max_size
      → let c' = repeated n query e c in
        (length c'.exact_cache ≡ length c.exact_cache)
        × (length c'.query_embeddings ≡ length c.query_embeddings + n)
  unfolding repeated contains
  repeated_grows zero query e c there bounded = (refl, omega arith)
  repeated_grows (suc n) query e c there bounded =
      let k = queries.hash_query query in
      let (same, size) = set_again query e c there bounded in
      let c' = set_embedding queries query e c in
      let exact = ap (λ x. x.exact_cache) same in
      let (as_many, longer) =
        repeated_grows n query e c' (ground (arith, exact, get-put_self k e c.exact_cache))
          (ground (arith, exact, size, bounded, ap (λ x. x.max_size) same)) in
      (
        ground (arith, as_many, exact, size),
        ground (
          arith,
          longer,
          ap (λ x. x.query_embeddings) same,
          length-append c.query_embeddings ((query, e) ∷ []),
        ),
      )
