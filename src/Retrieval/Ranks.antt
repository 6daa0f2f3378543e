-- ===== src/Retrieval/Ranks.antt =====
-- proxy/app/core/retrieval.py: what reciprocal_rank_fusion gives, by the ranks in the two lists.
use rag_system.Base.{
  ℕ, suc, ◌+◌, max, true, ◌||◌, List, [], ◌∷◌, String, str_eq, eq_iff, length, map, count, All,
  if◌then◌else◌, ◌≡◌, sym, ap, ◌∙◌, arith,
}
use rag_system.Base.Dict.{Dict, get, contains, put, Distinct, put-Distinct}
use rag_system.Context.Reorder.{sorted}
use rag_system.Context.Order.{Descending, sorted-Descending, count-sorted}
use rag_system.Retrieval.Identifiers.{
  is_listed, IsIndex, contains-put, scored-put, All-sorted, All-keys, count-keys, Descending-same,
  indexed-IsIndex, contains-indexed, map-restored,
}
use rag_system.Retrieval.Fusion.{
  Hit, compute_rrf_score, scored, add_dense, add_sparse, indexed, fused_scores,
  reciprocal_rank_fusion,
}

module _ {A : Type 0} where
  -- What the places of an identifier in a list add to its score, by the rank of the first
  unfoldable pub contributions : (ℕ → ℕ) → String → ℕ → List (Hit A) → ℕ
  contributions f i rank [] = 0
  contributions f i rank (hit ∷ hits) =
      let rest = contributions f i (suc rank) hits in
      if str_eq hit.id i then f rank + rest else rest

module _ (reciprocal : ℕ → ℕ) {A : Type 0} where
  scored-add_dense :
      (i : String) (k sentinel rank : ℕ) (hits : List (Hit A)) (d : Dict ℕ)
      → scored i (add_dense reciprocal k sentinel rank hits d)
        ≡ scored i d + contributions (λ r. compute_rrf_score reciprocal r sentinel k) i rank hits
  unfolding add_dense contributions
  scored-add_dense i k sentinel rank [] d = omega arith
  scored-add_dense i k sentinel rank (x ∷ hits) d =
      let score = scored x.id d + compute_rrf_score reciprocal rank sentinel k in
      ground (
        arith,
        scored-add_dense i k sentinel (suc rank) hits (put x.id score d),
        scored-put i x.id score d,
        eq_iff x.id i,
      )

  scored-add_sparse :
      (i : String) (k sentinel rank : ℕ) (hits : List (Hit A)) (d : Dict ℕ)
      → scored i (add_sparse reciprocal k sentinel rank hits d)
        ≡ scored i d + contributions (λ r. compute_rrf_score reciprocal sentinel r k) i rank hits
  unfolding add_sparse contributions
  scored-add_sparse i k sentinel rank [] d = omega arith
  scored-add_sparse i k sentinel rank (x ∷ hits) d =
      let score = scored x.id d + compute_rrf_score reciprocal sentinel rank k in
      ground (
        arith,
        scored-add_sparse i k sentinel (suc rank) hits (put x.id score d),
        scored-put i x.id score d,
        eq_iff x.id i,
      )

  contains-add_dense :
      (i : String) (k sentinel rank : ℕ) (hits : List (Hit A)) (d : Dict ℕ)
      → contains i (add_dense reciprocal k sentinel rank hits d)
        ≡ (contains i d || is_listed i hits)
  unfolding add_dense
  contains-add_dense i k sentinel rank [] d = ground arith
  contains-add_dense i k sentinel rank (x ∷ hits) d =
      let score = scored x.id d + compute_rrf_score reciprocal rank sentinel k in
      ground (
        arith,
        contains-add_dense i k sentinel (suc rank) hits (put x.id score d),
        contains-put i x.id score d,
      )

  contains-add_sparse :
      (i : String) (k sentinel rank : ℕ) (hits : List (Hit A)) (d : Dict ℕ)
      → contains i (add_sparse reciprocal k sentinel rank hits d)
        ≡ (contains i d || is_listed i hits)
  unfolding add_sparse
  contains-add_sparse i k sentinel rank [] d = ground arith
  contains-add_sparse i k sentinel rank (x ∷ hits) d =
      let score = scored x.id d + compute_rrf_score reciprocal sentinel rank k in
      ground (
        arith,
        contains-add_sparse i k sentinel (suc rank) hits (put x.id score d),
        contains-put i x.id score d,
      )

  add_dense-Distinct :
      (k sentinel rank : ℕ) (hits : List (Hit A)) (d : Dict ℕ)
      → Distinct d
      → Distinct (add_dense reciprocal k sentinel rank hits d)
  unfolding add_dense
  add_dense-Distinct k sentinel rank [] d h = h
  add_dense-Distinct k sentinel rank (x ∷ hits) d h =
      let score = scored x.id d + compute_rrf_score reciprocal rank sentinel k in
      add_dense-Distinct k sentinel (suc rank) hits (put x.id score d) (put-Distinct x.id score d h)

  add_sparse-Distinct :
      (k sentinel rank : ℕ) (hits : List (Hit A)) (d : Dict ℕ)
      → Distinct d
      → Distinct (add_sparse reciprocal k sentinel rank hits d)
  unfolding add_sparse
  add_sparse-Distinct k sentinel rank [] d h = h
  add_sparse-Distinct k sentinel rank (x ∷ hits) d h =
      let score = scored x.id d + compute_rrf_score reciprocal sentinel rank k in
      add_sparse-Distinct k sentinel (suc rank) hits (put x.id score d)
        (put-Distinct x.id score d h)

  -- The score of an identifier, from its places in the two lists. Each place counts with its own
  -- reciprocal, and with one for a place behind the end of the other list.
  abbrev pub rank_score : ℕ → List (Hit A) → List (Hit A) → String → ℕ
  rank_score k dense sparse i =
      contributions (λ r. reciprocal (k + r) + reciprocal (k + (k + max (length sparse) 1))) i 1
        dense
      + contributions (λ r. reciprocal (k + (k + max (length dense) 1)) + reciprocal (k + r)) i 1
          sparse

  scored-fused_scores :
      (k : ℕ) (dense sparse : List (Hit A)) (i : String)
      → scored i (fused_scores reciprocal k dense sparse) ≡ rank_score k dense sparse i
  unfolding fused_scores compute_rrf_score scored get
  scored-fused_scores k dense sparse i = ground (
    arith,
    scored-add_dense i k (k + max (length sparse) 1) 1 dense [],
    scored-add_sparse i k (k + max (length dense) 1) 1 sparse
        (add_dense reciprocal k (k + max (length sparse) 1) 1 dense []),
  )

  contains-fused_scores :
      (k : ℕ) (dense sparse : List (Hit A)) (i : String)
      → contains i (fused_scores reciprocal k dense sparse)
        ≡ (is_listed i dense || is_listed i sparse)
  unfolding fused_scores contains get
  contains-fused_scores k dense sparse i = ground (
    arith,
    contains-add_dense i k (k + max (length sparse) 1) 1 dense [],
    contains-add_sparse i k (k + max (length dense) 1) 1 sparse
        (add_dense reciprocal k (k + max (length sparse) 1) 1 dense []),
  )

  fused_scores-Distinct :
      (k : ℕ) (dense sparse : List (Hit A)) → Distinct (fused_scores reciprocal k dense sparse)
  unfolding fused_scores
  fused_scores-Distinct k dense sparse =
      add_sparse-Distinct k (k + max (length dense) 1) 1 sparse
        (add_dense reciprocal k (k + max (length sparse) 1) 1 dense [])
        (add_dense-Distinct k (k + max (length sparse) 1) 1 dense [] tt)

  both-IsIndex : (dense sparse : List (Hit A)) → IsIndex (indexed sparse (indexed dense []))
  unfolding get
  both-IsIndex dense sparse =
      indexed-IsIndex sparse (indexed dense [])
        (indexed-IsIndex dense [] (λ i h at. ground (arith, at)))

  contains-both :
      (dense sparse : List (Hit A)) (i : String)
      → contains i (indexed sparse (indexed dense [])) ≡ (is_listed i dense || is_listed i sparse)
  unfolding contains get
  contains-both dense sparse i =
      ground (arith, contains-indexed i sparse (indexed dense []), contains-indexed i dense [])

  -- The fused list has every identifier of the two lists once and no other, in the order of the
  -- scores that its places in the lists give it.
  pub reciprocal_rank_fusion_lem :
      (k : ℕ) (dense sparse : List (Hit A))
      → let is = map (λ h. h.id) (reciprocal_rank_fusion reciprocal k dense sparse) in
        Descending (rank_score k dense sparse) is
        × ((i : String)
            → count (λ j. str_eq j i) is
              ≡ (if is_listed i dense || is_listed i sparse then 1 else 0))
  unfolding reciprocal_rank_fusion
  reciprocal_rank_fusion_lem k dense sparse =
      let d = fused_scores reciprocal k dense sparse in
      let index : Dict (Hit A) = indexed sparse (indexed dense []) in
      let ids = sorted (λ i. scored i d) (map (λ p. p.0) d) in
      let P : String → Type 0 = λ i. contains i index ≡ true in
      let known : All P ids =
        All-sorted P (λ i. scored i d) (map (λ p. p.0) d)
          (All-keys P d (λ i there.
            contains-both dense sparse i ∙ sym (contains-fused_scores k dense sparse i) ∙ there)) in
      rw (map-restored index ids (both-IsIndex dense sparse) known) (
        Descending-same (λ i. scored i d) (rank_score k dense sparse)
            (scored-fused_scores k dense sparse) ids
            (sorted-Descending (λ i. scored i d) (map (λ p. p.0) d)),
        λ i.
            count-sorted (λ i. scored i d) (λ j. str_eq j i) (map (λ p. p.0) d)
            ∙ count-keys i d (fused_scores-Distinct k dense sparse)
            ∙ ap (λ b. if b then 1 else 0) (contains-fused_scores k dense sparse i),
      )
