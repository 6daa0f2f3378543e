-- ===== src/Retrieval/Fusion.antt =====
-- proxy/app/core/retrieval.py: reciprocal_rank_fusion, with compute_rrf_score of
-- proxy/app/domain/services.py. The reciprocal of a number is an argument.
use rag_system.Base.{ℕ, suc, ◌+◌, max, List, [], ◌∷◌, String, none, some, length, map}
use rag_system.Base.Dict.{Dict, get, put}
use rag_system.Context.Reorder.{sorted}

pub record Hit (A : Type 0) : Type 0 where
  pub id : String
  pub content : A

-- `scores.get(id, 0)`
unfoldable pub scored : String → Dict ℕ → ℕ
scored i scores = elim (get i scores) [ none ↦ 0 | some n ↦ n ]

module _ {A : Type 0} where
  -- `{hit.id: hit for hit in hits}`, added to a dictionary
  unfoldable pub indexed : List (Hit A) → Dict (Hit A) → Dict (Hit A)
  indexed [] d = d
  indexed (hit ∷ hits) d = indexed hits (put hit.id hit d)

  unfoldable pub restored : Dict (Hit A) → List String → List (Hit A)
  restored d [] = []
  restored d (i ∷ is) =
      let rest = restored d is in elim (get i d) [ none ↦ rest | some hit ↦ hit ∷ rest ]

module _ (reciprocal : ℕ → ℕ) where
  unfoldable pub compute_rrf_score : ℕ → ℕ → ℕ → ℕ
  compute_rrf_score dense_rank sparse_rank k =
      reciprocal (k + dense_rank) + reciprocal (k + sparse_rank)

  module _ {A : Type 0} where
    unfoldable pub add_dense : ℕ → ℕ → ℕ → List (Hit A) → Dict ℕ → Dict ℕ
    add_dense k sentinel rank [] scores = scores
    add_dense k sentinel rank (hit ∷ hits) scores =
        let score = scored hit.id scores + compute_rrf_score rank sentinel k in
        add_dense k sentinel (suc rank) hits (put hit.id score scores)

    unfoldable pub add_sparse : ℕ → ℕ → ℕ → List (Hit A) → Dict ℕ → Dict ℕ
    add_sparse k sentinel rank [] scores = scores
    add_sparse k sentinel rank (hit ∷ hits) scores =
        let score = scored hit.id scores + compute_rrf_score sentinel rank k in
        add_sparse k sentinel (suc rank) hits (put hit.id score scores)

    unfoldable pub fused_scores : ℕ → List (Hit A) → List (Hit A) → Dict ℕ
    fused_scores k dense sparse =
        let sparse_sentinel = k + max (length sparse) 1 in
        let dense_sentinel = k + max (length dense) 1 in
        add_sparse k dense_sentinel 1 sparse (add_dense k sparse_sentinel 1 dense [])

    unfoldable pub reciprocal_rank_fusion : ℕ → List (Hit A) → List (Hit A) → List (Hit A)
    reciprocal_rank_fusion k dense sparse =
        let scores = fused_scores k dense sparse in
        let sorted_ids = sorted (λ i. scored i scores) (map (λ p. p.0) scores) in
        restored (indexed sparse (indexed dense [])) sorted_ids
