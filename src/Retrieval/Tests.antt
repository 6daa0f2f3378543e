-- ===== src/Retrieval/Tests.antt =====
-- Runs of the retrieval's parts, and their theorems at concrete inputs.
use rag_system.Base.{
  ℕ, ◌/◌, true, ◌||◌, List, [], ◌∷◌, String, ◌≡◌, refl, arith, str_eq, map, count, if◌then◌else◌,
}
use rag_system.Base.Dict.{get, contains, put}
use rag_system.Context.Reorder.{insert, sorted}
use rag_system.Context.Order.{Descending}
use rag_system.Retrieval.Embeddings.{EmbeddingCache, Queries}
use rag_system.Retrieval.Fusion.{
  Hit, compute_rrf_score, scored, add_dense, add_sparse, indexed, restored, fused_scores,
  reciprocal_rank_fusion,
}
use rag_system.Retrieval.Identifiers.{is_listed}
use rag_system.Retrieval.Ranks.{rank_score, reciprocal_rank_fusion_lem}
use rag_system.Retrieval.Knee.{find_knee_point, knee_loop, domain_find_knee_point}
use rag_system.Retrieval.Quality.{
  insufficient, filter_results_by_score, IsFiltered, IsBelow, filter_results_by_score_lem,
}

abbrev queries : Queries
queries = record { hash_query = λ q. q; words = λ q. q ∷ [] }

abbrev cached : EmbeddingCache ℕ
cached = record {
  max_size = 2;
  similarity_threshold = 95;
  exact_cache = ("a", 1) ∷ ("b", 2) ∷ [];
  query_embeddings = ("a", 1) ∷ ("b", 2) ∷ [];
}

has_b : contains "b" cached.exact_cache ≡ true
unfolding contains get
has_b = refl

abbrev hit : String → Hit ℕ
hit i = record { id = i; content = 0 }

abbrev dense : List (Hit ℕ)
dense = hit "x" ∷ hit "y" ∷ hit "z" ∷ []

abbrev sparse : List (Hit ℕ)
sparse = hit "z" ∷ hit "w" ∷ []

abbrev billionths : ℕ → ℕ
billionths n = 1000000000 / n

fused :
    map (λ h. h.id) (reciprocal_rank_fusion billionths 60 dense sparse) ≡ "z" ∷ "x" ∷ "y" ∷ "w" ∷ []
unfolding reciprocal_rank_fusion fused_scores add_dense add_sparse indexed restored scored
    compute_rrf_score get put sorted insert
fused = refl

reciprocal_rank_fusion_lem_example :
    let is = map (λ h. h.id) (reciprocal_rank_fusion billionths 60 dense sparse) in
    Descending (rank_score billionths 60 dense sparse) is
    × ((i : String)
        → count (λ j. str_eq j i) is ≡ (if is_listed i dense || is_listed i sparse then 1 else 0))
reciprocal_rank_fusion_lem_example = reciprocal_rank_fusion_lem billionths 60 dense sparse

abbrev score : ℕ → ℕ
score n = n

abbrev results : List ℕ
results = 90 ∷ 80 ∷ 40 ∷ 10 ∷ []

filter_results_by_score_lem_example :
    IsFiltered score 70 30 2 results (filter_results_by_score score 70 30 2 results)
    × (IsBelow score 70 30 2 results
        → filter_results_by_score score 70 30 2 results ≡ ([], insufficient))
filter_results_by_score_lem_example =
    filter_results_by_score_lem score 70 30 2 results (omega arith) (omega arith)

pruned : domain_find_knee_point score (90 ∷ 88 ∷ 40 ∷ 39 ∷ []) ≡ 90 ∷ 88 ∷ []
unfolding domain_find_knee_point find_knee_point knee_loop
pruned = refl
