-- ===== src/Cache/Tests.antt =====
-- Runs of the caches, and their theorems at concrete inputs.
use rag_system.Base.{ℕ, true, false, none, some, List, [], ◌∷◌, String, ◌≡◌, refl, arith}
use rag_system.Base.Dict.{get, put}
use rag_system.Cache.Memory.{is_expired, get_value, set_value, full_key, cache_get, cache_set}
use rag_system.Cache.Recall.{Op, got, stored, deleted, after, recall, recall_lem}
use rag_system.Cache.Semantic.{
  Embedder, SemanticCache, hit, is_in, bucket_key, entry_key, scan, semantic_get, listed, inserted,
  remember, semantic_set,
}
use rag_system.Cache.Hits.{Answers, semantic_get_hits}

abbrev history : List (ℕ × Op String)
history =
    (20, got "a") ∷ (15, stored "b" "two" 100) ∷ (12, deleted "a") ∷ (10, stored "a" "one" 100) ∷ []

recall_lem_example : (cache_get 30 "b" (after "rag:" history)).0 ≡ recall 30 "b" history
recall_lem_example =
    recall_lem "rag:" 30 "b" history (omega arith, (omega arith, (omega arith, (omega arith, tt))))

recalled : recall 30 "b" history ≡ some "two"
unfolding recall
recalled = refl

abbrev embedder : Embedder ℕ
embedder = record {
  compute_embedding = λ query. some 7;
  cosine_similarity = λ a b. 95;
  bucket_hash = λ e. "00";
  query_hash = λ query. query;
}

abbrev empty : SemanticCache ℕ
empty = record { cache = record { key_prefix = ""; store = [] }; threshold = 92; ttl = 300 }

abbrev asked : SemanticCache ℕ
asked = (semantic_set embedder 100 "q" "r" empty).1

missing : (cache_get 100 (bucket_key embedder 7) empty.cache).0 ≡ none
unfolding cache_get get_value full_key bucket_key get
missing = refl

fresh :
    is_in (entry_key embedder "q") (listed (cache_get 100 (bucket_key embedder 7) empty.cache).0)
    ≡ false
unfolding cache_get get_value full_key bucket_key entry_key get is_in listed
fresh = refl

answered : (semantic_get embedder 200 "another" asked).0 ≡ hit "r"
unfolding semantic_get semantic_set remember cache_get cache_set get_value set_value is_expired
    full_key bucket_key entry_key get put is_in listed inserted scan
answered = refl

semantic_get_hits_example :
    (e : ℕ) × (embedder.compute_embedding "another" ≡ some e)
    × (entry_id : String) × (is_in entry_id
          (listed (cache_get 200 (bucket_key embedder e) asked.cache).0)
        ≡ true)
    × Answers embedder 200 asked.threshold e "r" asked.cache entry_id
semantic_get_hits_example = semantic_get_hits embedder 200 "another" "r" asked answered

-- The list of the bucket lives to 700; the response is stored again at 650, and asked for at 800.
listed_already :
    is_in (entry_key embedder "q") (listed (cache_get 650 (bucket_key embedder 7) asked.cache).0)
    ≡ true
unfolding semantic_set remember cache_get cache_set get_value set_value is_expired full_key
    bucket_key entry_key get put is_in listed inserted
listed_already = refl

over : (cache_get 800 (bucket_key embedder 7) asked.cache).0 ≡ none
unfolding semantic_set remember cache_get cache_set get_value set_value is_expired full_key
    bucket_key entry_key get put is_in listed inserted
over = refl
