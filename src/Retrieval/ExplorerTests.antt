-- ===== src/Retrieval/ExplorerTests.antt =====
-- proxy/app/core/retrieval.py: the search for paths on a small graph.
use rag_system.Base.{
  ◌*◌, ◌≤◌, true, List, [], ◌∷◌, some, String, ◌≢◌, eq_iff, All, length, ◌≡◌, refl, arith,
}
use rag_system.Base.Dict.{Dict, get}
use rag_system.Retrieval.Explorer.{
  Explorer, FoundPath, is_member, neighbors_of, connectivity, scored_path, successors, expand,
  bfs_loop, explore_all, comes_before, insert_path, sort_paths, explore,
}
use rag_system.Retrieval.Exploration.{explore_returns}
use rag_system.Retrieval.Walks.{IsFound, explore-IsFound}
use rag_system.Retrieval.Cycles.{circle, hopping, circle_lost}

abbrev graph : Dict (List String)
graph = ("api", "db" ∷ "queue" ∷ []) ∷ ("db", "disk" ∷ []) ∷ ("queue", "api" ∷ []) ∷ []

abbrev explorer : Explorer
explorer = record { max_hops = 2; max_results_per_hop = 2; cycle_detection = true }

-- The path from "api" to "queue" and back is not recorded.
abbrev to_disk : FoundPath
to_disk = record { path = "api" ∷ "db" ∷ "disk" ∷ []; numerator = 3; denominator = 39; hops = 2 }

explored : explore explorer graph 7 ("api" ∷ []) ≡ some (to_disk ∷ [])
unfolding explore explore_all bfs_loop expand successors scored_path connectivity neighbors_of get
    is_member sort_paths insert_path comes_before
explored = refl

explore_returns_example :
    (paths : List FoundPath) × (explore explorer graph 7 ("api" ∷ []) ≡ some paths)
    × (length paths ≤ 2 * 2)
explore_returns_example = explore_returns explorer graph 7 ("api" ∷ []) (omega arith)

explore-IsFound_example : All (IsFound explorer graph ("api" ∷ [])) (to_disk ∷ [])
explore-IsFound_example = explore-IsFound explorer graph 7 ("api" ∷ []) (to_disk ∷ []) explored

apart : ◌≢◌ {A = String} "api" "db"
apart e = ground (arith, e, eq_iff "api" "db")

circle_lost_example :
    ((p : FoundPath) × (explore (hopping 1 9) (circle "api" "db") 3 ("api" ∷ []) ≡ some (p ∷ []))
      × (p.path ≡ "api" ∷ "db" ∷ []))
    × (explore (hopping 2 9) (circle "api" "db") 3 ("api" ∷ []) ≡ some [])
circle_lost_example = circle_lost "api" "db" 0 9 1 apart
