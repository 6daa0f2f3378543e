-- ===== src/Retrieval/Explorer.antt =====
-- proxy/app/core/retrieval.py: MultiHopGraphExplorer. The loop over the queue has fuel; see
-- Exploration for how much it needs. A score is a fraction of natural numbers.
use rag_system.Base.{
  ℕ, zero, suc, ◌+◌, ◌*◌, min, ltb, leb, ◌==◌, Bool, ◌&&◌, ◌||◌, Option, none, some, List, [], ◌∷◌,
  ◌++◌, String, str_eq, length, any, take, if◌then◌else◌,
}
use rag_system.Base.Dict.{Dict, get}

pub record Explorer : Type 0 where
  pub max_hops : ℕ
  pub max_results_per_hop : ℕ
  pub cycle_detection : Bool

-- A path that was found, with its score as a numerator and a denominator
pub record FoundPath : Type 0 where
  pub path : List String
  pub numerator : ℕ
  pub denominator : ℕ
  pub hops : ℕ

-- An entry of the queue
pub record Reached : Type 0 where
  pub current : String
  pub path : List String
  pub hops : ℕ

pub record Search : Type 0 where
  pub pending : List Reached
  pub visited : List String
  pub paths : List FoundPath

pub data Outcome : Type 0 where
  done : Search → Outcome
  out_of_fuel : Outcome

unfoldable pub is_member : String → List String → Bool
is_member x xs = any (λ y. str_eq y x) xs

-- `entity_map.get(entity, [])`
unfoldable pub neighbors_of : String → Dict (List String) → List String
neighbors_of entity entity_map = elim (get entity entity_map) [ none ↦ [] | some ns ↦ ns ]

unfoldable pub connectivity : Dict (List String) → List String → ℕ
connectivity entity_map [] = 0
connectivity entity_map (e ∷ es) =
    min (length (neighbors_of e entity_map)) 10 + connectivity entity_map es

-- `connectivity / (10 * n) * 1 / (1 + n / 10)`, for the length `n` of the path
unfoldable pub scored_path : Dict (List String) → List String → ℕ → FoundPath
scored_path entity_map path hops = record {
  path = path;
  numerator = connectivity entity_map path;
  denominator = length path * (10 + length path);
  hops = hops;
}

module _ (x : Explorer) (entity_map : Dict (List String)) where
  unfoldable pub successors : Reached → List String → List Reached
  successors r [] = []
  successors r (n ∷ ns) =
      let rest = successors r ns in
      let next : Reached = record { current = n; path = r.path ++ (n ∷ []); hops = suc r.hops } in
      if x.cycle_detection && is_member n r.path then rest else next ∷ rest

  -- The body of the loop, for an entry that left the queue
  unfoldable pub expand : Reached → List Reached → List String → List FoundPath → Search
  expand r rest visited paths =
      let marked = if x.cycle_detection then r.current ∷ visited else visited in
      let neighbors = neighbors_of r.current entity_map in
      let more = successors r (take x.max_results_per_hop neighbors) in
      if x.cycle_detection && is_member r.current visited
      then record { pending = rest; visited = visited; paths = paths }
      else if length neighbors == 0 || leb x.max_hops r.hops
      then record {
        pending = rest;
        visited = marked;
        paths = paths ++ (scored_path entity_map r.path r.hops ∷ []);
      }
      else record { pending = rest ++ more; visited = marked; paths = paths }

  unfoldable pub bfs_loop : ℕ → Search → Outcome
  bfs_loop zero s = elim s.pending [ [] ↦ done s | r ∷ rest ↦ out_of_fuel ]
  bfs_loop (suc fuel) s = elim s.pending [
    | [] ↦ done s
    | r ∷ rest ↦ bfs_loop fuel (expand r rest s.visited s.paths)
  ]

  abbrev pub started : String → List String → List FoundPath → Search
  started start visited paths = record {
    pending = record { current = start; path = start ∷ []; hops = 0 } ∷ [];
    visited = visited;
    paths = paths;
  }

  -- The loop over the entities to start from; the visited ones are passed on.
  unfoldable pub explore_all :
      ℕ → List String → List String → List FoundPath → Option (List FoundPath)
  explore_all fuel [] visited paths = some paths
  explore_all fuel (e ∷ es) visited paths = elim (bfs_loop fuel (started e visited paths)) [
    | out_of_fuel ↦ none
    | done s ↦ explore_all fuel es s.visited s.paths
  ]

-- The order of `sort`: a larger score first, then fewer hops
unfoldable pub comes_before : FoundPath → FoundPath → Bool
comes_before p q =
    let left = p.numerator * q.denominator in
    let right = q.numerator * p.denominator in
    ltb right left || (left == right && leb p.hops q.hops)

unfoldable pub insert_path : FoundPath → List FoundPath → List FoundPath
insert_path p [] = p ∷ []
insert_path p (q ∷ qs) =
    let rest = insert_path p qs in if comes_before p q then p ∷ q ∷ qs else q ∷ rest

unfoldable pub sort_paths : List FoundPath → List FoundPath
sort_paths [] = []
sort_paths (p ∷ ps) = insert_path p (sort_paths ps)

module _ (x : Explorer) (entity_map : Dict (List String)) where
  unfoldable pub explore : ℕ → List String → Option (List FoundPath)
  explore fuel start_entities =
      if length start_entities == 0 || length entity_map == 0
      then some []
      else elim (explore_all x entity_map fuel start_entities [] []) [
        | none ↦ none
        | some paths ↦ some (take (x.max_results_per_hop * 2) (sort_paths paths))
      ]
