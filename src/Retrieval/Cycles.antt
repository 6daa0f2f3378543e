-- ===== src/Retrieval/Cycles.antt =====
-- proxy/app/core/retrieval.py: what the search for paths does on a circle.
use rag_system.Base.{
  ℕ, zero, suc, true, false, some, List, [], ◌∷◌, ◌≢◌, String, str_eq, eq_iff, ◌≡◌, refl, ap, ◌∙◌,
  arith, ◌*◌, take,
}
use rag_system.Base.Dict.{Dict, get}
use rag_system.Retrieval.Explorer.{
  Explorer, FoundPath, Reached, Search, done, is_member, neighbors_of, scored_path, successors,
  expand, bfs_loop, started, explore_all, insert_path, sort_paths, explore,
}

-- Two entities that are each other's only neighbours
abbrev pub circle : String → String → Dict (List String)
circle a b = (a, b ∷ []) ∷ (b, a ∷ []) ∷ []

abbrev pub hopping : ℕ → ℕ → Explorer
hopping hops more = record {
  max_hops = hops;
  max_results_per_hop = suc more;
  cycle_detection = true;
}

module _ (a b : String) (differ : a ≢ b) where
  same_a : str_eq a a ≡ true
  same_a = ground (arith, eq_iff a a)

  same_b : str_eq b b ≡ true
  same_b = ground (arith, eq_iff b b)

  apart : str_eq a b ≡ false
  apart = ground (arith, differ, eq_iff a b)

  neighbors_a : neighbors_of a (circle a b) ≡ b ∷ []
  unfolding neighbors_of get
  neighbors_a = ground (arith, same_a)

  neighbors_b : neighbors_of b (circle a b) ≡ a ∷ []
  unfolding neighbors_of get
  neighbors_b = ground (arith, apart, same_b)

  abbrev second : Reached
  second = record { current = b; path = a ∷ b ∷ []; hops = 1 }

  first_round :
      (hops more : ℕ)
      → expand
          (hopping (suc hops) more)
          (circle a b)
          (record { current = a; path = a ∷ []; hops = 0 })
          []
          []
          []
        ≡ record { pending = second ∷ []; visited = a ∷ []; paths = [] }
  unfolding expand successors is_member
  first_round hops more = ground (arith, neighbors_a, apart)

  second_round :
      (n more : ℕ)
      → expand (hopping (suc (suc n)) more) (circle a b) second [] (a ∷ []) []
        ≡ record { pending = []; visited = b ∷ a ∷ []; paths = [] }
  unfolding expand successors is_member
  second_round n more = ground (arith, neighbors_b, apart, same_a)

  last_round :
      (more : ℕ)
      → expand (hopping 1 more) (circle a b) second [] (a ∷ []) [] ≡ record {
        pending = [];
        visited = b ∷ a ∷ [];
        paths = scored_path (circle a b) (a ∷ b ∷ []) 1 ∷ [];
      }
  unfolding expand successors is_member
  last_round more = ground (arith, neighbors_b, apart)

  ended :
      (x : Explorer) (fuel : ℕ) (visited : List String) (paths : List FoundPath)
      → bfs_loop x (circle a b) fuel (record { pending = []; visited = visited; paths = paths })
        ≡ done (record { pending = []; visited = visited; paths = paths })
  unfolding bfs_loop
  ended x zero visited paths = refl
  ended x (suc fuel) visited paths = refl

  next_round :
      (x : Explorer) (fuel : ℕ) (r : Reached) (visited : List String) (paths : List FoundPath)
      (s : Search)
      → expand x (circle a b) r [] visited paths ≡ s
      → bfs_loop x
          (circle a b)
          (suc fuel)
          (record { pending = r ∷ []; visited = visited; paths = paths })
        ≡ bfs_loop x (circle a b) fuel s
  unfolding bfs_loop
  next_round x fuel r visited paths s e = ap (bfs_loop x (circle a b) fuel) e

  two_rounds :
      (hops more fuel : ℕ) (paths : List FoundPath)
      → let x = hopping (suc hops) more in
        let s : Search = record { pending = []; visited = b ∷ a ∷ []; paths = paths } in
        expand x (circle a b) second [] (a ∷ []) [] ≡ s
        → bfs_loop x (circle a b) (suc (suc fuel)) (started x (circle a b) a [] []) ≡ done s
  two_rounds hops more fuel paths e =
      let x = hopping (suc hops) more in
      next_round x (suc fuel) (record { current = a; path = a ∷ []; hops = 0 }) [] []
        (record { pending = second ∷ []; visited = a ∷ []; paths = [] }) (first_round hops more)
      ∙ next_round x fuel second (a ∷ []) []
          (record { pending = []; visited = b ∷ a ∷ []; paths = paths }) e
      ∙ ended x fuel (b ∷ a ∷ []) paths

path-scored_path :
    (m : Dict (List String)) (path : List String) (hops : ℕ) → (scored_path m path hops).path ≡ path
unfolding scored_path
path-scored_path m path hops = refl

take_one : {A : Type 0} → (more : ℕ) (y : A) → take (suc more * 2) (y ∷ []) ≡ y ∷ []
take_one more y = let e : suc more * 2 ≡ suc (suc (more * 2)) = omega arith in rw e refl

-- With the detection of cycles on, where two different entities are each other's only neighbours and
-- the graph has no other entity, the search from one of them finds exactly the path to the other with
-- one hop. With two hops or more it finds no path at all, whatever the results per hop and the fuel for
-- two rounds or more: what goes on only in a circle is not recorded.
pub circle_lost :
    (a b : String) (n more fuel : ℕ)
    → a ≢ b
    → let entity_map : Dict (List String) = (a, b ∷ []) ∷ (b, a ∷ []) ∷ [] in
      let one_hop : Explorer = record {
        max_hops = 1;
        max_results_per_hop = suc more;
        cycle_detection = true;
      } in
      let more_hops : Explorer = record {
        max_hops = suc (suc n);
        max_results_per_hop = suc more;
        cycle_detection = true;
      } in
      ((p : FoundPath) × (explore one_hop entity_map (suc (suc fuel)) (a ∷ []) ≡ some (p ∷ []))
        × (p.path ≡ a ∷ b ∷ []))
      × (explore more_hops entity_map (suc (suc fuel)) (a ∷ []) ≡ some [])
unfolding explore explore_all sort_paths insert_path
circle_lost a b n more fuel differ = (
  (
    scored_path (circle a b) (a ∷ b ∷ []) 1,
    rw
        (
          two_rounds a b differ 0 more fuel (scored_path (circle a b) (a ∷ b ∷ []) 1 ∷ [])
              (last_round a b differ more),
          explore,
          explore_all,
        )
        (ap some (take_one more _)),
    path-scored_path (circle a b) (a ∷ b ∷ []) 1,
  ),
  rw
      (
        two_rounds a b differ (suc n) more fuel [] (second_round a b differ n more),
        explore,
        explore_all,
      )
      refl,
)
