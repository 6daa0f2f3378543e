-- ===== src/Retrieval/Exploration.antt =====
-- proxy/app/core/retrieval.py: the search for paths ends, and what it finds are paths of the graph.
use rag_system.Base.{
  List-cases, ℕ, zero, suc, ◌+◌, ◌-◌, ◌*◌, ◌≤◌, ◌<◌, leb, ◌==◌, ◌&&◌, ◌||◌, some, List, [], ◌∷◌,
  ◌++◌, String, length, take, ◌≡◌, refl, ap, arith, Bool-cases, inl, inr,
}
use rag_system.Base.Dict.{Dict}
use rag_system.Retrieval.Explorer.{
  Explorer, FoundPath, Reached, Search, done, is_member, neighbors_of, successors, expand, bfs_loop,
  started, explore_all, sort_paths, explore,
}

mul_mono : (a b c : ℕ) → a ≤ b → a * c ≤ b * c
mul_mono zero b c le = omega arith
mul_mono (suc a) zero c le = omega (arith, le)
mul_mono (suc a) (suc b) c le = omega (arith, mul_mono a b c (omega (arith, le)))

module _ {A : Type 0} where
  length-taken : (n : ℕ) (xs : List A) → length (take n xs) ≤ n
  length-taken zero [] = omega arith
  length-taken zero (y ∷ ys) = omega arith
  length-taken (suc n) [] = omega arith
  length-taken (suc n) (y ∷ ys) = omega (arith, length-taken n ys)

module _ (x : Explorer) (entity_map : Dict (List String)) where
  -- The rounds that an entry with so many hops left causes at most, its own among them
  abbrev pub rounds : ℕ → ℕ
  rounds zero = 1
  rounds (suc n) = 1 + x.max_results_per_hop * rounds n

  abbrev work : List Reached → ℕ
  work [] = 0
  work (r ∷ rs) = rounds (x.max_hops - r.hops) + work rs

  rounds-positive : (n : ℕ) → 1 ≤ rounds n
  rounds-positive zero = omega arith
  rounds-positive (suc n) = omega arith

  work-append : (rs qs : List Reached) → work (rs ++ qs) ≡ work rs + work qs
  work-append [] qs = omega arith
  work-append (r ∷ rs) qs = omega (arith, work-append rs qs)

  work-successors :
      (r : Reached) (ns : List String)
      → work (successors x entity_map r ns) ≤ length ns * rounds (x.max_hops - suc r.hops)
  unfolding successors
  work-successors r [] = omega arith
  work-successors r (n ∷ ns) =
      let rest = work-successors r ns in
      elim (Bool-cases (x.cycle_detection && is_member n r.path)) [
        | inl cycle ↦ rw cycle (omega (arith, rest))
        | inr other ↦ rw other (omega (arith, rest))
      ]

  expand_works :
      (r : Reached) (rest : List Reached) (visited : List String) (paths : List FoundPath)
      → work (expand x entity_map r rest visited paths).pending < work (r ∷ rest)
  unfolding expand
  expand_works r rest visited paths =
      let ns = take x.max_results_per_hop (neighbors_of r.current entity_map) in
      let some_round = rounds-positive (x.max_hops - r.hops) in
      elim (Bool-cases (x.cycle_detection && is_member r.current visited)) [
        | inl seen ↦ rw seen (omega (arith, some_round))
        | inr new ↦
            elim (Bool-cases
              (length (neighbors_of r.current entity_map) == 0 || leb x.max_hops r.hops)) [
                | inl ends ↦ rw (new, ends) (omega (arith, some_round))
                | inr goes_on ↦
                    let far : r.hops < x.max_hops = ground (arith, goes_on) in
                    let left : x.max_hops - r.hops ≡ suc (x.max_hops - suc r.hops) =
                      omega (arith, far) in
                    rw (new, goes_on)
                      (omega (
                        arith,
                        work-append rest (successors x entity_map r ns),
                        work-successors r ns,
                        ap rounds left,
                        mul_mono (length ns) x.max_results_per_hop
                            (rounds (x.max_hops - suc r.hops))
                            (length-taken x.max_results_per_hop
                              (neighbors_of r.current entity_map)),
                      ))
              ]
      ]

  bfs_loop_ends :
      (fuel : ℕ) (s : Search)
      → work s.pending ≤ fuel
      → (t : Search) × (bfs_loop x entity_map fuel s ≡ done t)
  unfolding bfs_loop
  bfs_loop_ends zero s le = elim (List-cases s.pending) [
    | inl empty ↦ (s, simp (empty, bfs_loop) refl)
    | inr (r, rest, e) ↦ ground (arith, ap work e, le, rounds-positive (x.max_hops - r.hops))
  ]
  bfs_loop_ends (suc fuel) s le = elim (List-cases s.pending) [
    | inl empty ↦ (s, simp (empty, bfs_loop) refl)
    | inr (r, rest, e) ↦
        let next = expand x entity_map r rest s.visited s.paths in
        let (t, ends) =
          bfs_loop_ends fuel next
            (omega (arith, expand_works r rest s.visited s.paths, ap work e, le)) in
        (t, simp (e, bfs_loop) ends)
  ]

  explore_all_returns :
      (fuel : ℕ) (es visited : List String) (paths : List FoundPath)
      → rounds x.max_hops ≤ fuel
      → (found : List FoundPath) × (explore_all x entity_map fuel es visited paths ≡ some found)
  unfolding explore_all
  explore_all_returns fuel [] visited paths le = (paths, refl)
  explore_all_returns fuel (e ∷ es) visited paths le =
      let all_left : x.max_hops - 0 ≡ x.max_hops = omega arith in
      let (t, ends) =
        bfs_loop_ends fuel (started x entity_map e visited paths)
          (omega (arith, le, ap rounds all_left)) in
      let (found, rest) = explore_all_returns fuel es t.visited t.paths le in
      (found, simp (explore_all, ends) rest)

  -- With `b` results per hop, the search from any entities returns at most `2 * b` paths, where the loop
  -- has fuel for 1 + b + b * b + … rounds, up to the power that is the number of hops.
  pub explore_returns :
      (fuel : ℕ) (start_entities : List String)
      → rounds x.max_hops ≤ fuel
      → (paths : List FoundPath) × (explore x entity_map fuel start_entities ≡ some paths)
        × (length paths ≤ 2 * x.max_results_per_hop)
  unfolding explore
  explore_returns fuel start_entities le =
      let (found, returns) = explore_all_returns fuel start_entities [] [] le in
      elim (Bool-cases (length start_entities == 0 || length entity_map == 0)) [
        | inl nothing ↦ ([], rw nothing refl, omega arith)
        | inr something ↦ (
          take (x.max_results_per_hop * 2) (sort_paths found),
          rw (something, returns, explore) refl,
          omega (arith, length-taken (x.max_results_per_hop * 2) (sort_paths found)),
        )
      ]
