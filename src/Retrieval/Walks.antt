-- ===== src/Retrieval/Walks.antt =====
-- proxy/app/core/retrieval.py: what the search for paths finds are paths of the graph.
use mathlib.Core.Path.{subst}
use rag_system.Base.{
  List-cases, ℕ, zero, suc, ◌*◌, ◌≤◌, ◌<◌, leb, ◌==◌, true, false, ◌&&◌, ◌||◌, ◌⊎◌, some, List, [],
  ◌∷◌, ◌++◌, String, eq_iff, length, take, All, ◌≡◌, refl, arith, Bool-cases, Option-cases, inl,
  inr,
}
use rag_system.Base.Dict.{Dict}
use rag_system.Retrieval.Explorer.{
  Explorer, FoundPath, Reached, Search, Outcome, done, out_of_fuel, is_member, neighbors_of,
  scored_path, successors, expand, bfs_loop, started, explore_all, comes_before, insert_path,
  sort_paths, explore,
}

module _ {A : Type 0} (P : A → Type 0) where
  All-append : (xs ys : List A) → All P xs → All P ys → All P (xs ++ ys)
  All-append [] ys h k = k
  All-append (x ∷ xs) ys (here, h) k = (here, All-append xs ys h k)

  All-take : (n : ℕ) (xs : List A) → All P xs → All P (take n xs)
  All-take zero [] h = tt
  All-take zero (x ∷ xs) h = tt
  All-take (suc n) [] h = tt
  All-take (suc n) (x ∷ xs) (here, h) = (here, All-take n xs h)

module _ (P : FoundPath → Type 0) where
  All-insert_path :
      (p : FoundPath) (ps : List FoundPath) → P p → All P ps → All P (insert_path p ps)
  unfolding insert_path
  All-insert_path p [] h hs = (h, tt)
  All-insert_path p (q ∷ qs) h (here, hs) = elim (Bool-cases (comes_before p q)) [
    | inl first ↦ rw first (h, (here, hs))
    | inr later ↦ rw later (here, All-insert_path p qs h hs)
  ]

  All-sort_paths : (ps : List FoundPath) → All P ps → All P (sort_paths ps)
  unfolding sort_paths
  All-sort_paths [] h = tt
  All-sort_paths (p ∷ ps) (here, h) = All-insert_path p (sort_paths ps) here (All-sort_paths ps h)

-- Each element of a part of a list is in the list.
members :
    (part whole : List String)
    → ((i : String) → is_member i part ≡ true → is_member i whole ≡ true)
    → All (λ i. is_member i whole ≡ true) part
unfolding is_member
members [] whole h = tt
members (e ∷ part) whole h =
    (h e (ground (arith, eq_iff e e)), members part whole (λ i there. h i (ground (arith, there))))

Outcome-cases : (o : Outcome) → (o ≡ out_of_fuel) ⊎ ((t : Search) × (o ≡ done t))
Outcome-cases out_of_fuel = inl refl
Outcome-cases (done t) = inr (t, refl)

module _ (x : Explorer) (entity_map : Dict (List String)) where
  -- A walk from the first entity along a path to the second, with its number of hops. With the
  -- detection of cycles, no entity is entered that is on the path already.
  pub data Walk : String → List String → String → ℕ → Type 0 where
    here : (s : String) → Walk s (s ∷ []) s 0
    step :
        (s c d : String) (p q : List String) (n : ℕ)
        → Walk s p c n
        → is_member d (neighbors_of c entity_map) ≡ true
        → (x.cycle_detection ≡ true → is_member d p ≡ false)
        → q ≡ p ++ (d ∷ [])
        → Walk s q d (suc n)

  -- A walk from one of the entities, of at most so many hops as are allowed
  abbrev pub IsWalk : List String → List String → String → ℕ → Type 0
  IsWalk starts path last hops =
      (s : String) × (is_member s starts ≡ true) × Walk s path last hops × (hops ≤ x.max_hops)

  -- A found path is a walk that ends where nothing follows or no more hop is allowed, and has the
  -- score of its entities.
  abbrev pub IsFound : List String → FoundPath → Type 0
  IsFound starts p =
      (last : String) × IsWalk starts p.path last p.hops
      × ((neighbors_of last entity_map ≡ []) ⊎ (p.hops ≡ x.max_hops))
      × (p ≡ scored_path entity_map p.path p.hops)

  abbrev IsPending : List String → Reached → Type 0
  IsPending starts r = IsWalk starts r.path r.current r.hops

  abbrev IsSound : List String → Search → Type 0
  IsSound starts s = All (IsPending starts) s.pending × All (IsFound starts) s.paths

  no_more :
      (ns : List String) (hops : ℕ)
      → length ns == 0 || leb x.max_hops hops ≡ true
      → hops ≤ x.max_hops
      → (ns ≡ []) ⊎ (hops ≡ x.max_hops)
  no_more [] hops h le = inl refl
  no_more (n ∷ ns) hops h le = inr (ground (arith, h, le))

  All-successors :
      (starts : List String) (r : Reached) (ns : List String)
      → IsPending starts r
      → r.hops < x.max_hops
      → All (λ d. is_member d (neighbors_of r.current entity_map) ≡ true) ns
      → All (IsPending starts) (successors x entity_map r ns)
  unfolding successors
  All-successors starts r [] h far ms = tt
  All-successors starts r (n ∷ ns) (s, from, walk, le) far (edge, ms) =
      let rest = All-successors starts r ns (s, from, walk, le) far ms in
      elim (Bool-cases (x.cycle_detection && is_member n r.path)) [
        | inl cycle ↦ rw cycle rest
        | inr other ↦ rw other (
          (
            s,
            from,
            step s r.current n r.path (r.path ++ (n ∷ [])) r.hops walk edge
                (λ detected. ground (arith, other, detected)) refl,
            omega (arith, far),
          ),
          rest,
        )
      ]

  expand-IsSound :
      (starts : List String) (r : Reached) (rest : List Reached) (visited : List String)
      (paths : List FoundPath)
      → IsPending starts r
      → All (IsPending starts) rest
      → All (IsFound starts) paths
      → IsSound starts (expand x entity_map r rest visited paths)
  unfolding expand scored_path
  expand-IsSound starts r rest visited paths (s, from, walk, le) hs fs =
      let ns = neighbors_of r.current entity_map in
      elim (Bool-cases (x.cycle_detection && is_member r.current visited)) [
        | inl seen ↦ rw seen (hs, fs)
        | inr new ↦ elim (Bool-cases (length ns == 0 || leb x.max_hops r.hops)) [
          | inl ends ↦
              rw (new, ends)
                (
                  hs,
                  All-append (IsFound starts) paths (scored_path entity_map r.path r.hops ∷ []) fs
                      ((r.current, (s, from, walk, le), no_more ns r.hops ends le, refl), tt),
                )
          | inr goes_on ↦
              rw (new, goes_on)
                (
                  All-append (IsPending starts) rest
                      (successors x entity_map r (take x.max_results_per_hop ns)) hs
                      (All-successors starts r (take x.max_results_per_hop ns) (s, from, walk, le)
                        (ground (arith, goes_on))
                        (All-take (λ d. is_member d ns ≡ true) x.max_results_per_hop ns
                          (members ns ns (λ i there. there)))),
                  fs,
                )
        ]
      ]

  bfs_loop-IsSound :
      (starts : List String) (fuel : ℕ) (s t : Search)
      → IsSound starts s
      → bfs_loop x entity_map fuel s ≡ done t
      → All (IsFound starts) t.paths
  unfolding bfs_loop
  bfs_loop-IsSound starts zero s t h e = elim (List-cases s.pending) [
    | inl empty ↦
        let same : s ≡ t = ground (arith, e, empty) in
        subst (λ z. All (IsFound starts) z.paths) same h.1
    | inr (r, rest, there) ↦ ground (arith, e, there)
  ]
  bfs_loop-IsSound starts (suc fuel) s t h e = elim (List-cases s.pending) [
    | inl empty ↦
        let same : s ≡ t = ground (arith, e, empty) in
        subst (λ z. All (IsFound starts) z.paths) same h.1
    | inr (r, rest, there) ↦
        let (first, others) = subst (All (IsPending starts)) there h.0 in
        bfs_loop-IsSound starts fuel (expand x entity_map r rest s.visited s.paths) t
          (expand-IsSound starts r rest s.visited s.paths first others h.1)
          (rw (there, bfs_loop) at e)
  ]

  explore_all-IsFound :
      (starts : List String) (fuel : ℕ) (es visited : List String) (paths found : List FoundPath)
      → All (λ e. is_member e starts ≡ true) es
      → All (IsFound starts) paths
      → explore_all x entity_map fuel es visited paths ≡ some found
      → All (IsFound starts) found
  unfolding explore_all
  explore_all-IsFound starts fuel [] visited paths found from fs h =
      let same : paths ≡ found = ground (arith, h) in subst (All (IsFound starts)) same fs
  explore_all-IsFound starts fuel (e ∷ es) visited paths found (first, from) fs h =
      elim (Outcome-cases (bfs_loop x entity_map fuel (started x entity_map e visited paths))) [
        | inl out ↦ ground (arith, h, out)
        | inr (t, ends) ↦
            explore_all-IsFound starts fuel es t.visited t.paths found from
              (bfs_loop-IsSound starts fuel (started x entity_map e visited paths) t
                (((e, first, here e, omega arith), tt), fs) ends)
              (rw (ends, explore_all) at h)
      ]

  -- Every path that the search returns is a walk from one of its entities: each entity is a neighbour
  -- of the one before it, and with the detection of cycles none is there twice. It has at most as many
  -- hops as are allowed, ends at an entity without neighbours or has that many, and has its score.
  pub explore-IsFound :
      (fuel : ℕ) (start_entities : List String) (found : List FoundPath)
      → explore x entity_map fuel start_entities ≡ some found
      → All (IsFound start_entities) found
  unfolding explore
  explore-IsFound fuel starts found h =
      elim (Bool-cases (length starts == 0 || length entity_map == 0)) [
        | inl nothing ↦
            let same : [] ≡ found = ground (arith, h, nothing) in
            subst (All (IsFound starts)) same tt
        | inr something ↦ elim (Option-cases (explore_all x entity_map fuel starts [] [])) [
          | inl none_left ↦ ground (arith, h, something, none_left)
          | inr (paths, all) ↦
              let kept = x.max_results_per_hop * 2 in
              let same : take kept (sort_paths paths) ≡ found = ground (arith, h, something, all) in
              subst (All (IsFound starts)) same (
                All-take (IsFound starts) kept (sort_paths paths) (
                  All-sort_paths (IsFound starts) paths (
                    explore_all-IsFound starts fuel starts [] [] paths
                      (members starts starts (λ i there. there)) tt all)))
        ]
      ]
