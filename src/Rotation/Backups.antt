-- ===== src/Rotation/Backups.antt =====
-- proxy/app/core/hitl.py: what a rotation keeps.
use rag_system.Base.{
  ℕ, ◌∙◌, ap, ==→eq, zero, suc, ◌+◌, ◌-◌, ◌≤◌, ◌==◌, leb, true, ◌&&◌, Option, none, some, List, [],
  ◌∷◌, ◌≡◌, ◌⊎◌, inl, inr, refl, arith, if◌then◌else◌,
}
use rag_system.Rotation.{Files, shift, shift_from, rotate_if_needed, log_interaction}

module _ {R : Type 0} where
  eq_files : (i j : ℕ) (files : Files R) → i == j ≡ true → files i ≡ files j
  eq_files i j files h = ap files (==→eq i j h)

  shift_lem :
      (n i j : ℕ) (files : Files R)
      → (i ≡ n) ⊎ (files (i + 1) ≡ none)
      → shift n i files j ≡ (if j == i then none else if j == (i + 1) then files i else files j)
  unfolding shift
  shift_lem n i j files (inl top) =
      ground (arith, top, eq_files j i files, eq_files j (i + 1) files)
  shift_lem n i j files (inr free) =
      ground (arith, free, eq_files j i files, eq_files j (i + 1) files)

  -- The files behind the loop from `i` on
  abbrev shifted : ℕ → Files R → ℕ → Option (List R)
  shifted i files j =
      if leb 2 j && leb j (i + 1)
      then files (j - 1)
      else if j == 1 && leb 1 i
      then none
      else files j

  one_more :
      (i j : ℕ) (files files' : Files R)
      → files' j ≡ (if j == suc i then none else if j == suc i + 1 then files (suc i) else files j)
      → files' (j - 1) ≡ (
          if j - 1 == suc i
          then none
          else if j - 1 == suc i + 1
          then files (suc i)
          else files (j - 1))
      → (j - 1 == suc i ≡ true → files (j - 1) ≡ files (suc i))
      → shifted i files' j ≡ shifted (suc i) files j
  one_more i j files files' here before same = ground (arith, here, before, same)

  shift_from_lem :
      (n i j : ℕ) (files : Files R)
      → (i ≡ n) ⊎ (files (i + 1) ≡ none)
      → shift_from n i files j ≡ shifted i files j
  unfolding shift_from
  shift_from_lem n zero j files h = ground arith
  shift_from_lem n (suc i) j files h =
      let files' = shift n (suc i) files in
      let empty : files' (i + 1) ≡ none = ground (arith, shift_lem n (suc i) (i + 1) files h) in
      shift_from_lem n i j files' (inr empty)
      ∙ one_more i j files files' (shift_lem n (suc i) j files h)
          (shift_lem n (suc i) (j - 1) files h) (eq_files (j - 1) (suc i) files)

  -- A file that is logged to when it is there and has at least the maximal size becomes the first
  -- backup, every backup up to the given number goes one place on, also the last of them, and later
  -- ones stay: one backup more is kept than the number says. The active file has the new record only.
  pub log_interaction_rotates :
      (size : List R → ℕ) (max_size n : ℕ) (r : R) (files : Files R) (active : List R) (j : ℕ)
      → files 0 ≡ some active
      → max_size ≤ size active
      → log_interaction size max_size n r files j
        ≡ (if j == 0 then some (r ∷ []) else if leb j (n + 1) then files (j - 1) else files j)
  unfolding log_interaction rotate_if_needed
  log_interaction_rotates size max_size n r files active j there large = ground (
    arith,
    there,
    large,
    shift_from_lem n n j files (inl refl),
    shift_from_lem n n 0 files (inl refl),
    eq_files (j - 1) 0 files,
  )
