-- ===== src/Rotation.antt =====
-- proxy/app/core/hitl.py: the rotation of the files of InteractionLogger. The file of a number is the
-- active one for zero, and the backup `.i` for every other `i`. No call of the file system raises.
use rag_system.Base.{
  ℕ, zero, suc, ◌+◌, ◌-◌, ◌==◌, leb, ltb, Bool, true, false, ◌&&◌, Option, none, some, List, [],
  ◌∷◌, ◌++◌, if◌then◌else◌,
}
pub mod Backups
mod Tests

abbrev pub Files : Type 0 → Type 0
Files R = ℕ → Option (List R)

module _ {R : Type 0} where
  abbrev pub exists : ℕ → Files R → Bool
  exists i files = elim (files i) [ none ↦ false | some _ ↦ true ]

  abbrev pub set : ℕ → Option (List R) → Files R → Files R
  set i f files j = if j == i then f else files j

  abbrev pub rename : ℕ → ℕ → Files R → Files R
  rename i k files = set i none (set k (files i) files)

  -- The step of the loop for one backup
  unfoldable pub shift : ℕ → ℕ → Files R → Files R
  shift max_backups i files =
      let files' =
        if i == max_backups && exists (i + 1) files then set (i + 1) none files else files in
      if exists i files' then rename i (i + 1) files' else files'

  -- `for i in range(max_backups, 0, -1)`, from `i` on
  unfoldable pub shift_from : ℕ → ℕ → Files R → Files R
  unfolding shift
  shift_from max_backups zero files = files
  shift_from max_backups (suc i) files = shift_from max_backups i (shift max_backups (suc i) files)

  unfoldable pub rotate_if_needed : (List R → ℕ) → ℕ → ℕ → Files R → Files R
  unfolding shift_from
  rotate_if_needed size max_size max_backups files = elim (files 0) [
    | none ↦ files
    | some active ↦
        if ltb (size active) max_size
        then files
        else rename 0 1 (shift_from max_backups max_backups files)
  ]

  -- The record is appended to the active file, which is made where there is none.
  unfoldable pub log_interaction : (List R → ℕ) → ℕ → ℕ → R → Files R → Files R
  unfolding rotate_if_needed
  log_interaction size max_size max_backups record_of files =
      let files' = rotate_if_needed size max_size max_backups files in
      let lines : List R = elim (files' 0) [ none ↦ [] | some ls ↦ ls ] in
      set 0 (some (lines ++ (record_of ∷ []))) files'
