-- ===== src/Rotation/Tests.antt =====
-- A run of the rotation, and its theorem at a concrete input.
use rag_system.Base.{ℕ, leb, none, some, [], ◌∷◌, ◌≡◌, refl, length, if◌then◌else◌}
use rag_system.Rotation.{Files, log_interaction}

abbrev files : Files ℕ
files i = if leb i 2 then some (i ∷ []) else none

kept_behind_two : log_interaction length 1 2 9 files 3 ≡ some (2 ∷ [])
unfolding log_interaction
kept_behind_two = refl
