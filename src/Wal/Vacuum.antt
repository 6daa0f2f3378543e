-- ===== src/Wal/Vacuum.antt =====
-- etl/indexer/wal_manager.py: `vacuumed`.
use rag_system.Base.{
  ℕ, Bool, true, false, String, some, none, [], ◌∷◌, ◌≡◌, refl, str_eq, arith, Option-cases,
  if◌then◌else◌, ◌&&◌, ◌||◌,
}
use rag_system.Base.Dict
use rag_system.Base.Dict.{Dict, get-put, get-remove}
use rag_system.Wal.{
  Wal, Backend, Formats, or_new, read, updated_wal, is_stale, vacuum_checkpoint, vacuum_each,
  vacuumed, value_at,
}
use rag_system.Wal.Checkpoints.{get-write, value_lem}

module _ {J : Type 0} (formats : Formats J) where
  get-vacuum_each :
      (max_age_days now : ℕ) (q : String) (w : Wal J)
      → Dict.get q (vacuum_each formats max_age_days now w) ≡ (elim (Dict.get q w) [
        | none ↦ none
        | some c ↦ some (vacuum_checkpoint formats max_age_days now c)
      ])
  unfolding vacuum_each Dict.get
  get-vacuum_each max_age_days now q [] = refl
  get-vacuum_each max_age_days now q ((p, c) ∷ w) =
      ground (arith, get-vacuum_each max_age_days now q w)

  vacuum_each-Distinct :
      (max_age_days now : ℕ) (w : Wal J)
      → Dict.Distinct w
      → Dict.Distinct (vacuum_each formats max_age_days now w)
  unfolding vacuum_each
  vacuum_each-Distinct max_age_days now [] h = tt
  vacuum_each-Distinct max_age_days now ((p, c) ∷ w) (single, h) = (
    ground (arith, single, get-vacuum_each max_age_days now p w),
    vacuum_each-Distinct max_age_days now w h,
  )

  abbrev pub is_large : String → Bool
  is_large k = str_eq "hash_map" k || str_eq "processed_ids" k

  -- Behind `vacuumed` a key has what it had, but for the map of hashes and the processed ids of a
  -- pipeline whose last update is more than so many days ago, which are gone. So it is for both
  -- backends, where the WAL can be read and has no pipeline twice, and the key is not empty.
  pub get-vacuumed :
      (b : Backend) (max_age_days now : ℕ) (q k : String) (w : Wal J)
      → Dict.Distinct w
      → str_eq k "" ≡ false
      → value_at true q k (vacuumed formats b true max_age_days now w) ≡ (
          if is_stale formats max_age_days now (value_at true q "_updated_at" w) && is_large k
          then none
          else value_at true q k w)
  unfolding vacuumed updated_wal read Dict.get vacuum_checkpoint
  get-vacuumed b max_age_days now q k w h named =
      let new = vacuum_each formats max_age_days now w in
      let c = or_new (Dict.get q w) in
      ground (
        arith,
        value_lem q k w named,
        value_lem q "_updated_at" w refl,
        value_lem q k (vacuumed formats b true max_age_days now w) named,
        get-write b q new w (vacuum_each-Distinct max_age_days now w h),
        get-vacuum_each max_age_days now q w,
        Option-cases (Dict.get q w),
        get-remove "processed_ids" k (Dict.remove "hash_map" c),
        get-remove "hash_map" k c,
      )
