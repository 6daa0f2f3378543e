-- ===== src/Wal.antt =====
-- etl/indexer/wal_manager.py: WALManager over its file and its Redis backend. The file is replaced
-- by what is written; in Redis each pipeline has a key of its own. What was written is read back as
-- it was, in any order. `readable` tells whether reading succeeds: both backends give an empty
-- dictionary where it does not. `writable` tells whether the lock is taken and the write succeeds: where
-- not, the call raises, and what is stored then is not modelled. Each method that writes has a part that
-- gives what a write that succeeds stores, named for what was done: `checkpoint_set` of
-- `set_checkpoint`.
use rag_system.Base.{
  ℕ, zero, suc, ◌-◌, ◌/◌, Bool, true, false, String, Option, some, none, List, [], ◌∷◌, ◌≡◌, ◌⊎◌,
  inl, inr, str_eq, ltb, leb, not, if◌then◌else◌,
}
use rag_system.Base.Dict
use rag_system.Base.Dict.{Dict}
pub mod Checkpoints
pub mod Reset
pub mod Hashes
pub mod Vacuum
mod Tests

-- A value of a checkpoint: a text, a number, a map of hashes, or a value of another kind, which is
-- true and neither
pub data Value (J : Type 0) : Type 0 where
  text : String → Value J
  number : ℕ → Value J
  hashes : Dict String → Value J
  null : Value J
  other : J → Value J

abbrev pub Checkpoint : Type 0 → Type 0
Checkpoint J = Dict (Value J)

abbrev pub Wal : Type 0 → Type 0
Wal J = Dict (Checkpoint J)

pub data Backend : Type 0 where
  file redis : Backend

-- The library's conversions: of times from and to texts, where no text may be a time, and Python's
-- `str` and `int` for what is neither a text nor a number, where `int` may raise.
pub record Formats (J : Type 0) : Type 0 where
  pub isoformat : ℕ → String
  pub fromisoformat : String → Option ℕ
  pub str : Value J → String
  pub int : Value J → Option ℕ

-- `d.update(updates)`
unfoldable pub update {ℓ} : {V : Type ℓ} → Dict V → Dict V → Dict V
update [] d = d
update ((k, v) ∷ updates) d = update updates (Dict.put k v d)

abbrev pub or_new {ℓ} : {V : Type ℓ} → Option (Dict V) → Dict V
or_new none = []
or_new (some d) = d

module _ {J : Type 0} where
  unfoldable pub write : Backend → Wal J → Wal J → Wal J
  unfolding update
  write file new stored = new
  write redis new stored = update new stored

  unfoldable pub read : Bool → Wal J → Wal J
  read readable stored = if readable then stored else []

  -- A write of that: `none` where the call raises
  unfoldable pub attempted : Bool → Wal J → Option (Wal J)
  attempted writable stored = if writable then some stored else none

  unfoldable pub updated_wal : Backend → Bool → (Wal J → Wal J) → Wal J → Wal J
  unfolding read write
  updated_wal b readable f stored = write b (f (read readable stored)) stored

  -- The value under a key, or the whole checkpoint where there is no key or an empty one
  unfoldable pub get_checkpoint :
      Bool → String → Option String → Wal J → Option (Value J) ⊎ Checkpoint J
  unfolding read
  get_checkpoint readable pipeline none w = inr (or_new (Dict.get pipeline (read readable w)))
  get_checkpoint readable pipeline (some key) w =
      let found = or_new (Dict.get pipeline (read readable w)) in
      if str_eq key "" then inr found else inl (Dict.get key found)

  abbrev pub value_at : Bool → String → String → Wal J → Option (Value J)
  value_at readable pipeline key w = elim (get_checkpoint readable pipeline (some key) w) [
    | inl v ↦ v
    | inr found ↦ none
  ]

  -- What `hash_map` is taken from: a value that is false gives an empty map, and one that is no
  -- map raises.
  unfoldable pub hash_map_of : Option (Value J) → Option (Dict String)
  hash_map_of none = some []
  hash_map_of (some null) = some []
  hash_map_of (some (text t)) = if str_eq t "" then some [] else none
  hash_map_of (some (number zero)) = some []
  hash_map_of (some (number (suc n))) = none
  hash_map_of (some (hashes d)) = some d
  hash_map_of (some (other j)) = none

  -- The two halves of `update_hash_state`, which takes no lock around them
  unfoldable pub read_hash_map : Bool → String → Wal J → Option (Dict String)
  unfolding get_checkpoint hash_map_of
  read_hash_map readable pipeline w = hash_map_of (value_at readable pipeline "hash_map" w)

  -- `none` where the call raises
  unfoldable pub get_hash_state : Bool → String → String → Wal J → Option (Option String)
  unfolding read_hash_map
  get_hash_state readable pipeline doc_id w = elim (read_hash_map readable pipeline w) [
    | none ↦ none
    | some hash_map ↦ some (Dict.get doc_id hash_map)
  ]

  unfoldable pub is_true : Value J → Bool
  is_true null = false
  is_true (text t) = not (str_eq t "")
  is_true (number n) = not (leb n 0)
  is_true (hashes []) = false
  is_true (hashes (h ∷ d)) = true
  is_true (other j) = true

  -- `{"last_run": last_run} if last_run else {}`
  unfoldable pub kept_run : Checkpoint J → Checkpoint J
  unfolding is_true
  kept_run checkpoint = elim (Dict.get "last_run" checkpoint) [
    | none ↦ []
    | some v ↦ if is_true v then ("last_run", v) ∷ [] else []
  ]

  module _ (b : Backend) (readable : Bool) where
    unfoldable pub pipeline_reset : String → Bool → Wal J → Wal J
    unfolding updated_wal kept_run
    pipeline_reset pipeline keep_last_run = updated_wal b readable (λ w.
        if keep_last_run
        then Dict.put pipeline (kept_run (or_new (Dict.get pipeline w))) w
        else Dict.remove pipeline w)

    unfoldable pub all_reset : Wal J → Wal J
    unfolding updated_wal
    all_reset = updated_wal b readable (λ w. [])

  module _ (formats : Formats J) where
    unfoldable pub as_text : Option (Value J) → Option String
    as_text none = none
    as_text (some null) = none
    as_text (some (text t)) = some t
    as_text (some (number n)) = some (formats.str (number n))
    as_text (some (hashes d)) = some (formats.str (hashes d))
    as_text (some (other j)) = some (formats.str (other j))

    -- `int(result) if result else 0`
    unfoldable pub as_offset : Option (Value J) → Option ℕ
    as_offset none = some 0
    as_offset (some null) = some 0
    as_offset (some (text t)) = if str_eq t "" then some 0 else formats.int (text t)
    as_offset (some (number n)) = some n
    as_offset (some (hashes [])) = some 0
    as_offset (some (hashes (h ∷ d))) = formats.int (hashes (h ∷ d))
    as_offset (some (other j)) = formats.int (other j)

    unfoldable pub get_last_run : Bool → String → Wal J → Option String
    unfolding get_checkpoint as_text
    get_last_run readable pipeline w = as_text (value_at readable pipeline "last_run" w)

    unfoldable pub get_offset : Bool → String → Wal J → Option ℕ
    unfolding get_checkpoint as_offset
    get_offset readable pipeline w = as_offset (value_at readable pipeline "offset" w)

    unfoldable pub get_last_id : Bool → String → Wal J → Option String
    unfolding get_checkpoint as_text
    get_last_id readable pipeline w = as_text (value_at readable pipeline "last_id" w)

    -- Times in seconds. A time that is not text raises, and the error is swallowed.
    unfoldable pub is_stale : ℕ → ℕ → Option (Value J) → Bool
    is_stale max_age_days now none = false
    is_stale max_age_days now (some null) = false
    is_stale max_age_days now (some (number n)) = false
    is_stale max_age_days now (some (hashes d)) = false
    is_stale max_age_days now (some (other j)) = false
    is_stale max_age_days now (some (text t)) =
        if str_eq t "" then false else elim (formats.fromisoformat t) [
          | none ↦ false
          | some updated ↦ ltb max_age_days ((now - updated) / 86400)
        ]

    unfoldable pub vacuum_checkpoint : ℕ → ℕ → Checkpoint J → Checkpoint J
    unfolding is_stale
    vacuum_checkpoint max_age_days now cp =
        if is_stale max_age_days now (Dict.get "_updated_at" cp)
        then Dict.remove "processed_ids" (Dict.remove "hash_map" cp)
        else cp

    unfoldable pub vacuum_each : ℕ → ℕ → Wal J → Wal J
    unfolding vacuum_checkpoint
    vacuum_each max_age_days now [] = []
    vacuum_each max_age_days now ((pipeline, cp) ∷ w) =
        (pipeline, vacuum_checkpoint max_age_days now cp) ∷ vacuum_each max_age_days now w

  module _ (formats : Formats J) (b : Backend) (readable : Bool) where
    unfoldable pub checkpoint_set : String → Checkpoint J → ℕ → Wal J → Wal J
    unfolding updated_wal update
    checkpoint_set pipeline updates now =
        let updates_with_time = Dict.put "_updated_at" (text (formats.isoformat now)) updates in
        updated_wal b readable
          (λ w. Dict.put pipeline (update updates_with_time (or_new (Dict.get pipeline w))) w)

    unfoldable pub last_run_updated : String → String → ℕ → Wal J → Wal J
    unfolding checkpoint_set
    last_run_updated pipeline last_run = checkpoint_set pipeline (("last_run", text last_run) ∷ [])

    unfoldable pub offset_updated : String → ℕ → ℕ → Wal J → Wal J
    unfolding checkpoint_set
    offset_updated pipeline offset = checkpoint_set pipeline (("offset", number offset) ∷ [])

    unfoldable pub last_id_updated : String → String → ℕ → Wal J → Wal J
    unfolding checkpoint_set
    last_id_updated pipeline last_id = checkpoint_set pipeline (("last_id", text last_id) ∷ [])

    unfoldable pub hash_map_written : String → Dict String → String → String → ℕ → Wal J → Wal J
    unfolding checkpoint_set
    hash_map_written pipeline hash_map doc_id chunk_hash =
        checkpoint_set pipeline (("hash_map", hashes (Dict.put doc_id chunk_hash hash_map)) ∷ [])

    unfoldable pub vacuumed : ℕ → ℕ → Wal J → Wal J
    unfolding updated_wal vacuum_each
    vacuumed max_age_days now = updated_wal b readable (vacuum_each formats max_age_days now)

    module _ (writable : Bool) where
      unfoldable pub update_wal : (Wal J → Wal J) → Wal J → Option (Wal J)
      update_wal f w = attempted writable (updated_wal b readable f w)

      unfoldable pub set_checkpoint : String → Checkpoint J → ℕ → Wal J → Option (Wal J)
      set_checkpoint pipeline updates now w =
          attempted writable (checkpoint_set pipeline updates now w)

      unfoldable pub update_last_run : String → String → ℕ → Wal J → Option (Wal J)
      update_last_run pipeline last_run now w =
          attempted writable (last_run_updated pipeline last_run now w)

      unfoldable pub update_offset : String → ℕ → ℕ → Wal J → Option (Wal J)
      update_offset pipeline offset now w =
          attempted writable (offset_updated pipeline offset now w)

      unfoldable pub update_last_id : String → String → ℕ → Wal J → Option (Wal J)
      update_last_id pipeline last_id now w =
          attempted writable (last_id_updated pipeline last_id now w)

      unfoldable pub update_hash_state : String → String → String → ℕ → Wal J → Option (Wal J)
      unfolding read_hash_map hash_map_written
      update_hash_state pipeline doc_id chunk_hash now w =
          elim (read_hash_map readable pipeline w) [
            | none ↦ none
            | some hash_map ↦
                attempted writable (hash_map_written pipeline hash_map doc_id chunk_hash now w)
          ]

      unfoldable pub reset_pipeline : String → Bool → Wal J → Option (Wal J)
      reset_pipeline pipeline keep_last_run w =
          attempted writable (pipeline_reset b readable pipeline keep_last_run w)

      unfoldable pub reset_all : Wal J → Option (Wal J)
      reset_all w = attempted writable (all_reset b readable w)

      unfoldable pub vacuum : ℕ → ℕ → Wal J → Option (Wal J)
      vacuum max_age_days now w = attempted writable (vacuumed max_age_days now w)
