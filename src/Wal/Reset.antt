-- ===== src/Wal/Reset.antt =====
-- etl/indexer/wal_manager.py: resets, and writes behind a read that failed.
use rag_system.Base.{
  ℕ, Bool, true, false, String, Option, some, none, [], ◌∷◌, ◌≡◌, refl, ap, inl, inr, str_eq,
  eq_iff, arith, Bool-cases, Option-cases, if◌then◌else◌, ◌&&◌,
}
use rag_system.Base.Dict
use rag_system.Base.Dict.{Dict, get-put, get-remove}
use rag_system.Wal.{
  Value, text, Checkpoint, Wal, Backend, file, redis, Formats, update, or_new, write, read,
  updated_wal, is_true, kept_run, value_at, checkpoint_set, pipeline_reset, all_reset,
}
use rag_system.Wal.Checkpoints.{get-write, get-update, value_lem}

remove-Distinct {ℓ} :
    {V : Type ℓ} (k : String) (d : Dict V) → Dict.Distinct d → Dict.Distinct (Dict.remove k d)
unfolding Dict.remove
remove-Distinct k [] h = tt
remove-Distinct k ((j, v) ∷ d) (single, h) = elim (Bool-cases (str_eq j k)) [
  | inl same ↦ rw same (remove-Distinct k d h)
  | inr other ↦ rw other (ground (arith, single, get-remove k j d), remove-Distinct k d h)
]

module _ {J : Type 0} where
  -- The value that a reset with `keep_last_run` leaves: a last run that is true
  abbrev pub kept_value : String → Option (Value J) → Option (Value J)
  kept_value k none = none
  kept_value k (some v) = if str_eq "last_run" k && is_true v then some v else none

  get-kept_run :
      (k : String) (c : Checkpoint J)
      → Dict.get k (kept_run c) ≡ kept_value k (Dict.get "last_run" c)
  unfolding kept_run Dict.get
  get-kept_run k c = ground (arith, Option-cases (Dict.get "last_run" c))

  get-pipeline_reset :
      (b : Backend) (p q : String) (keep : Bool) (w : Wal J)
      → Dict.Distinct w
      → Dict.get q (pipeline_reset b true p keep w) ≡ (
          if str_eq p q
          then (if keep
              then some (kept_run (or_new (Dict.get p w)))
              else elim b [ file ↦ none | redis ↦ Dict.get q w ])
          else Dict.get q w)
  unfolding pipeline_reset updated_wal read
  get-pipeline_reset b p q keep w h =
      let kept = kept_run (or_new (Dict.get p w)) in
      ground (
        arith,
        Option-cases (Dict.get q w),
        get-write b q (Dict.put p kept w) w (Dict.put-Distinct p kept w h),
        get-write b q (Dict.remove p w) w (remove-Distinct p w h),
        get-put p q kept w,
        get-remove p q w,
      )

  -- Behind `pipeline_reset` a key has: in another pipeline, what it had; in this one, where
  -- `keep_last_run` is set, the last run under its key, if it is true, and nothing under another key;
  -- where it is not set, nothing in the file, but in Redis all that it had. `all_reset` leaves
  -- nothing in the file, and in Redis everything. The WAL can be read and has no pipeline twice, and
  -- the key is not empty.
  pub pipeline_reset_lem :
      (b : Backend) (p q k : String) (keep : Bool) (w : Wal J)
      → Dict.Distinct w
      → str_eq k "" ≡ false
      → (value_at true q k (pipeline_reset b true p keep w) ≡ (
          if str_eq p q
          then (if keep
              then kept_value k (value_at true q "last_run" w)
              else elim b [ file ↦ none | redis ↦ value_at true q k w ])
          else value_at true q k w))
        × (value_at true q k (all_reset b true w)
            ≡ (elim b [ file ↦ none | redis ↦ value_at true q k w ]))
  unfolding all_reset updated_wal read write update Dict.get
  pipeline_reset_lem b p q k keep w h named =
      let w' = pipeline_reset b true p keep w in
      (
        ground (
          arith,
          value_lem q k w named,
          value_lem q "last_run" w refl,
          value_lem q k w' named,
          get-pipeline_reset b p q keep w h,
          get-kept_run k (or_new (Dict.get p w)),
          eq_iff p q,
          ap (λ i. Dict.get i w),
        ),
        ground (arith, value_lem q k (all_reset b true w) named),
      )

  -- Behind a read that failed, `checkpoint_set` writes as over an empty WAL: a key of the pipeline
  -- that the update does not have is lost in both backends, and a key of another pipeline is lost in
  -- the file. The update has no key twice, and the key is neither empty nor `_updated_at`.
  pub checkpoint_set_unread :
      (formats : Formats J) (b : Backend) (p q k : String) (updates : Checkpoint J) (now : ℕ)
      (w : Wal J)
      → Dict.Distinct updates
      → str_eq k "" ≡ false
      → str_eq "_updated_at" k ≡ false
      → value_at true q k (checkpoint_set formats b false p updates now w) ≡ (
          if str_eq p q
          then Dict.get k updates
          else elim b [ file ↦ none | redis ↦ value_at true q k w ])
  unfolding checkpoint_set updated_wal read Dict.get Dict.put
  checkpoint_set_unread formats b p q k updates now w single named timeless =
      let time : Value J = text (formats.isoformat now) in
      let timed = Dict.put "_updated_at" time updates in
      let new : Wal J = (p, update timed []) ∷ [] in
      ground (
        arith,
        timeless,
        value_lem q k w named,
        value_lem q k (checkpoint_set formats b false p updates now w) named,
        get-write b q new w (refl, tt),
        get-update k timed [] (Dict.put-Distinct "_updated_at" time updates single),
        get-put "_updated_at" k time updates,
        Option-cases (Dict.get k updates),
      )
