-- ===== src/Wal/Checkpoints.antt =====
-- etl/indexer/wal_manager.py: what is read behind a write.
use rag_system.Base.{
  ℕ, true, false, String, some, none, [], ◌∷◌, ◌≡◌, refl, ap, inl, inr, str_eq, eq_iff, arith,
  Bool-cases, Option-cases, if◌then◌else◌,
}
use rag_system.Base.Dict
use rag_system.Base.Dict.{Dict, get-put}
use rag_system.Wal.{
  Value, text, number, Checkpoint, Wal, Backend, file, redis, Formats, update, or_new, write, read,
  updated_wal, get_checkpoint, value_at, checkpoint_set, last_run_updated, offset_updated,
  last_id_updated, get_last_run, get_offset, get_last_id,
}

pub get-update {ℓ} :
    {V : Type ℓ} (k : String) (u d : Dict V)
    → Dict.Distinct u
    → Dict.get k (update u d) ≡ (elim (Dict.get k u) [ some v ↦ some v | none ↦ Dict.get k d ])
unfolding update Dict.get
get-update k [] d h = refl
get-update k ((j, v) ∷ u) d (single, h) =
    let later = get-update k u (Dict.put j v d) h in
    elim (Bool-cases (str_eq j k)) [
      | inl same ↦
          let here = ap (λ i. Dict.get i u) ((eq_iff j k).0 same) in
          ground (arith, same, single, here, later, get-put j k v d)
      | inr other ↦ ground (arith, other, later, get-put j k v d)
    ]

update-Distinct {ℓ} : {V : Type ℓ} (u d : Dict V) → Dict.Distinct d → Dict.Distinct (update u d)
unfolding update
update-Distinct [] d h = h
update-Distinct ((k, v) ∷ u) d h = update-Distinct u (Dict.put k v d) (Dict.put-Distinct k v d h)

module _ {J : Type 0} where
  -- What the backends make of a new state: in Redis a pipeline that is not in it stays.
  pub get-write :
      (b : Backend) (q : String) (new stored : Wal J)
      → Dict.Distinct new
      → Dict.get q (write b new stored) ≡ (elim (Dict.get q new) [
        | some c ↦ some c
        | none ↦ elim b [ file ↦ none | redis ↦ Dict.get q stored ]
      ])
  unfolding write
  get-write file q new stored h = ground (arith, Option-cases (Dict.get q new))
  get-write redis q new stored h = get-update q new stored h

  get-set :
      (formats : Formats J) (b : Backend) (p q : String) (updates : Checkpoint J) (now : ℕ)
      (w : Wal J)
      → Dict.Distinct w
      → let new =
          update
            (Dict.put "_updated_at" (text (formats.isoformat now)) updates)
            (or_new (Dict.get p w)) in
        Dict.get q (checkpoint_set formats b true p updates now w)
        ≡ (if str_eq p q then some new else Dict.get q w)
  unfolding checkpoint_set updated_wal read
  get-set formats b p q updates now w h =
      let new =
        update (Dict.put "_updated_at" (text (formats.isoformat now)) updates)
          (or_new (Dict.get p w)) in
      ground (
        arith,
        get-write b q (Dict.put p new w) w (Dict.put-Distinct p new w h),
        get-put p q new w,
        Option-cases (Dict.get q w),
      )

  pub checkpoint_set-Distinct :
      (formats : Formats J) (b : Backend) (p : String) (updates : Checkpoint J) (now : ℕ)
      (w : Wal J)
      → Dict.Distinct w
      → Dict.Distinct (checkpoint_set formats b true p updates now w)
  unfolding checkpoint_set updated_wal read write
  checkpoint_set-Distinct formats file p updates now w h = Dict.put-Distinct p _ w h
  checkpoint_set-Distinct formats redis p updates now w h =
      let new =
        update (Dict.put "_updated_at" (text (formats.isoformat now)) updates)
          (or_new (Dict.get p w)) in
      update-Distinct (Dict.put p new w) w h

  -- What is under a key, where the key is not empty
  pub value_lem :
      (q k : String) (w : Wal J)
      → str_eq k "" ≡ false
      → value_at true q k w ≡ Dict.get k (or_new (Dict.get q w))
  unfolding get_checkpoint read
  value_lem q k w named = ground (arith, named)

  -- Reading a key behind `checkpoint_set` gives, in the pipeline that was written, the time under
  -- `_updated_at` and the update under a key that it has; it gives what was there under every other
  -- key and in every other pipeline. So it is for both backends, where the WAL can be read; no
  -- dictionary has a key twice, and the key that is read is not empty.
  pub get-checkpoint_set :
      (formats : Formats J) (b : Backend) (p q k : String) (updates : Checkpoint J) (now : ℕ)
      (w : Wal J)
      → Dict.Distinct updates
      → Dict.Distinct w
      → str_eq k "" ≡ false
      → value_at true q k (checkpoint_set formats b true p updates now w) ≡ (
          if str_eq p q
          then (if str_eq "_updated_at" k
              then some (text (formats.isoformat now))
              else elim (Dict.get k updates) [ some v ↦ some v | none ↦ value_at true q k w ])
          else value_at true q k w)
  get-checkpoint_set formats b p q k updates now w single distinct named =
      let time : Value J = text (formats.isoformat now) in
      let timed = Dict.put "_updated_at" time updates in
      let w' = checkpoint_set formats b true p updates now w in
      ground (
        arith,
        value_lem q k w named,
        value_lem q k w' named,
        get-set formats b p q updates now w distinct,
        eq_iff p q,
        ap (λ i. Dict.get i w),
        get-update k timed (or_new (Dict.get p w))
            (Dict.put-Distinct "_updated_at" time updates single),
        get-put "_updated_at" k time updates,
      )

  -- The last run, the offset and the last id of a pipeline are read back as they were written, each
  -- without a change of the other two or of another pipeline, where the WAL can be read and no
  -- dictionary has a key twice.
  pub progress_roundtrip :
      (formats : Formats J) (b : Backend) (p q : String) (run id : String) (offset now : ℕ)
      (w : Wal J)
      → Dict.Distinct w
      → let at_run = last_run_updated formats b true p run now w in
        let at_offset = offset_updated formats b true p offset now w in
        let at_id = last_id_updated formats b true p id now w in
        ((get_last_run formats true q at_run
            ≡ (if str_eq p q then some run else get_last_run formats true q w))
          × (get_offset formats true q at_run ≡ get_offset formats true q w)
          × (get_last_id formats true q at_run ≡ get_last_id formats true q w))
        × ((get_offset formats true q at_offset
              ≡ (if str_eq p q then some offset else get_offset formats true q w))
            × (get_last_run formats true q at_offset ≡ get_last_run formats true q w)
            × (get_last_id formats true q at_offset ≡ get_last_id formats true q w))
        × ((get_last_id formats true q at_id
              ≡ (if str_eq p q then some id else get_last_id formats true q w))
            × (get_last_run formats true q at_id ≡ get_last_run formats true q w)
            × (get_offset formats true q at_id ≡ get_offset formats true q w))
  unfolding last_run_updated offset_updated last_id_updated get_last_run get_offset get_last_id
      Dict.get
  progress_roundtrip formats b p q run id offset now w h =
      let one = λ (k : String) (v : Value J) (j : String) (named : str_eq j "" ≡ false).
        get-checkpoint_set formats b p q j ((k, v) ∷ []) now w (refl, tt) h named in
      let r = one "last_run" (text run) in
      let o = one "offset" (number offset) in
      let i = one "last_id" (text id) in
      (
        (
          ground (arith, r "last_run" refl),
          ground (arith, r "offset" refl),
          ground (arith, r "last_id" refl),
        ),
        (
          ground (arith, o "offset" refl),
          ground (arith, o "last_run" refl),
          ground (arith, o "last_id" refl),
        ),
        (
          ground (arith, i "last_id" refl),
          ground (arith, i "last_run" refl),
          ground (arith, i "offset" refl),
        ),
      )
