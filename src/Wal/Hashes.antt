-- ===== src/Wal/Hashes.antt =====
-- etl/indexer/wal_manager.py: the map of hashes in a checkpoint.
use rag_system.Base.{
  ◌&&◌, ℕ, true, false, String, some, none, [], ◌∷◌, ◌≡◌, refl, ap, inl, inr, str_eq, eq_iff, arith,
  Option-cases, Bool-cases, Bool, not, if◌then◌else◌,
}
use rag_system.Base.Dict
use rag_system.Base.Dict.{Dict, get-put}
use rag_system.Wal.{
  hashes, Wal, Backend, Formats, hash_map_of, read_hash_map, hash_map_written, update_hash_state,
  attempted, get_hash_state,
}
use rag_system.Wal.Checkpoints.{get-checkpoint_set, checkpoint_set-Distinct}

module _ {J : Type 0} where
  read-hash_map_written :
      (formats : Formats J) (b : Backend) (p q : String) (m : Dict String) (doc_id hash : String)
      (now : ℕ) (w : Wal J)
      → Dict.Distinct w
      → read_hash_map true q (hash_map_written formats b true p m doc_id hash now w)
        ≡ (if str_eq p q then some (Dict.put doc_id hash m) else read_hash_map true q w)
  unfolding read_hash_map hash_map_written hash_map_of Dict.get
  read-hash_map_written formats b p q m doc_id hash now w h = ground (
    arith,
    get-checkpoint_set formats b p q "hash_map" (("hash_map", hashes (Dict.put doc_id hash m)) ∷ [])
        now w (refl, tt) h refl,
  )

  hash_map_written-Distinct :
      (formats : Formats J) (b : Backend) (p : String) (m : Dict String) (doc_id hash : String)
      (now : ℕ) (w : Wal J)
      → Dict.Distinct w
      → Dict.Distinct (hash_map_written formats b true p m doc_id hash now w)
  unfolding hash_map_written
  hash_map_written-Distinct formats b p m doc_id hash now w h =
      checkpoint_set-Distinct formats b p _ now w h

  -- Reading a hash behind `update_hash_state` gives the new hash of that document, and the hash that
  -- every other document of this pipeline or another had. The update raises exactly where reading the
  -- pipeline's hashes raises, which is where the checkpoint has no map under their key, or where the
  -- lock or the write fails. The WAL can be read, and has no pipeline twice.
  pub get-update_hash_state :
      (formats : Formats J) (b : Backend) (writable : Bool) (p q doc_id other hash : String)
      (now : ℕ) (w : Wal J)
      → Dict.Distinct w
      → (elim (update_hash_state formats b true writable p doc_id hash now w) [
        | none ↦ none
        | some w' ↦ get_hash_state true q other w'
      ])
        ≡ (elim (get_hash_state true p doc_id w) [
          | none ↦ none
          | some before ↦
              if not writable
              then none
              else if str_eq p q && str_eq doc_id other
              then some (some hash)
              else get_hash_state true q other w
        ])
  unfolding update_hash_state get_hash_state attempted
  get-update_hash_state formats b writable p q doc_id other hash now w h =
      elim (Option-cases (read_hash_map true p w)) [
        | inl raises ↦ rw raises refl
        | inr (m, p_m) ↦ elim (Bool-cases writable) [
          | inr fails ↦ ground (arith, p_m, fails)
          | inl succeeds ↦ ground (
            arith,
            succeeds,
            p_m,
            read-hash_map_written formats b p q m doc_id hash now w h,
            get-put doc_id other hash m,
            ap (λ i. read_hash_map true i w),
            eq_iff p q,
          )
        ]
      ]

  -- Two updates of one pipeline that both read the map before either writes it: behind the second
  -- write the first document has the hash that it had before both, although each write is locked
  -- and the documents differ.
  pub hash_update_lost :
      (formats : Formats J) (b : Backend) (p doc_id other hash hash' : String) (now later : ℕ)
      (m : Dict String) (w : Wal J)
      → Dict.Distinct w
      → str_eq other doc_id ≡ false
      → read_hash_map true p w ≡ some m
      → let w₁ = hash_map_written formats b true p m doc_id hash now w in
        let w₂ = hash_map_written formats b true p m other hash' later w₁ in
        (get_hash_state true p doc_id w₁ ≡ some (some hash))
        × (get_hash_state true p doc_id w₂ ≡ get_hash_state true p doc_id w)
  unfolding get_hash_state
  hash_update_lost formats b p doc_id other hash hash' now later m w h differ here =
      let w₁ = hash_map_written formats b true p m doc_id hash now w in
      let m₁ = read-hash_map_written formats b p p m doc_id hash now w h in
      let m₂ =
        read-hash_map_written formats b p p m other hash' later w₁
          (hash_map_written-Distinct formats b p m doc_id hash now w h) in
      (
        ground (arith, m₁, eq_iff p p, Dict.get-put_self doc_id hash m),
        ground (arith, m₂, here, eq_iff p p, differ, get-put other doc_id hash' m),
      )
