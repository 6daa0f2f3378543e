-- ===== src/Versions/Changes.antt =====
-- etl/chunker/hash_versioning.py: the chunks that an update adds and deletes, as changes of a
-- dictionary by hash.
use rag_system.Base.{
  Bool, false, String, Option, some, none, List, [], ◌∷◌, ◌≡◌, refl, str_eq, eq_iff, arith,
  if◌then◌else◌, any, Bool-cases, inl, inr, ap,
}
use rag_system.Base.Dict
use rag_system.Base.Dict.{Dict, get-put, get-remove}
use rag_system.Versions.{Chunk, by_hash, is_changed, added_of, deleted_of}

abbrev pub mem : String → List String → Bool
mem h hs = any (λ k. str_eq k h) hs

module _ {P : Type 0} where
  abbrev pub text_of : Option (Chunk P) → Option String
  text_of none = none
  text_of (some c) = some c.text

  -- Deletion of these hashes
  abbrev pub delete_all : List String → Dict (Chunk P) → Dict (Chunk P)
  delete_all [] d = d
  delete_all (h ∷ hs) d = delete_all hs (Dict.remove h d)

  pub get-delete_all :
      (h : String) (hs : List String) (d : Dict (Chunk P))
      → Dict.get h (delete_all hs d) ≡ (if mem h hs then none else Dict.get h d)
  get-delete_all h [] d = refl
  get-delete_all h (k ∷ hs) d =
      ground (arith, get-delete_all h hs (Dict.remove k d), get-remove k h d)

  -- Each chunk is under its own hash.
  abbrev pub Keyed : Dict (Chunk P) → Type 0
  Keyed [] = Unit
  Keyed ((h, c) ∷ d) = (c.hash ≡ h) × Keyed d

  pub mem-deleted_of :
      (h : String) (new_map old_map : Dict (Chunk P))
      → mem h (deleted_of new_map old_map)
        ≡ (if Dict.contains h new_map then false else Dict.contains h old_map)
  unfolding deleted_of Dict.contains Dict.get
  mem-deleted_of h new_map [] = ground (arith, Bool-cases (Dict.contains h new_map))
  mem-deleted_of h new_map ((k, c) ∷ old_map) =
      let before = mem-deleted_of h new_map old_map in
      elim (Bool-cases (str_eq k h)) [
        | inl same ↦
            let here : Dict.contains k new_map ≡ Dict.contains h new_map =
              ap (λ i. Dict.contains i new_map) ((eq_iff k h).0 same) in
            ground (arith, same, here, before)
        | inr other ↦ ground (arith, other, before)
      ]

  -- What putting the added chunks gives under each hash.
  pub get-added_of :
      (h : String) (old_map new_map d : Dict (Chunk P))
      → Dict.Distinct new_map
      → Keyed new_map
      → Dict.get h (by_hash (added_of old_map new_map) d) ≡ (elim (Dict.get h new_map) [
        | none ↦ Dict.get h d
        | some c ↦ if is_changed (Dict.get h old_map) c then some c else Dict.get h d
      ])
  unfolding added_of Dict.get by_hash
  get-added_of h old_map [] d distinct keyed = refl
  get-added_of h old_map ((k, c) ∷ new_map) d (single, distinct) (own, keyed) =
      let later = get-added_of h old_map new_map in
      elim (Bool-cases (str_eq k h)) [
        | inl same ↦
            let k_h = (eq_iff k h).0 same in
            ground (
              arith,
              same,
              own,
              k_h,
              ap (λ i. Dict.get i new_map) k_h,
              ap (λ i. Dict.get i old_map) k_h,
              single,
              later d distinct keyed,
              later (Dict.put c.hash c d) distinct keyed,
              get-put c.hash h c d,
              eq_iff c.hash h,
            )
        | inr other ↦ ground (
          arith,
          other,
          own,
          later d distinct keyed,
          later (Dict.put c.hash c d) distinct keyed,
          get-put c.hash h c d,
          eq_iff c.hash h,
          eq_iff k h,
        )
      ]

  put-Keyed :
      (k : String) (c : Chunk P) (d : Dict (Chunk P))
      → c.hash ≡ k
      → Keyed d
      → Keyed (Dict.put k c d)
  unfolding Dict.put
  put-Keyed k c [] own h = (own, tt)
  put-Keyed k c ((j, w) ∷ d) own (first, h) = elim (Bool-cases (str_eq j k)) [
    | inl same ↦ rw same (own, h)
    | inr other ↦ rw other (first, put-Keyed k c d own h)
  ]

  pub by_hash-Keyed : (cs : List (Chunk P)) (d : Dict (Chunk P)) → Keyed d → Keyed (by_hash cs d)
  unfolding by_hash
  by_hash-Keyed [] d h = h
  by_hash-Keyed (c ∷ cs) d h = by_hash-Keyed cs (Dict.put c.hash c d) (put-Keyed c.hash c d refl h)

  pub by_hash-Distinct :
      (cs : List (Chunk P)) (d : Dict (Chunk P)) → Dict.Distinct d → Dict.Distinct (by_hash cs d)
  unfolding by_hash
  by_hash-Distinct [] d h = h
  by_hash-Distinct (c ∷ cs) d h =
      by_hash-Distinct cs (Dict.put c.hash c d) (Dict.put-Distinct c.hash c d h)
