-- ===== src/Memory/Pruning.antt =====
-- proxy/app/shared/memory_manager.py: which entities stay where there are too many.
use mathlib.Core.Path.{subst}
use rag_system.Base.{
  ℕ, zero, suc, ◌≤◌, ◌<◌, ltb, min, true, false, none, some, List, [], ◌∷◌, String, eq_iff, length,
  ◌≡◌, inl, inr, refl, arith, Bool-cases,
}
use rag_system.Base.Dict.{Dict, get, remove, Distinct, get-remove, put-Distinct}
use rag_system.Memory.Least.{remove-Distinct, length-remove, IsLeast, oldest_of}
use rag_system.Memory.Tracker.{
  Words, EntityTracker, oldest, prune_loop, prune, is_entity, count_words, track,
}

-- Of the entities of the first dictionary, the second keeps some, each with its count, and all of a
-- larger count than one that is not kept.
abbrev pub KeepsLargest : Dict ℕ → Dict ℕ → Type 0
KeepsLargest d kept =
    ((j : String) (m : ℕ) → get j kept ≡ some m → get j d ≡ some m)
    × ((i j : String) (n m : ℕ)
        → get i d ≡ some n
        → get i kept ≡ none
        → get j kept ≡ some m
        → n ≤ m)

abbrev IsPruned : ℕ → Dict ℕ → Dict ℕ → Type 0
IsPruned max_entities d kept =
    Distinct kept × (length kept ≡ min (length d) max_entities) × KeepsLargest d kept

all_kept :
    (max_entities : ℕ) (d : Dict ℕ)
    → Distinct d
    → length d ≤ max_entities
    → IsPruned max_entities d d
all_kept max_entities d h le =
    (h, omega (arith, le), ((λ j m e. e), λ i j n m e f g. ground (arith, e, f)))

prune_loop_once :
    (max_entities rounds : ℕ) (d : Dict ℕ) (k : String)
    → max_entities < length d
    → oldest d ≡ some k
    → prune_loop max_entities rounds (remove k d) ≡ prune_loop max_entities (suc rounds) d
unfolding prune_loop
prune_loop_once max_entities rounds d k large found =
    let more : ltb max_entities (length d) ≡ true = ground (arith, large) in rw (more, found) refl

prune_loop_stops :
    (max_entities rounds : ℕ) (d : Dict ℕ)
    → length d ≤ max_entities
    → d ≡ prune_loop max_entities rounds d
unfolding prune_loop
prune_loop_stops max_entities zero d small = refl
prune_loop_stops max_entities (suc rounds) d small =
    let enough : ltb max_entities (length d) ≡ false = ground (arith, small) in rw enough refl

one_less :
    (max_entities : ℕ) (k : String) (c : ℕ) (d kept : Dict ℕ)
    → Distinct d
    → max_entities < length d
    → IsLeast k c d
    → IsPruned max_entities (remove k d) kept
    → IsPruned max_entities d kept
one_less max_entities k c d kept h large (there, lowest) (h', n', (sub, largest)) = (
  h',
  omega (arith, n', length-remove k c d h there, large),
  (
    (λ j m e. ground (arith, sub j m, e, get-remove k j d)),
    λ i j n m e f g. ground (
      arith,
      e,
      f,
      g,
      largest i j n m,
      sub j m,
      lowest j m,
      there,
      get-remove k i d,
      get-remove k j d,
      eq_iff k i,
    ),
  ),
)

prune_loop_lem :
    (max_entities rounds : ℕ) (d : Dict ℕ)
    → Distinct d
    → length d ≤ rounds
    → IsPruned max_entities d (prune_loop max_entities rounds d)
prune_loop_lem max_entities zero d h le =
    subst (IsPruned max_entities d) (prune_loop_stops max_entities zero d (omega (arith, le)))
      (all_kept max_entities d h (omega (arith, le)))
prune_loop_lem max_entities (suc rounds) d h le = elim (Bool-cases (ltb max_entities (length d))) [
  | inr small ↦
      let few : length d ≤ max_entities = ground (arith, small) in
      subst (IsPruned max_entities d) (prune_loop_stops max_entities (suc rounds) d few)
        (all_kept max_entities d h few)
  | inl large ↦
      let many : max_entities < length d = ground (arith, large) in
      let (k, c, found, lowest) = oldest_of d h (omega (arith, many)) in
      let shorter = length-remove k c d h lowest.0 in
      subst (IsPruned max_entities d) (prune_loop_once max_entities rounds d k many found) (
        one_less max_entities k c d (prune_loop max_entities rounds (remove k d)) h many lowest (
          prune_loop_lem max_entities rounds (remove k d) (remove-Distinct k d h)
            (omega (arith, shorter, le))))
]

-- Where the names are distinct, pruning leaves as many entities as are allowed, or all where there
-- are no more than that. Those that are left have the count they had, and none that was removed was
-- mentioned more often than one that is left.
pub prune_lem :
    (max_entities : ℕ) (d : Dict ℕ)
    → Distinct d
    → let kept = prune max_entities d in
      Distinct kept × (length kept ≡ min (length d) max_entities) × KeepsLargest d kept
unfolding prune
prune_lem max_entities d h = prune_loop_lem max_entities (length d) d h (omega arith)

module _ (w : Words) where
  count_words-Distinct :
      (words : List String) (d : Dict ℕ) → Distinct d → Distinct (count_words w words d)
  unfolding count_words
  count_words-Distinct [] d h = h
  count_words-Distinct (word ∷ words) d h = elim (Bool-cases (is_entity w (w.strip word))) [
    | inl entity ↦ rw entity (count_words-Distinct words _ (put-Distinct (w.strip word) _ d h))
    | inr other ↦ rw other (count_words-Distinct words d h)
  ]

  pub track-Distinct :
      (text : String) (t : EntityTracker)
      → Distinct t.entities
      → let t' = track w text t in
        Distinct t'.entities
        × (length t'.entities ≤ t.max_entities)
        × (t'.max_entities ≡ t.max_entities)
  unfolding track
  track-Distinct text t h =
      let d = count_words w (w.split text) t.entities in
      let h' = count_words-Distinct (w.split text) t.entities h in
      let (kept, n, largest) = prune_lem t.max_entities d h' in
      elim (Bool-cases (ltb t.max_entities (length d))) [
        | inl many ↦ rw many (kept, omega (arith, n), refl)
        | inr few ↦ rw few (h', ground (arith, few), refl)
      ]
