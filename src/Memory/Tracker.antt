-- ===== src/Memory/Tracker.antt =====
-- proxy/app/shared/memory_manager.py: EntityTracker. Python's operations on strings are arguments.
use rag_system.Base.{
  ℕ, zero, suc, ◌+◌, ltb, Bool, ◌&&◌, ◌||◌, Option, none, some, List, [], ◌∷◌, String, length,
  if◌then◌else◌,
}
use rag_system.Base.Dict.{Dict, get, put, remove}

-- `split`, `strip` of punctuation, `len`, `isupper` of the first character, and `in`
pub record Words : Type 0 where
  pub split : String → List String
  pub strip : String → String
  pub size : String → ℕ
  pub starts_upper : String → Bool
  pub has : String → String → Bool

pub record EntityTracker : Type 0 where
  pub entities : Dict ℕ
  pub max_entities : ℕ

-- The key that `min` gives: the first one with the smallest count
unfoldable pub least : String → ℕ → Dict ℕ → String
least k c [] = k
least k c ((j, m) ∷ d) =
    let keep = least k c d in let change = least j m d in if ltb m c then change else keep

unfoldable pub oldest : Dict ℕ → Option String
oldest [] = none
oldest ((k, c) ∷ d) = some (least k c d)

-- The loop of `_prune`; every round of it removes an entity.
unfoldable pub prune_loop : ℕ → ℕ → Dict ℕ → Dict ℕ
prune_loop max_entities zero d = d
prune_loop max_entities (suc rounds) d =
    let pruned : Dict ℕ = elim (oldest d) [
      | none ↦ d
      | some k ↦ prune_loop max_entities rounds (remove k d)
    ] in
    if ltb max_entities (length d) then pruned else d

unfoldable pub prune : ℕ → Dict ℕ → Dict ℕ
prune max_entities d = prune_loop max_entities (length d) d

module _ (w : Words) where
  unfoldable pub is_entity : String → Bool
  is_entity clean =
      ltb 2 (w.size clean) && (w.starts_upper clean || w.has "_" clean || w.has "-" clean)

  unfoldable pub count_words : List String → Dict ℕ → Dict ℕ
  count_words [] d = d
  count_words (word ∷ words) d =
      let clean = w.strip word in
      let n : ℕ = elim (get clean d) [ none ↦ 0 | some n ↦ n ] in
      count_words words (if is_entity clean then put clean (n + 1) d else d)

  unfoldable pub track : String → EntityTracker → EntityTracker
  track text t =
      let d = count_words (w.split text) t.entities in
      record t { entities = if ltb t.max_entities (length d) then prune t.max_entities d else d }
