-- ===== src/ApiKeys/Tests.antt =====
-- Runs of the manager of keys, and its theorems at concrete inputs.
use rag_system.Base.{
  ℕ, ◌+◌, ◌*◌, ◌≤◌, ltb, false, none, some, List, [], ◌∷◌, String, length, if◌then◌else◌, ◌≡◌, refl,
  arith, eq_iff,
}
use rag_system.Base.Dict.{get, put}
use rag_system.ApiKeys.Keys.{
  ApiKey, ApiKeyManager, Draw, is_expired, is_usable, list_keys, lifetime, add_key, new_key,
  generate_key, rotated, rotate_key, marked, validate_key,
}
use rag_system.ApiKeys.Limits.{Op, generate, rotate, expire, after, list_keys_bounded}
use rag_system.ApiKeys.Acceptance.{accepted}
use rag_system.ApiKeys.Validation.{validate_key-generate_key, validate_key-rotate_key}

-- The hash and what is noted of a key are the text itself here.
abbrev same_text : String → String
same_text s = s

abbrev draw_a : Draw
draw_a = record { token = "a"; id = "1" }

abbrev draw_b : Draw
draw_b = record { token = "b"; id = "2" }

abbrev calls : List (ℕ × Op)
calls = (9, expire "1") ∷ (7, rotate draw_b "1" none) ∷ (5, generate draw_a "ann" [] none) ∷ []

list_keys_bounded_example : length (list_keys 10 "ann" false (after same_text same_text calls)) ≤ 10
list_keys_bounded_example =
    list_keys_bounded same_text same_text 9 10 calls "ann"
      (omega arith, (omega arith, (omega arith, tt))) (omega arith)
      (ground (arith, eq_iff "ann" ""))

abbrev empty : ApiKeyManager
empty = record { keys = []; key_to_user = [] }

abbrev key_a : ApiKey
key_a = new_key same_text 5 draw_a "ann" [] none none

made : generate_key same_text 5 draw_a "ann" [] none none empty ≡ some ("sk-a", add_key key_a empty)
unfolding generate_key list_keys
made = refl

nothing : get "1" empty.keys ≡ none
unfolding get
nothing = refl

validate_key-generate_key_example :
    (validate_key same_text 7000000 "sk-a" (add_key key_a empty)).0 ≡ (
      if ltb (5 + lifetime none * 86400) 7000000
      then none
      else some (record key_a { last_used = some 7000000 }))
validate_key-generate_key_example =
    validate_key-generate_key same_text 5 7000000 draw_a "ann" [] none none empty
      (add_key key_a empty) "sk-a" made (ground (arith, eq_iff "ann" "")) nothing refl

-- The manager after the key was rotated at 7
abbrev turned : ApiKeyManager
turned = record {
  keys =
      ("1", marked 7 "sk-b" key_a)
      ∷ ("2", new_key same_text 7 draw_b "ann" ("user" ∷ []) none (some "1"))
      ∷ [];
  key_to_user = ("sk-a", "ann") ∷ ("sk-b", "ann") ∷ [];
}

rotation :
    rotate_key same_text same_text 7 draw_b "1" none (add_key key_a empty) ≡ rotated "sk-b" turned
unfolding rotate_key generate_key list_keys add_key new_key marked get put is_usable is_expired
rotation = refl

unknown : get "2" (add_key key_a empty).keys ≡ none
unfolding add_key new_key get put
unknown = refl

-- Three days after the rotation, the old key is accepted as if there had been none.
validate_key-rotate_key_example :
    accepted (validate_key same_text 260000 "sk-a" turned).0
    ≡ accepted (validate_key same_text 260000 "sk-a" (add_key key_a empty)).0
validate_key-rotate_key_example =
    validate_key-rotate_key same_text same_text 7 260000 draw_b "1" none (add_key key_a empty)
      turned "sk-a" "sk-b" rotation unknown (ground (arith, eq_iff "sk-a" "sk-b"))
