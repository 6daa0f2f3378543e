-- ===== src/Memory/Sessions.antt =====
-- proxy/app/shared/memory_manager.py: the conversations of all sessions. A SESSION_TTL of 0 stands for every one that is not positive.
use rag_system.Base.{
  ℕ, ◌-◌, ◌/◌, ltb, ◌&&◌, Option, none, some, List, [], ◌∷◌, String, length, take, map, filter,
  if◌then◌else◌,
}
use rag_system.Base.Dict.{Dict, get, put, remove}
use rag_system.Memory.Strings.{str_leb}
use rag_system.Memory.Conversation.{Conversation, new_conversation, clear}

-- `_conversation_store`, with the settings that its functions read
pub record Sessions : Type 0 where
  pub store : Dict (Conversation × ℕ)
  pub store_max_entries : ℕ
  pub session_ttl : ℕ
  pub threshold_tokens : ℕ

unfoldable pub delete_all : List String → Dict (Conversation × ℕ) → Dict (Conversation × ℕ)
delete_all [] d = d
delete_all (k ∷ ks) d = delete_all ks (remove k d)

unfoldable pub insert_key : String → List String → List String
insert_key k [] = k ∷ []
insert_key k (j ∷ js) = let rest = insert_key k js in if str_leb k j then k ∷ j ∷ js else j ∷ rest

-- `sorted(keys)`
unfoldable pub sort_keys : List String → List String
sort_keys [] = []
sort_keys (k ∷ ks) = insert_key k (sort_keys ks)

unfoldable pub prune_store : ℕ → Dict (Conversation × ℕ) → Dict (Conversation × ℕ)
prune_store max_entries d =
    let to_remove = take (length d - max_entries / 2) (sort_keys (map (λ e. e.0) d)) in
    if ltb max_entries (length d) then delete_all to_remove d else d

-- A new conversation for a session; the last access raises KeyError where the result is `none`.
unfoldable pub create : ℕ → String → Sessions → Option Conversation × Sessions
create now session_id s =
    let d =
      prune_store s.store_max_entries
        (put session_id (new_conversation s.threshold_tokens, now) s.store) in
    let found : Option Conversation = elim (get session_id d) [
      | none ↦ none
      | some entry ↦ some entry.0
    ] in
    (found, record s { store = d })

unfoldable pub get_conversation : ℕ → String → Sessions → Option Conversation × Sessions
get_conversation now session_id s =
    let renewed = create now session_id (record s { store = remove session_id s.store }) in
    elim (get session_id s.store) [
      | none ↦ create now session_id s
      | some (memory, created_at) ↦
          if ltb 0 s.session_ttl && ltb s.session_ttl (now - created_at)
          then renewed
          else (some memory, s)
    ]

unfoldable pub prune_expired_sessions : ℕ → Sessions → ℕ × Sessions
prune_expired_sessions now s =
    let expired = filter (λ e. ltb s.session_ttl (now - e.1.1)) s.store in
    if ltb 0 s.session_ttl
    then (length expired, record s { store = delete_all (map (λ e. e.0) expired) s.store })
    else (0, s)

-- The conversation that was cleared, which a caller may still hold, and the sessions behind it
unfoldable pub clear_conversation : String → Sessions → Option Conversation × Sessions
clear_conversation session_id s =
    let left = record s { store = remove session_id s.store } in
    elim (get session_id s.store) [ none ↦ (none, s) | some entry ↦ (some (clear entry.0), left) ]
