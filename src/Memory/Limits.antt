-- ===== src/Memory/Limits.antt =====
-- proxy/app/shared/memory_manager.py: how many sessions there are, and which of them go.
use rag_system.Base.{
  ℕ, ◌-◌, ◌/◌, ◌≤◌, ◌<◌, ltb, true, ◌&&◌, List, [], ◌∷◌, String, str_eq, length, take, map, filter,
  ◌≡◌, inl, inr, arith, Bool-cases, Option-cases,
}
use rag_system.Base.Dict.{get, remove, Distinct, put-Distinct}
use rag_system.Memory.Least.{remove-Distinct}
use rag_system.Memory.Conversation.{new_conversation}
use rag_system.Memory.Sessions.{
  Sessions, sort_keys, prune_store, create, get_conversation, prune_expired_sessions,
  clear_conversation,
}
use rag_system.Memory.Deletion.{
  Store, keys, delete_all-Distinct, shorter-remove, shorter-delete_all, Fits, length-delete_all,
  times-keys, length-keys,
}
use rag_system.Memory.Order.{times-take, count-sort_keys, length-sort_keys, length-take}

abbrev pub IsBounded : Sessions → Type 0
IsBounded s = Distinct s.store × (length s.store ≤ s.store_max_entries)

prune_store-Fits : (n : ℕ) (d : Store) → Distinct d → Fits (take n (sort_keys (keys d))) d
prune_store-Fits n d h i =
    let once = times-keys i d h in
    let same = count-sort_keys (λ k. str_eq k i) (keys d) in
    let fewer = times-take i n (sort_keys (keys d)) in
    ((λ e. omega (arith, once.0 e, same, fewer)), omega (arith, once.1, same, fewer))

pub length-prune_store :
    (max_entries : ℕ) (d : Store)
    → Distinct d
    → max_entries < length d
    → length (prune_store max_entries d) ≡ max_entries / 2
unfolding prune_store
length-prune_store max_entries d h many =
    let n = length d - max_entries / 2 in
    let e : ltb max_entries (length d) ≡ true = ground (arith, many) in
    let all_keys = length-sort_keys (keys d) in
    rw e (
      omega (
        arith,
        many,
        length-keys d,
        length-delete_all (take n (sort_keys (keys d))) d h (prune_store-Fits n d h),
        length-take n (sort_keys (keys d)) (omega (arith, all_keys, length-keys d)),
      ))

prune_store-Distinct :
    (max_entries : ℕ) (d : Store) → Distinct d → Distinct (prune_store max_entries d)
unfolding prune_store
prune_store-Distinct max_entries d h = elim (Bool-cases (ltb max_entries (length d))) [
  | inl many ↦ rw many (delete_all-Distinct _ d h)
  | inr few ↦ rw few h
]

prune_store_bounded :
    (max_entries : ℕ) (d : Store) → Distinct d → length (prune_store max_entries d) ≤ max_entries
prune_store_bounded max_entries d h = elim (Bool-cases (ltb max_entries (length d))) [
  | inl many ↦ omega (arith, length-prune_store max_entries d h (ground (arith, many)))
  | inr few ↦ unfold prune_store in rw few (ground (arith, few))
]

create-IsBounded :
    (now : ℕ) (session_id : String) (s : Sessions)
    → Distinct s.store
    → IsBounded (create now session_id s).1
unfolding create
create-IsBounded now session_id s h =
    let h' = put-Distinct session_id (new_conversation s.threshold_tokens, now) s.store h in
    (prune_store-Distinct s.store_max_entries _ h', prune_store_bounded s.store_max_entries _ h')

get_conversation-IsBounded :
    (now : ℕ) (session_id : String) (s : Sessions)
    → IsBounded s
    → IsBounded (get_conversation now session_id s).1
unfolding get_conversation
get_conversation-IsBounded now session_id s (h, few) =
    elim (Option-cases (get session_id s.store)) [
      | inl new ↦ rw (new, get_conversation) (create-IsBounded now session_id s h)
      | inr ((memory, created_at), known) ↦
          elim (Bool-cases (ltb 0 s.session_ttl && ltb s.session_ttl (now - created_at))) [
            | inl expired ↦
                rw (known, expired, get_conversation)
                  (create-IsBounded now session_id (record s { store = remove session_id s.store })
                    (remove-Distinct session_id s.store h))
            | inr live ↦ rw (known, live, get_conversation) (h, few)
          ]
    ]

-- What happens to the sessions
pub data SessionEvent : Type 0 where
  ask : ℕ → String → SessionEvent
  expire : ℕ → SessionEvent
  reset : String → SessionEvent

unfoldable pub handle : SessionEvent → Sessions → Sessions
handle (ask now session_id) s = (get_conversation now session_id s).1
handle (expire now) s = (prune_expired_sessions now s).1
handle (reset session_id) s = (clear_conversation session_id s).1

unfoldable pub handle_all : List SessionEvent → Sessions → Sessions
handle_all [] s = s
handle_all (r ∷ rs) s = handle_all rs (handle r s)

handle-IsBounded : (r : SessionEvent) (s : Sessions) → IsBounded s → IsBounded (handle r s)
unfolding handle prune_expired_sessions clear_conversation
handle-IsBounded (ask now session_id) s h = get_conversation-IsBounded now session_id s h
handle-IsBounded (expire now) s (h, few) = elim (Bool-cases (ltb 0 s.session_ttl)) [
  | inl on ↦
      rw (on, handle, prune_expired_sessions)
        (
          delete_all-Distinct _ s.store h,
          omega (
            arith,
            few,
            shorter-delete_all
                (map (λ e. e.0) (filter (λ e. ltb s.session_ttl (now - e.1.1)) s.store)) s.store,
          ),
        )
  | inr off ↦ rw (off, handle, prune_expired_sessions) (h, few)
]
handle-IsBounded (reset session_id) s (h, few) = elim (Option-cases (get session_id s.store)) [
  | inl unknown ↦ rw (unknown, handle, clear_conversation) (h, few)
  | inr (entry, known) ↦
      rw (known, handle, clear_conversation)
        (
          remove-Distinct session_id s.store h,
          omega (arith, few, shorter-remove session_id s.store),
        )
]

-- Whatever requests, expiries and resets there are, no session is there twice and there are at most as
-- many as are allowed, where it was so before.
pub handle_all-IsBounded :
    (rs : List SessionEvent) (s : Sessions) → IsBounded s → IsBounded (handle_all rs s)
unfolding handle_all
handle_all-IsBounded [] s h = h
handle_all-IsBounded (r ∷ rs) s h = handle_all-IsBounded rs (handle r s) (handle-IsBounded r s h)
