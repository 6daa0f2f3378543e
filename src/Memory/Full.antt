-- ===== src/Memory/Full.antt =====
-- proxy/app/shared/memory_manager.py: what a new session gets where the store is full.
use rag_system.Base.{
  ℕ, ◌+◌, ◌-◌, ◌/◌, ◌<◌, ltb, leb, Bool, true, none, some, [], ◌∷◌, String, str_eq, eq_iff, length,
  count, if◌then◌else◌, ◌≡◌, refl, inl, inr, arith, Bool-cases,
}
use rag_system.Base.Dict.{get, put, Distinct, put-Distinct, get-put_self}
use rag_system.Memory.Strings.{str_leb, str_leb_total}
use rag_system.Memory.Conversation.{Conversation, new_conversation}
use rag_system.Memory.Sessions.{Sessions, prune_store, create, get_conversation}
use rag_system.Memory.Order.{times, times-sort_keys, times-sort_keys_later}
use rag_system.Memory.Deletion.{
  Store, keys, get-delete_all, get-delete_all_others, length-put_new, count-put_new, times-keys,
}
use rag_system.Memory.Limits.{length-prune_store}

count-keys : (p : String → Bool) (d : Store) → count (λ e. p e.0) d ≡ count p (keys d)
count-keys p [] = refl
count-keys p ((k, v) ∷ d) = ground (arith, count-keys p d)

get-prune_store :
    (max_entries : ℕ) (i : String) (d : Store)
    → max_entries < length d
    → let n = length d - max_entries / 2 in
      (times i (keys d) ≡ 1)
      → get i (prune_store max_entries d)
        ≡ (if leb (count (λ k. str_leb k i) (keys d)) n then none else get i d)
unfolding prune_store
get-prune_store max_entries i d many once =
    let e : ltb max_entries (length d) ≡ true = ground (arith, many) in
    let n = length d - max_entries / 2 in
    elim (Bool-cases (leb (count (λ k. str_leb k i) (keys d)) n)) [
      | inl early ↦
          rw (e, early)
            (get-delete_all i _ d
              (times-sort_keys i n (keys d) (omega (arith, once)) (ground (arith, early))))
      | inr late ↦
          rw (e, late)
            (get-delete_all_others i _ d
              (times-sort_keys_later i n (keys d) (omega (arith, once)) (ground (arith, late))))
    ]

-- Where the store is full, a new session makes it half full. It gets a new conversation where more than
-- half of the names are before its own. Else it is removed as soon as it is created, and the access to it
-- fails.
pub get_conversation_full :
    (now : ℕ) (session_id : String) (s : Sessions)
    → Distinct s.store
    → get session_id s.store ≡ none
    → length s.store ≡ s.store_max_entries
    → let (found, s') = get_conversation now session_id s in
      (found ≡ (
        if ltb s.store_max_entries
          (count (λ e. str_leb e.0 session_id) s.store + s.store_max_entries / 2)
        then some (new_conversation s.threshold_tokens)
        else none))
      × (length s'.store ≡ s.store_max_entries / 2)
unfolding get_conversation create
get_conversation_full now session_id s h new full =
    let entry : Conversation × ℕ = (new_conversation s.threshold_tokens, now) in
    let d = put session_id entry s.store in
    let longer = length-put_new session_id entry s.store new in
    let itself : str_eq session_id session_id ≡ true =
      ground (arith, eq_iff session_id session_id) in
    let below : str_leb session_id session_id ≡ true =
      ground (arith, str_leb_total session_id session_id) in
    let once : times session_id (keys d) ≡ 1 = ground (
      arith,
      count-put_new (λ k. str_eq k session_id) session_id entry s.store new,
      itself,
      count-keys (λ k. str_eq k session_id) s.store,
      times-keys session_id s.store h,
      new,
    ) in
    let found =
      get-prune_store s.store_max_entries session_id d (omega (arith, longer, full)) once in
    let names : count (λ k. str_leb k session_id) (keys d)
        ≡ count (λ e. str_leb e.0 session_id) s.store + 1 =
      ground
        (arith, count-put_new (λ k. str_leb k session_id) session_id entry s.store new, below) in
    let half =
      length-prune_store s.store_max_entries d (put-Distinct session_id entry s.store h)
        (omega (arith, longer, full)) in
    rw (new, get_conversation)
      (elim (Bool-cases (
        ltb s.store_max_entries
          (count (λ e. str_leb e.0 session_id) s.store + s.store_max_entries / 2))) [
            | inl late ↦
                let there : get session_id (prune_store s.store_max_entries d) ≡ some entry =
                  ground (
                    arith,
                    found,
                    late,
                    names,
                    longer,
                    full,
                    get-put_self session_id entry s.store,
                  ) in
                rw (there, late, create) (refl, half)
            | inr early ↦
                let gone : get session_id (prune_store s.store_max_entries d) ≡ none =
                  ground (arith, found, early, names, longer, full) in
                rw (gone, early, create) (refl, half)
          ])
