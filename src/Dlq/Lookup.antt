-- ===== src/Dlq/Lookup.antt =====
-- proxy/app/shared/dlq.py: what `get` returns behind each operation.
use mathlib.Core.Option
use mathlib.Core.Path.{subst, ◌∙◌}
use rag_system.Base.{
  ◌&&◌, ℕ, ◌+◌, ◌≤◌, ◌<◌, ◌==◌, String, eq_iff, Option, none, some, List, [], ◌∷◌, ◌≡◌, refl, arith,
  if◌then◌else◌, All, Option-cases, inl, inr,
}
use rag_system.Dlq.Queue.{
  DlqMessage, Table, DeadLetterQueue, matches, find, added, add, get, ack, nacked, nack_row, nack,
  requeue, is_dead, pending,
}
use rag_system.Dlq.Ids.{IsValid, find-append, find-filter, find-map_rows}

module _ {P : Type 0} where
  find-fresh :
      (j : ℕ) (n : String) (ms : List (DlqMessage P)) → All (λ m. m.id < j) ms → find j n ms ≡ none
  unfolding find
  find-fresh j n [] h = refl
  find-fresh j n (m ∷ ms) h = ground (arith, find-fresh j n ms h.1)

  All-below :
      (b : ℕ) (ms : List (DlqMessage P)) → All (λ m. m.id ≤ b) ms → All (λ m. m.id < b + 1) ms
  All-below b [] h = tt
  All-below b (m ∷ ms) h = (omega arith, All-below b ms h.1)

  pub find-id :
      (j : ℕ) (n : String) (m : DlqMessage P) (ms : List (DlqMessage P))
      → find j n ms ≡ some m
      → (m.id ≡ j) × (m.queue ≡ n)
  unfolding find
  find-id j n m [] h = cc
  find-id j n m (k ∷ ms) h = ground (arith, find-id j n m ms, eq_iff k.queue n)

  pub get-add :
      (q : DeadLetterQueue) (t : Table P) (j : ℕ) (payload : P) (error : String) (limit : Option ℕ)
      (now : ℕ)
      → IsValid t
      → get q j (add q payload error limit now t).1
        ≡ (if j == t.last_id + 1 then some (added q payload error limit now t) else get q j t)
  unfolding get add
  get-add q t j payload error limit now h = ground (
    arith,
    find-append j q.queue_name (added q payload error limit now t) t.rows
        (All-below t.last_id t.rows h.bounded),
    eq_iff q.queue_name q.queue_name,
  )

  map-rows-found :
      (q : DeadLetterQueue) (i j : ℕ) (error : String) (now : ℕ) (read : DlqMessage P)
      (found : Option (DlqMessage P))
      → ((m : DlqMessage P) → found ≡ some m → m.id ≡ j)
      → (i ≡ j → found ≡ some read)
      → Option.map (λ m. if m.id == i then nacked q read error now m else m) found
        ≡ (if i == j then Option.map (λ m. nacked q m error now m) found else found)
  map-rows-found q i j error now read none p r = ground arith
  map-rows-found q i j error now read (some m) p r = ground (arith, p m refl)

  get-nack_row :
      (q : DeadLetterQueue) (t : Table P) (i j : ℕ) (error : String) (now : ℕ)
      (read : Option (DlqMessage P))
      → find i q.queue_name t.rows ≡ read
      → find j q.queue_name (nack_row q read i error now t).1.rows ≡ (
          if i == j
          then Option.map (λ m. nacked q m error now m) (find j q.queue_name t.rows)
          else find j q.queue_name t.rows)
  unfolding nack_row
  get-nack_row q t i j error now none e = elim (Option-cases (find j q.queue_name t.rows)) [
    | inl f ↦ rw f (ground arith)
    | inr (m, f) ↦ ground (arith, e, f)
  ]
  get-nack_row q t i j error now (some read) e =
      find-map_rows _ (λ m. ground arith) (λ m. ground arith) j q.queue_name t.rows
      ∙ map-rows-found q i j error now read (find j q.queue_name t.rows)
          (λ m f. (find-id j q.queue_name m t.rows f).0)
          (λ same. subst (λ k. find k q.queue_name t.rows ≡ some read) same e)

  pub get-nack :
      (q : DeadLetterQueue) (t : Table P) (i j : ℕ) (error : String) (now : ℕ)
      → get q j (nack q i error now t).1
        ≡ (if i == j then Option.map (λ m. nacked q m error now m) (get q j t) else get q j t)
  unfolding get nack
  get-nack q t i j error now = get-nack_row q t i j error now (find i q.queue_name t.rows) refl

  -- `get` by the queue's own id, behind each operation of that queue: `add` is found under the new
  -- id, which no row had, `ack` removes its message, `nack` rewrites it, and other ids keep theirs.
  pub get-operations :
      (q : DeadLetterQueue) (t : Table P) (i j : ℕ) (payload : P) (error : String)
      (limit : Option ℕ) (now : ℕ)
      → IsValid t
      → (get q (t.last_id + 1) t ≡ none)
        × (get q j (add q payload error limit now t).1
            ≡ (if j == t.last_id + 1 then some (added q payload error limit now t) else get q j t))
        × (get q j (ack q i t).1 ≡ (if i == j then none else get q j t))
        × (get q j (nack q i error now t).1
            ≡ (if i == j then Option.map (λ m. nacked q m error now m) (get q j t) else get q j t))
  get-operations q t i j payload error limit now h = (
    unfold get in
        find-fresh (t.last_id + 1) q.queue_name t.rows (All-below t.last_id t.rows h.bounded),
    get-add q t j payload error limit now h,
    unfold get ack in find-filter i j q.queue_name t.rows,
    get-nack q t i j error now,
  )

  -- The row that `requeue` writes.
  abbrev pub requeued : ℕ → DlqMessage P → DlqMessage P
  requeued now m =
      if is_dead m.status
      then record m { status = pending; retry_count = 0; next_retry_at = now }
      else m

  requeued-found :
      (q : DeadLetterQueue) (i j now : ℕ) (found : Option (DlqMessage P))
      → ((m : DlqMessage P) → found ≡ some m → (m.id ≡ j) × (m.queue ≡ q.queue_name))
      → Option.map
          (λ m.
            if matches i q.queue_name m && is_dead m.status
            then record m { status = pending; retry_count = 0; next_retry_at = now }
            else m)
          found
        ≡ (if i == j then Option.map (requeued now) found else found)
  requeued-found q i j now none p = ground arith
  requeued-found q i j now (some m) p = ground (arith, p m refl, eq_iff m.queue q.queue_name)

  pub get-requeue :
      (q : DeadLetterQueue) (t : Table P) (i j now : ℕ)
      → get q j (requeue q i now t).1
        ≡ (if i == j then Option.map (requeued now) (get q j t) else get q j t)
  unfolding get requeue
  get-requeue q t i j now =
      find-map_rows _ (λ m. ground arith) (λ m. ground arith) j q.queue_name t.rows
      ∙ requeued-found q i j now (find j q.queue_name t.rows)
          (λ m f. find-id j q.queue_name m t.rows f)
