-- ===== src/Dlq/Others.antt =====
-- proxy/app/shared/dlq.py: what `retry` does to the messages of every queue of the table.
use mathlib.Core.Path.{subst}
use rag_system.Base.{
  ℕ, ◌+◌, ◌==◌, not, String, eq_iff, Option, some, List, [], ◌∷◌, ◌≡◌, ◌≢◌, ◌∙◌, refl, arith,
  if◌then◌else◌, filter, All, Bool-cases, inl, inr, Option-cases,
}
use rag_system.Dlq.Queue.{
  DlqMessage, Table, DeadLetterQueue, matches, map_rows, find, get, ack, nacked, nack_row, nack,
  process, retry_loop, retry,
}
use rag_system.Dlq.Ids.{IsValid, Distinct, ack_op, nack_op, apply, apply-IsValid}
use rag_system.Dlq.Retries.{place, round, table-loop, find-none, retried, get-retry_own}

module _ {P : Type 0} where
  absent_alike :
      (i : ℕ) (n : String) (ms : List (DlqMessage P))
      → All (λ k. k.id ≢ i) ms
      → All (λ k. k.id ≡ i → k.queue ≡ n) ms
  absent_alike i n [] h = tt
  absent_alike i n (k ∷ ks) h = ((λ e. ground (arith, h.0, e)), absent_alike i n ks h.1)

  -- A row with the id of a row of one queue is of that queue.
  one_queue :
      (i : ℕ) (n : String) (read : DlqMessage P) (ms : List (DlqMessage P))
      → Distinct ms
      → find i n ms ≡ some read
      → All (λ k. k.id ≡ i → k.queue ≡ n) ms
  unfolding find
  one_queue i n read [] d found = tt
  one_queue i n read (k ∷ ks) d found = elim (Bool-cases (matches i n k)) [
    | inl this ↦ (
      (λ e. ground (arith, this, eq_iff k.queue n)),
      absent_alike i n ks (subst (λ x. All (λ m. m.id ≢ x) ks) (ground (arith, this)) d.0),
    )
    | inr other ↦
        let later : find i n ks ≡ some read = ground (arith, found, other) in
        (
          (λ e.
              ground (arith, later, find-none i n ks (subst (λ x. All (λ m. m.id ≢ x) ks) e d.0))),
          one_queue i n read ks d.1 later,
        )
  ]

  find-other_rows :
      (f : DlqMessage P → DlqMessage P) (i j : ℕ) (n other : String) (ms : List (DlqMessage P))
      → ((m : DlqMessage P) → ((f m).id ≡ m.id) × ((f m).queue ≡ m.queue))
      → ((m : DlqMessage P) → m.id ≢ i → f m ≡ m)
      → n ≢ other
      → All (λ k. k.id ≡ i → k.queue ≡ n) ms
      → find j other (map_rows f ms) ≡ find j other ms
  unfolding find
  find-other_rows f i j n other [] same away differ h = refl
  find-other_rows f i j n other (k ∷ ks) same away differ (here, h) =
      elim (Bool-cases (k.id == i)) [
        | inl this ↦ ground (
          arith,
          this,
          here,
          (same k).0,
          (same k).1,
          differ,
          eq_iff k.queue other,
          find-other_rows f i j n other ks same away differ h,
        )
        | inr apart ↦
            rw (away k (ground (arith, apart)))
              (ground (arith, find-other_rows f i j n other ks same away differ h))
      ]

  find-other_filter :
      (i j : ℕ) (n other : String) (ms : List (DlqMessage P))
      → n ≢ other
      → find j other (filter (λ m. not (matches i n m)) ms) ≡ find j other ms
  unfolding find
  find-other_filter i j n other [] differ = refl
  find-other_filter i j n other (k ∷ ks) differ = ground (
    arith,
    find-other_filter i j n other ks differ,
    differ,
    eq_iff k.queue n,
    eq_iff k.queue other,
  )

  module _ (q other : DeadLetterQueue) (differ : q.queue_name ≢ other.queue_name) where
    get-ack_other : (i j : ℕ) (t : Table P) → get other j (ack q i t).1 ≡ get other j t
    unfolding get ack
    get-ack_other i j t = find-other_filter i j q.queue_name other.queue_name t.rows differ

    get-nack_other :
        (i j : ℕ) (error : String) (now : ℕ) (t : Table P)
        → IsValid t
        → get other j (nack q i error now t).1 ≡ get other j t
    unfolding get nack nacked
    get-nack_other i j error now t v = elim (Option-cases (find i q.queue_name t.rows)) [
      | inl absent ↦ rw (absent, nack_row) refl
      | inr (read, found) ↦
          rw (found, nack_row)
            (find-other_rows (λ m. if m.id == i then nacked q read error now m else m) i j
              q.queue_name other.queue_name t.rows (λ m. (ground arith, ground arith))
              (λ m away. ground (arith, away)) differ
              (one_queue i q.queue_name read t.rows v.distinct found))
    ]

  module _ (q : DeadLetterQueue) (handler : ℕ → P → Option String) (clock : ℕ → ℕ) where
    round-IsValid :
        (i : ℕ) (m : DlqMessage P) (t : Table P) → IsValid t → IsValid (round q handler clock i m t)
    round-IsValid i m t v = elim (Option-cases (handler i m.payload)) [
      | inl takes ↦ rw (takes, round) (unfold apply in apply-IsValid q (ack_op m.id) t v)
      | inr (error, refuses) ↦
          rw (refuses, round) (unfold apply in apply-IsValid q (nack_op m.id error (clock i)) t v)
    ]

    get-round_other :
        (other : DeadLetterQueue) (i j : ℕ) (m : DlqMessage P) (t : Table P)
        → q.queue_name ≢ other.queue_name
        → IsValid t
        → get other j (round q handler clock i m t) ≡ get other j t
    get-round_other other i j m t differ v = elim (Option-cases (handler i m.payload)) [
      | inl takes ↦ rw (takes, round) (get-ack_other q other differ m.id j t)
      | inr (error, refuses) ↦
          rw (refuses, round) (get-nack_other q other differ m.id j error (clock i) t v)
    ]

    get-loop_other :
        (other : DeadLetterQueue) (i j : ℕ) (ms : List (DlqMessage P)) (t : Table P)
        → q.queue_name ≢ other.queue_name
        → IsValid t
        → get other j (retry_loop q handler clock i ms t).1 ≡ get other j t
    get-loop_other other i j [] t differ v = unfold retry_loop in refl
    get-loop_other other i j (m ∷ ms) t differ v = rw (table-loop q handler clock i m ms t) (
        get-loop_other other (i + 1) j ms (round q handler clock i m t) differ
          (round-IsValid i m t v)
        ∙ get-round_other other i j m t differ v)

    -- In a table in which no id is there twice, a retry hands each pending message of its queue to the
    -- handler once, in the order of the queue: what the handler takes in the round of the message is
    -- removed, what it refuses there has one failure more, at the time of that round. Every other message
    -- of the queue, which is not pending, is as it was, and so is every message of every queue of another
    -- name.
    pub get-retry :
        (t : Table P) (j : ℕ)
        → IsValid t
        → let t' = (retry q handler clock t).1 in
          (get q j t' ≡ retried q handler clock (place j (process q t)) (get q j t))
          × ((other : DeadLetterQueue)
              → q.queue_name ≢ other.queue_name
              → get other j t' ≡ get other j t)
    get-retry t j v = (
      get-retry_own q handler clock t j v,
      λ other differ. unfold retry in get-loop_other other 0 j (process q t) t differ v,
    )
