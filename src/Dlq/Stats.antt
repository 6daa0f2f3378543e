-- ===== src/Dlq/Stats.antt =====
-- proxy/app/shared/dlq.py: the counts that `stats` and `clear` report.
use rag_system.Base.{
  ℕ, ◌+◌, Bool, ◌&&◌, String, str_eq, Option, none, some, List, [], ◌∷◌, ◌++◌, ◌≡◌, ◌≢◌, arith,
  filter, count, length, All, Bool-cases, Option-cases, inl, inr,
}
use rag_system.Dlq.Queue.{
  DlqMessage, Table, DeadLetterQueue, failed, is_pending, is_dead, map_rows, ack, nack_row, nack,
  stats, find, retry, retry_loop, process,
}
use rag_system.Dlq.Ids.{Operation, add_op, ack_op, nack_op, requeue_op, clear_op, apply}

module _ {P : Type 0} where
  -- No row has the status 'failed'.
  abbrev pub NoneFailed : Table P → Type 0
  NoneFailed t = All (λ m. m.status ≢ failed) t.rows

  All-append :
      (m : DlqMessage P) (ms : List (DlqMessage P))
      → All (λ k. k.status ≢ failed) ms
      → m.status ≢ failed
      → All (λ k. k.status ≢ failed) (ms ++ m ∷ [])
  All-append m [] h q = (q, tt)
  All-append m (k ∷ ms) h q = (h.0, All-append m ms h.1 q)

  All-filter :
      (keep : DlqMessage P → Bool) (ms : List (DlqMessage P))
      → All (λ k. k.status ≢ failed) ms
      → All (λ k. k.status ≢ failed) (filter keep ms)
  All-filter keep [] h = tt
  All-filter keep (m ∷ ms) h = elim (Bool-cases (keep m)) [
    | inl p ↦ rw p (h.0, All-filter keep ms h.1)
    | inr p ↦ rw p (All-filter keep ms h.1)
  ]

  All-map_rows :
      (f : DlqMessage P → DlqMessage P)
      → ((m : DlqMessage P) → m.status ≢ failed → (f m).status ≢ failed)
      → (ms : List (DlqMessage P)) → All (λ k. k.status ≢ failed) ms
      → All (λ k. k.status ≢ failed) (map_rows f ms)
  All-map_rows f p [] h = tt
  All-map_rows f p (m ∷ ms) h = (p m h.0, All-map_rows f p ms h.1)

  nack_row-NoneFailed :
      (q : DeadLetterQueue) (read : Option (DlqMessage P)) (i : ℕ) (error : String) (now : ℕ)
      (t : Table P)
      → NoneFailed t
      → NoneFailed (nack_row q read i error now t).1
  unfolding nack_row
  nack_row-NoneFailed q none i error now t h = h
  nack_row-NoneFailed q (some read) i error now t h = All-map_rows _ (λ m p. ground arith) t.rows h

  apply-NoneFailed :
      (q : DeadLetterQueue) (op : Operation P) (t : Table P)
      → NoneFailed t
      → NoneFailed (apply q op t)
  unfolding apply
  apply-NoneFailed q (add_op payload error limit now) t h = All-append _ t.rows h cc
  apply-NoneFailed q (ack_op i) t h = All-filter _ t.rows h
  apply-NoneFailed q (clear_op status) t h = All-filter _ t.rows h
  apply-NoneFailed q (nack_op i error now) t h =
      nack_row-NoneFailed q (find i q.queue_name t.rows) i error now t h
  apply-NoneFailed q (requeue_op i now) t h = All-map_rows _ (λ m p. ground arith) t.rows h

  count-statuses :
      (mine : DlqMessage P → Bool) (ms : List (DlqMessage P))
      → All (λ m. m.status ≢ failed) ms
      → count mine ms
        ≡ count (λ m. mine m && is_pending m.status) ms + count (λ m. mine m && is_dead m.status) ms
  count-statuses mine [] h = omega arith
  count-statuses mine (m ∷ ms) h = ground (arith, count-statuses mine ms h.1, h.0)

  -- No operation of any queue makes a row 'failed', and while there is none, the messages of a queue
  -- are the pending and the dead ones, and the count of the failed ones is 0.
  pub stats_partition :
      (q : DeadLetterQueue) (op : Operation P) (t : Table P)
      → NoneFailed t
      → let t' = apply q op t in
        NoneFailed t'
        × ((stats q t').total ≡ (stats q t').pending_count + (stats q t').dead_count)
        × ((stats q t').failed_count ≡ 0)
  unfolding stats
  stats_partition q op t h =
      let h' = apply-NoneFailed q op t h in
      let e = count-statuses (λ m. str_eq m.queue q.queue_name) (apply q op t).rows h' in
      (h', e, omega (arith, e))

  retry_loop-counts :
      (q : DeadLetterQueue) (handler : ℕ → P → Option String) (clock : ℕ → ℕ) (i : ℕ)
      (ms : List (DlqMessage P)) (t : Table P)
      → let s = (retry_loop q handler clock i ms t).0 in
        (s.processed + s.failed_handling ≡ s.total) × (s.total ≡ length ms) × (s.dead_count ≡ 0)
  unfolding retry_loop
  retry_loop-counts q handler clock i [] t = omega arith
  retry_loop-counts q handler clock i (m ∷ ms) t = elim (Option-cases (handler i m.payload)) [
    | inl e ↦ ground (arith, e, retry_loop-counts q handler clock (i + 1) ms (ack q m.id t).1)
    | inr (error, e) ↦
        ground
          (arith, e, retry_loop-counts q handler clock (i + 1) ms (nack q m.id error (clock i) t).1)
  ]

  -- The report of `retry` splits the pending messages into the processed and the failed ones, and
  -- gives 0 for the dead ones, however many messages have just died.
  pub retry_counts :
      (q : DeadLetterQueue) (handler : ℕ → P → Option String) (clock : ℕ → ℕ) (t : Table P)
      → let s = (retry q handler clock t).0 in
        (s.processed + s.failed_handling ≡ s.total)
        × (s.total ≡ length (process q t))
        × (s.dead_count ≡ 0)
  unfolding retry
  retry_counts q handler clock t = retry_loop-counts q handler clock 0 (process q t) t
