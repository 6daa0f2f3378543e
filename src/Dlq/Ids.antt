-- ===== src/Dlq/Ids.antt =====
-- proxy/app/shared/dlq.py: what the table holds under an id, behind each operation.
use rag_system.Base.{
  ℕ, ◌+◌, ◌≤◌, ◌<◌, ◌==◌, Bool, not, String, str_eq, Option, none, some, List, [], ◌∷◌, ◌++◌, ◌≡◌,
  ◌≢◌, refl, arith, if◌then◌else◌, filter, All,
}
use mathlib.Core.Option
use mathlib.Core.Path.{subst, sym}
use rag_system.Base.{Bool-cases, inl, inr}
use rag_system.Dlq.Queue.{
  DlqMessage, Table, DeadLetterQueue, Status, matches, find, map_rows, add, ack, nack_row, nack,
  requeue, clear,
}

-- The operations that change the table, by any queue on it.
pub data Operation (P : Type 0) : Type 0 where
  add_op : P → String → Option ℕ → ℕ → Operation P
  ack_op : ℕ → Operation P
  nack_op : ℕ → String → ℕ → Operation P
  requeue_op : ℕ → ℕ → Operation P
  clear_op : Option Status → Operation P

module _ {P : Type 0} where
  -- No id stands twice, and none is above the largest that was given.
  abbrev pub Distinct : List (DlqMessage P) → Type 0
  Distinct [] = Unit
  Distinct (m ∷ ms) = All (λ k. k.id ≢ m.id) ms × Distinct ms

  pub record IsValid (t : Table P) : Type 0 where
    pub distinct : Distinct t.rows
    pub bounded : All (λ m. m.id ≤ t.last_id) t.rows

  pub find-append :
      (j : ℕ) (n : String) (m : DlqMessage P) (ms : List (DlqMessage P))
      → All (λ k. k.id < m.id) ms
      → find j n (ms ++ m ∷ [])
        ≡ (if j == m.id then (if str_eq m.queue n then some m else none) else find j n ms)
  unfolding find
  find-append j n m [] h = ground arith
  find-append j n m (k ∷ ms) h = ground (arith, find-append j n m ms h.1)

  pub find-filter :
      (i j : ℕ) (n : String) (ms : List (DlqMessage P))
      → find j n (filter (λ m. not (matches i n m)) ms) ≡ (if i == j then none else find j n ms)
  unfolding find
  find-filter i j n [] = ground arith
  find-filter i j n (m ∷ ms) = ground (arith, find-filter i j n ms)

  pub find-map_rows :
      (f : DlqMessage P → DlqMessage P)
      → ((m : DlqMessage P) → (f m).id ≡ m.id)
      → ((m : DlqMessage P) → (f m).queue ≡ m.queue)
      → (j : ℕ) (n : String) (ms : List (DlqMessage P))
      → find j n (map_rows f ms) ≡ Option.map f (find j n ms)
  unfolding find
  find-map_rows f p q j n [] = refl
  find-map_rows f p q j n (m ∷ ms) = ground (arith, p m, q m, find-map_rows f p q j n ms)

  All-map_rows :
      (f : DlqMessage P → DlqMessage P)
      → ((m : DlqMessage P) → (f m).id ≡ m.id)
      → (Q : ℕ → Type 0) (ms : List (DlqMessage P)) → All (λ m. Q m.id) ms
      → All (λ m. Q m.id) (map_rows f ms)
  All-map_rows f p Q [] h = tt
  All-map_rows f p Q (m ∷ ms) h = (subst Q (sym (p m)) h.0, All-map_rows f p Q ms h.1)

  Distinct-map_rows :
      (f : DlqMessage P → DlqMessage P)
      → ((m : DlqMessage P) → (f m).id ≡ m.id)
      → (ms : List (DlqMessage P)) → Distinct ms
      → Distinct (map_rows f ms)
  Distinct-map_rows f p [] h = tt
  Distinct-map_rows f p (m ∷ ms) h = (
    subst (λ i. All (λ k. k.id ≢ i) (map_rows f ms)) (sym (p m))
        (All-map_rows f p (λ i. i ≢ m.id) ms h.0),
    Distinct-map_rows f p ms h.1,
  )

  All-filter :
      (keep : DlqMessage P → Bool) (Q : ℕ → Type 0) (ms : List (DlqMessage P))
      → All (λ m. Q m.id) ms
      → All (λ m. Q m.id) (filter keep ms)
  All-filter keep Q [] h = tt
  All-filter keep Q (m ∷ ms) h = elim (Bool-cases (keep m)) [
    | inl p ↦ rw p (h.0, All-filter keep Q ms h.1)
    | inr p ↦ rw p (All-filter keep Q ms h.1)
  ]

  pub Distinct-filter :
      (keep : DlqMessage P → Bool) (ms : List (DlqMessage P))
      → Distinct ms
      → Distinct (filter keep ms)
  Distinct-filter keep [] h = tt
  Distinct-filter keep (m ∷ ms) h = elim (Bool-cases (keep m)) [
    | inl p ↦ rw p (All-filter keep (λ i. i ≢ m.id) ms h.0, Distinct-filter keep ms h.1)
    | inr p ↦ rw p (Distinct-filter keep ms h.1)
  ]

  All-append :
      (Q : ℕ → Type 0) (m : DlqMessage P) (ms : List (DlqMessage P))
      → All (λ k. Q k.id) ms
      → Q m.id
      → All (λ k. Q k.id) (ms ++ m ∷ [])
  All-append Q m [] h q = (q, tt)
  All-append Q m (k ∷ ms) h q = (h.0, All-append Q m ms h.1 q)

  Distinct-append :
      (m : DlqMessage P) (ms : List (DlqMessage P))
      → All (λ k. k.id < m.id) ms
      → Distinct ms
      → Distinct (ms ++ m ∷ [])
  Distinct-append m [] h d = (tt, tt)
  Distinct-append m (k ∷ ms) h d =
      (All-append (λ i. i ≢ k.id) m ms d.0 (omega arith), Distinct-append m ms h.1 d.1)

  All-mono :
      (Q R : ℕ → Type 0)
      → ((i : ℕ) → Q i → R i)
      → (ms : List (DlqMessage P)) → All (λ m. Q m.id) ms
      → All (λ m. R m.id) ms
  All-mono Q R f [] h = tt
  All-mono Q R f (m ∷ ms) h = (f m.id h.0, All-mono Q R f ms h.1)

  unfoldable pub apply : DeadLetterQueue → Operation P → Table P → Table P
  unfolding add ack nack requeue clear
  apply q (add_op payload error limit now) t = (add q payload error limit now t).1
  apply q (ack_op i) t = (ack q i t).1
  apply q (nack_op i error now) t = (nack q i error now t).1
  apply q (requeue_op i now) t = (requeue q i now t).1
  apply q (clear_op status) t = (clear q status t).1

  nack_row-IsValid :
      (q : DeadLetterQueue) (read : Option (DlqMessage P)) (i : ℕ) (error : String) (now : ℕ)
      (t : Table P)
      → IsValid t
      → IsValid (nack_row q read i error now t).1
  unfolding nack_row
  nack_row-IsValid q none i error now t h = h
  nack_row-IsValid q (some read) i error now t h = record {
    distinct = Distinct-map_rows _ (λ m. ground arith) t.rows h.distinct;
    bounded = All-map_rows _ (λ m. ground arith) (λ k. k ≤ t.last_id) t.rows h.bounded;
  }

  -- Every operation of every queue keeps the ids of the table distinct and within the largest
  -- that was given.
  pub apply-IsValid :
      (q : DeadLetterQueue) (op : Operation P) (t : Table P) → IsValid t → IsValid (apply q op t)
  unfolding apply
  apply-IsValid q (add_op payload error limit now) t h = record {
    distinct =
        Distinct-append _ t.rows
          (All-mono (λ i. i ≤ t.last_id) (λ i. i < t.last_id + 1) (λ i p. omega arith) t.rows
            h.bounded)
          h.distinct;
    bounded =
        All-append (λ i. i ≤ t.last_id + 1) _ t.rows
          (All-mono (λ i. i ≤ t.last_id) (λ i. i ≤ t.last_id + 1) (λ i p. omega arith) t.rows
            h.bounded)
          (omega arith);
  }
  apply-IsValid q (ack_op i) t h = record {
    distinct = Distinct-filter _ t.rows h.distinct;
    bounded = All-filter _ (λ i. i ≤ t.last_id) t.rows h.bounded;
  }
  apply-IsValid q (clear_op status) t h = record {
    distinct = Distinct-filter _ t.rows h.distinct;
    bounded = All-filter _ (λ i. i ≤ t.last_id) t.rows h.bounded;
  }
  apply-IsValid q (nack_op i error now) t h =
      nack_row-IsValid q (find i q.queue_name t.rows) i error now t h
  apply-IsValid q (requeue_op i now) t h = record {
    distinct = Distinct-map_rows _ (λ m. ground arith) t.rows h.distinct;
    bounded = All-map_rows _ (λ m. ground arith) (λ i. i ≤ t.last_id) t.rows h.bounded;
  }
