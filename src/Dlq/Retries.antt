-- ===== src/Dlq/Retries.antt =====
-- proxy/app/shared/dlq.py: what `retry` does to every message of its queue, and what it reports.
use mathlib.Core.Path.{subst, sym, ◌∙◌}
use rag_system.Base.{
  ℕ, ◌+◌, ◌==◌, Bool, ◌&&◌, String, str_eq, eq_iff, Option, none, some, List, [], ◌∷◌, ◌≡◌, ◌≢◌,
  refl, arith, if◌then◌else◌, leb, filter, All, Bool-cases, inl, inr, Option-cases,
}
use rag_system.Dlq.Queue.{
  DlqMessage, Table, DeadLetterQueue, is_pending, find, get, ack, nacked, nack, insert_created,
  by_created, retry_loop, retry, process,
}
use rag_system.Dlq.Ids.{IsValid, Distinct, Distinct-filter, find-filter}
use rag_system.Dlq.Lookup.{get-nack, find-id}

module _ {P : Type 0} where
  All-insert :
      (Q : DlqMessage P → Type 0) (m : DlqMessage P) (ms : List (DlqMessage P))
      → Q m
      → All Q ms
      → All Q (insert_created m ms)
  unfolding insert_created
  All-insert Q m [] q h = (q, tt)
  All-insert Q m (k ∷ ks) q h = elim (Bool-cases (leb m.created_at k.created_at)) [
    | inl p ↦ rw p (q, h)
    | inr p ↦ rw p (h.0, All-insert Q m ks q h.1)
  ]

  Distinct-insert :
      (m : DlqMessage P) (ms : List (DlqMessage P))
      → Distinct (m ∷ ms)
      → Distinct (insert_created m ms)
  unfolding insert_created
  Distinct-insert m [] h = h
  Distinct-insert m (k ∷ ks) h = elim (Bool-cases (leb m.created_at k.created_at)) [
    | inl p ↦ rw p h
    | inr p ↦ rw p (
      All-insert (λ x. x.id ≢ k.id) m ks (λ e. h.0.0 (sym e)) h.1.0,
      Distinct-insert m ks (h.0.1, h.1.1),
    )
  ]

  find-insert :
      (j : ℕ) (n : String) (m : DlqMessage P) (ms : List (DlqMessage P))
      → All (λ k. k.id ≢ m.id) ms
      → find j n (insert_created m ms) ≡ find j n (m ∷ ms)
  unfolding insert_created find
  find-insert j n m [] h = refl
  find-insert j n m (k ∷ ks) h = ground (arith, find-insert j n m ks h.1, h.0)

  All-by_created :
      (Q : DlqMessage P → Type 0) (ms : List (DlqMessage P)) → All Q ms → All Q (by_created ms)
  unfolding by_created
  All-by_created Q [] h = tt
  All-by_created Q (m ∷ ms) h = All-insert Q m (by_created ms) h.0 (All-by_created Q ms h.1)

  Distinct-by_created : (ms : List (DlqMessage P)) → Distinct ms → Distinct (by_created ms)
  unfolding by_created
  Distinct-by_created [] h = tt
  Distinct-by_created (m ∷ ms) h =
      Distinct-insert m (by_created ms)
        (All-by_created (λ k. k.id ≢ m.id) ms h.0, Distinct-by_created ms h.1)

  find-by_created :
      (j : ℕ) (n : String) (ms : List (DlqMessage P))
      → Distinct ms
      → find j n (by_created ms) ≡ find j n ms
  unfolding by_created find
  find-by_created j n [] h = refl
  find-by_created j n (m ∷ ms) h =
      find-insert j n m (by_created ms) (All-by_created (λ k. k.id ≢ m.id) ms h.0)
      ∙ ground (arith, find-by_created j n ms h.1)

  abbrev keep_if : (DlqMessage P → Bool) → Option (DlqMessage P) → Option (DlqMessage P)
  keep_if p none = none
  keep_if p (some m) = if p m then some m else none

  pub find-none :
      (j : ℕ) (n : String) (ms : List (DlqMessage P)) → All (λ k. k.id ≢ j) ms → find j n ms ≡ none
  unfolding find
  find-none j n [] h = refl
  find-none j n (m ∷ ms) h = ground (arith, find-none j n ms h.1, h.0)

  find-none_of :
      (j i : ℕ) (n : String) (ms : List (DlqMessage P))
      → All (λ k. k.id ≢ i) ms
      → i ≡ j
      → find j n ms ≡ none
  find-none_of j i n ms h e = find-none j n ms (subst (λ x. All (λ k. k.id ≢ x) ms) e h)

  find-keep :
      (p : DlqMessage P → Bool) (j : ℕ) (n : String) (ms : List (DlqMessage P))
      → Distinct ms
      → find j n (filter p ms) ≡ keep_if p (find j n ms)
  unfolding find
  find-keep p j n [] h = refl
  find-keep p j n (m ∷ ms) h = ground (arith, find-keep p j n ms h.1, find-none_of j m.id n ms h.0)

  All-zip :
      (Q R S : DlqMessage P → Type 0)
      → ((m : DlqMessage P) → Q m → R m → S m)
      → (ms : List (DlqMessage P)) → All Q ms
      → All R ms
      → All S ms
  All-zip Q R S f [] a b = tt
  All-zip Q R S f (m ∷ ms) a b = (f m a.0 b.0, All-zip Q R S f ms a.1 b.1)

  All-filter_any :
      (keep : DlqMessage P → Bool) (Q : DlqMessage P → Type 0) (ms : List (DlqMessage P))
      → All Q ms
      → All Q (filter keep ms)
  All-filter_any keep Q [] h = tt
  All-filter_any keep Q (m ∷ ms) h = elim (Bool-cases (keep m)) [
    | inl p ↦ rw p (h.0, All-filter_any keep Q ms h.1)
    | inr p ↦ rw p (All-filter_any keep Q ms h.1)
  ]

  All-wanted :
      (q : DeadLetterQueue) (ms : List (DlqMessage P))
      → All
          (λ m. m.queue ≡ q.queue_name)
          (filter (λ m. str_eq m.queue q.queue_name && is_pending m.status) ms)
  All-wanted q [] = tt
  All-wanted q (m ∷ ms) = elim (Bool-cases (str_eq m.queue q.queue_name && is_pending m.status)) [
    | inl p ↦ rw p (ground (arith, eq_iff m.queue q.queue_name), All-wanted q ms)
    | inr p ↦ rw p (All-wanted q ms)
  ]

  All-found :
      (n : String) (ms : List (DlqMessage P))
      → Distinct ms
      → All (λ m. m.queue ≡ n → find m.id n ms ≡ some m) ms
  unfolding find
  All-found n [] d = tt
  All-found n (m ∷ ms) d = (
    λ e. ground (arith, eq_iff m.queue n),
    All-zip (λ k. k.id ≢ m.id) (λ k. k.queue ≡ n → find k.id n ms ≡ some k) _
        (λ k x y e. ground (arith, y e)) ms d.0 (All-found n ms d.1),
  )

  -- What `retry` makes of a message, by what its handler does with the payload.
  abbrev pub handled :
      DeadLetterQueue → (P → Option String) → ℕ → DlqMessage P → Option (DlqMessage P)
  handled q handler now m = elim (handler m.payload) [
    | none ↦ none
    | some error ↦ some (nacked q m error now m)
  ]

  abbrev after :
      DeadLetterQueue
      → (P → Option String)
      → ℕ
      → Option (DlqMessage P)
      → Option (DlqMessage P)
      → Option (DlqMessage P)
  after q handler now none old = old
  after q handler now (some m) old = handled q handler now m

  -- The rows of the query stand in the table as they were read.
  abbrev Present : DeadLetterQueue → List (DlqMessage P) → Table P → Type 0
  Present q ms t = All (λ m. get q m.id t ≡ some m) ms

  -- The place of an id in a list
  abbrev pub place : ℕ → List (DlqMessage P) → ℕ
  place j [] = 0
  place j (m ∷ ms) = if m.id == j then 0 else place j ms + 1

  module _ (q : DeadLetterQueue) (handler : ℕ → P → Option String) (clock : ℕ → ℕ) where
    -- Round `i` of the loop, on the table.
    abbrev pub round : ℕ → DlqMessage P → Table P → Table P
    round i m t = elim (handler i m.payload) [
      | none ↦ (ack q m.id t).1
      | some error ↦ (nack q m.id error (clock i) t).1
    ]

    get-round :
        (i : ℕ) (m : DlqMessage P) (t : Table P) (j : ℕ)
        → get q m.id t ≡ some m
        → get q j (round i m t)
          ≡ (if m.id == j then handled q (handler i) (clock i) m else get q j t)
    unfolding get ack
    get-round i m t j h = elim (Option-cases (handler i m.payload)) [
      | inl e ↦ ground (arith, e, find-filter m.id j q.queue_name t.rows)
      | inr (error, e) ↦ ground (arith, e, h, get-nack q t m.id j error (clock i))
    ]

    Present-round :
        (i : ℕ) (m : DlqMessage P) (ms : List (DlqMessage P)) (t : Table P)
        → get q m.id t ≡ some m
        → All (λ k. k.id ≢ m.id) ms
        → Present q ms t
        → Present q ms (round i m t)
    Present-round i m [] t h d p = tt
    Present-round i m (k ∷ ks) t h d p =
        (get-round i m t k.id h ∙ ground (arith, d.0, p.0), Present-round i m ks t h d.1 p.1)

    pub table-loop :
        (i : ℕ) (m : DlqMessage P) (ms : List (DlqMessage P)) (t : Table P)
        → (retry_loop q handler clock i (m ∷ ms) t).1
          ≡ (retry_loop q handler clock (i + 1) ms (round i m t)).1
    unfolding retry_loop
    table-loop i m ms t = ground arith

    head_or_later :
        (i : ℕ) (m : DlqMessage P) (ms : List (DlqMessage P)) (j : ℕ)
        (now old : Option (DlqMessage P))
        → All (λ k. k.id ≢ m.id) ms
        → m.queue ≡ q.queue_name
        → now ≡ (if m.id == j then handled q (handler i) (clock i) m else old)
        → after q
            (handler (i + 1 + place j ms))
            (clock (i + 1 + place j ms))
            (find j q.queue_name ms)
            now
          ≡ after q
              (handler (i + place j (m ∷ ms)))
              (clock (i + place j (m ∷ ms)))
              (find j q.queue_name (m ∷ ms))
              old
    unfolding find
    head_or_later i m ms j now old d mine same = elim (Bool-cases (m.id == j)) [
      | inl here ↦
          let stays : i + 0 ≡ i = omega arith in
          rw (here, stays)
            (ground (
              arith,
              here,
              same,
              find-none_of j m.id q.queue_name ms d,
              mine,
              eq_iff m.queue q.queue_name,
            ))
      | inr later ↦
          let moved : i + (place j ms + 1) ≡ i + 1 + place j ms = omega arith in
          rw (later, moved) (ground (arith, later, same))
    ]

    get-loop :
        (i : ℕ) (ms : List (DlqMessage P)) (t : Table P) (j : ℕ)
        → Distinct ms
        → All (λ m. m.queue ≡ q.queue_name) ms
        → Present q ms t
        → get q j (retry_loop q handler clock i ms t).1
          ≡ after q
              (handler (i + place j ms))
              (clock (i + place j ms))
              (find j q.queue_name ms)
              (get q j t)
    get-loop i [] t j d mine p = unfold retry_loop find in refl
    get-loop i (m ∷ ms) t j d mine p =
        let same = get-round i m t j p.0 in
        let rest =
          get-loop (i + 1) ms (round i m t) j d.1 mine.1 (Present-round i m ms t p.0 d.0 p.1) in
        rw (table-loop i m ms t)
          (rest ∙ head_or_later i m ms j (get q j (round i m t)) (get q j t) d.0 mine.0 same)

    abbrev wanted : DlqMessage P → Bool
    wanted m = str_eq m.queue q.queue_name && is_pending m.status

    -- What round `i` of `retry` makes of what `get` finds.
    abbrev pub retried : ℕ → Option (DlqMessage P) → Option (DlqMessage P)
    retried i none = none
    retried i (some m) = if is_pending m.status then handled q (handler i) (clock i) m else some m

    after-keep :
        (i : ℕ) (found : Option (DlqMessage P))
        → ((m : DlqMessage P) → found ≡ some m → m.queue ≡ q.queue_name)
        → after q (handler i) (clock i) (keep_if wanted found) found ≡ retried i found
    after-keep i none h = refl
    after-keep i (some m) h = ground (arith, h m refl, eq_iff m.queue q.queue_name)

    pub get-retry_own :
        (t : Table P) (j : ℕ)
        → IsValid t
        → get q j (retry q handler clock t).1 ≡ retried (place j (process q t)) (get q j t)
    unfolding retry process
    get-retry_own t j v =
        let ms = filter wanted t.rows in
        let d = Distinct-filter wanted t.rows v.distinct in
        let there : All (λ m. m.queue ≡ q.queue_name → get q m.id t ≡ some m) ms =
          All-filter_any wanted _ t.rows (unfold get in All-found q.queue_name t.rows v.distinct) in
        let mine : All (λ m. m.queue ≡ q.queue_name) ms = All-wanted q t.rows in
        let from_zero : 0 + place j (by_created ms) ≡ place j (by_created ms) = omega arith in
        get-loop 0 (by_created ms) t j (Distinct-by_created ms d)
          (All-by_created (λ m. m.queue ≡ q.queue_name) ms mine)
          (All-by_created (λ m. get q m.id t ≡ some m) ms
            (All-zip _ _ _ (λ m x y. x y) ms there mine))
        ∙ rw
            (
              from_zero,
              find-by_created j q.queue_name ms d,
              find-keep wanted j q.queue_name t.rows v.distinct,
            )
            (unfold get in
              after-keep (place j (by_created ms)) (find j q.queue_name t.rows)
                (λ m e. (find-id j q.queue_name m t.rows e).1))

  keep-wanted :
      (q : DeadLetterQueue) (found : Option (DlqMessage P))
      → ((m : DlqMessage P) → found ≡ some m → m.queue ≡ q.queue_name)
      → keep_if (λ m. str_eq m.queue q.queue_name && is_pending m.status) found
        ≡ keep_if (λ m. is_pending m.status) found
  keep-wanted q none h = refl
  keep-wanted q (some m) h = ground (arith, h m refl, eq_iff m.queue q.queue_name)
