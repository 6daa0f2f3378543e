-- ===== src/Dlq/Queue.antt =====
-- proxy/app/shared/dlq.py: the operations of `DeadLetterQueue`, over one table that several queues
-- share.
use rag_system.Base.{
  ℕ, ◌+◌, ◌-◌, ◌^◌, ◌==◌, leb, Bool, true, false, ◌&&◌, not, String, str_eq, Option, none, some,
  List, [], ◌∷◌, ◌++◌, if◌then◌else◌, filter, count, any,
}

-- Every row is inserted as 'pending', and `nack` writes 'pending' or 'dead'; `failed` stands for
-- the status that `stats` reports besides.
pub data Status : Type 0 where
  pending dead failed : Status

abbrev pub is_pending : Status → Bool
is_pending pending = true
is_pending _ = false

abbrev pub is_dead : Status → Bool
is_dead dead = true
is_dead _ = false

abbrev pub same_status : Status → Status → Bool
same_status pending pending = true
same_status dead dead = true
same_status failed failed = true
same_status _ _ = false

pub record DlqMessage (P : Type 0) : Type 0 where
  pub id : ℕ
  pub queue : String
  pub payload : P
  pub error : String
  pub retry_count : ℕ
  pub max_retries : ℕ
  pub status : Status
  pub created_at : ℕ
  pub last_error_at : ℕ
  pub next_retry_at : ℕ

-- `last_id` is what AUTOINCREMENT keeps: the largest id ever given.
pub record Table (P : Type 0) : Type 0 where
  pub rows : List (DlqMessage P)
  pub last_id : ℕ

-- The queue object: its name, its limit, and the base of its backoff in ticks.
pub record DeadLetterQueue : Type 0 where
  pub queue_name : String
  pub max_retries : ℕ
  pub backoff_base : ℕ

-- The counts that `retry` returns.
pub record RetryStats : Type 0 where
  pub processed : ℕ
  pub failed_handling : ℕ
  pub dead_count : ℕ
  pub total : ℕ

-- The counts that `stats` returns.
pub record QueueStats : Type 0 where
  pub total : ℕ
  pub pending_count : ℕ
  pub failed_count : ℕ
  pub dead_count : ℕ

-- `if max_retries is None: max_retries = self.max_retries`
abbrev pub limit_or : Option ℕ → ℕ → ℕ
limit_or none default = default
limit_or (some n) default = n

module _ {P : Type 0} where
  -- `WHERE id = ? AND queue = ?`
  abbrev pub matches : ℕ → String → DlqMessage P → Bool
  matches message_id name m = m.id == message_id && str_eq m.queue name

  unfoldable pub find : ℕ → String → List (DlqMessage P) → Option (DlqMessage P)
  find message_id name [] = none
  find message_id name (m ∷ ms) =
      if matches message_id name m then some m else find message_id name ms

  abbrev pub map_rows : (DlqMessage P → DlqMessage P) → List (DlqMessage P) → List (DlqMessage P)
  map_rows f [] = []
  map_rows f (m ∷ ms) = f m ∷ map_rows f ms

  unfoldable pub insert_created : DlqMessage P → List (DlqMessage P) → List (DlqMessage P)
  insert_created m [] = m ∷ []
  insert_created m (k ∷ ks) =
      if leb m.created_at k.created_at then m ∷ k ∷ ks else k ∷ insert_created m ks

  -- `ORDER BY created_at ASC`: rows of equal time stay in the order of the table.
  unfoldable pub by_created : List (DlqMessage P) → List (DlqMessage P)
  unfolding insert_created
  by_created [] = []
  by_created (m ∷ ms) = insert_created m (by_created ms)

  module _ (q : DeadLetterQueue) where
    -- The row that `add` inserts; `limit` is the per-message override.
    unfoldable pub added : P → String → Option ℕ → ℕ → Table P → DlqMessage P
    added payload error limit now t = record {
      id = t.last_id + 1;
      queue = q.queue_name;
      payload = payload;
      error = error;
      retry_count = 0;
      max_retries = limit_or limit q.max_retries;
      status = pending;
      created_at = now;
      last_error_at = now;
      next_retry_at = now;
    }

    unfoldable pub add : P → String → Option ℕ → ℕ → Table P → ℕ × Table P
    unfolding added
    add payload error limit now t =
        let m = added payload error limit now t in
        (m.id, record { rows = t.rows ++ m ∷ []; last_id = m.id })

    unfoldable pub get : ℕ → Table P → Option (DlqMessage P)
    unfolding find
    get message_id t = find message_id q.queue_name t.rows

    unfoldable pub ack : ℕ → Table P → Bool × Table P
    ack message_id t =
        let hit = matches message_id q.queue_name in
        (any hit t.rows, record t { rows = filter (λ m. not (hit m)) t.rows })

    -- The row as `nack` writes it. The new count and status are those of the row that was read,
    -- and the UPDATE is by id alone.
    unfoldable pub nacked : DlqMessage P → String → ℕ → DlqMessage P → DlqMessage P
    nacked read error now m =
        let retry_count = read.retry_count + 1 in
        let is_over = leb read.max_retries retry_count in
        record m {
          retry_count = retry_count;
          status = if is_over then dead else pending;
          last_error_at = now;
          next_retry_at = if is_over then 0 else now + q.backoff_base ^ retry_count;
          error = if str_eq error "" then m.error else error;
        }

    -- `nack` behind its query, which gave no row or this one.
    unfoldable pub nack_row : Option (DlqMessage P) → ℕ → String → ℕ → Table P → Bool × Table P
    unfolding nacked
    nack_row none message_id error now t = (false, t)
    nack_row (some read) message_id error now t = (
      true,
      record t {
        rows = map_rows (λ m. if m.id == message_id then nacked read error now m else m) t.rows;
      },
    )

    unfoldable pub nack : ℕ → String → ℕ → Table P → Bool × Table P
    unfolding find nack_row
    nack message_id error now t =
        nack_row (find message_id q.queue_name t.rows) message_id error now t

    unfoldable pub requeue : ℕ → ℕ → Table P → Bool × Table P
    requeue message_id now t =
        let hit = λ (m : DlqMessage P). matches message_id q.queue_name m && is_dead m.status in
        (
          any hit t.rows,
          record t {
            rows =
                map_rows
                  (λ m.
                    if hit m
                    then record m { status = pending; retry_count = 0; next_retry_at = now }
                    else m)
                  t.rows;
          },
        )

    unfoldable pub process : Table P → List (DlqMessage P)
    unfolding by_created
    process t = by_created (filter (λ m. str_eq m.queue q.queue_name && is_pending m.status) t.rows)

    unfoldable pub clear : Option Status → Table P → ℕ × Table P
    clear status t =
        let hit = λ (m : DlqMessage P).
          str_eq m.queue q.queue_name
          && elim status [ none ↦ true | some s ↦ same_status m.status s ] in
        (count hit t.rows, record t { rows = filter (λ m. not (hit m)) t.rows })

    -- `retry` hands the payload of row `i` of its query to the handler, at a time; the result is
    -- the error, if it raised one.
    unfoldable pub retry_loop :
        (ℕ → P → Option String) → (ℕ → ℕ) → ℕ → List (DlqMessage P) → Table P → RetryStats × Table P
    unfolding ack nack
    retry_loop handler clock i [] t =
        (record { processed = 0; failed_handling = 0; dead_count = 0; total = 0 }, t)
    retry_loop handler clock i (m ∷ ms) t = elim (handler i m.payload) [
      | none ↦
          let (s, t') = retry_loop handler clock (i + 1) ms (ack m.id t).1 in
          (record s { processed = s.processed + 1; total = s.total + 1 }, t')
      | some error ↦
          let (s, t') = retry_loop handler clock (i + 1) ms (nack m.id error (clock i) t).1 in
          (record s { failed_handling = s.failed_handling + 1; total = s.total + 1 }, t')
    ]

    unfoldable pub retry : (ℕ → P → Option String) → (ℕ → ℕ) → Table P → RetryStats × Table P
    unfolding retry_loop process
    retry handler clock t = retry_loop handler clock 0 (process t) t

    unfoldable pub stats : Table P → QueueStats
    stats t =
        let mine = λ (m : DlqMessage P). str_eq m.queue q.queue_name in
        let total = count mine t.rows in
        let pending_count = count (λ m. mine m && is_pending m.status) t.rows in
        let dead_count = count (λ m. mine m && is_dead m.status) t.rows in
        record {
          total = total;
          pending_count = pending_count;
          failed_count = total - pending_count - dead_count;
          dead_count = dead_count;
        }
