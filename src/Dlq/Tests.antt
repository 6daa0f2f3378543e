-- ===== src/Dlq/Tests.antt =====
-- Runs of the dead letter queue, and its theorems at concrete inputs.
use mathlib.Core.Option
use rag_system.Base.{
  ℕ, ◌+◌, ◌==◌, ◌&&◌, ◌≢◌, String, str_eq, Option, none, some, if◌then◌else◌, [], ◌∷◌, ◌≡◌, refl,
  arith,
}
use rag_system.Dlq.Queue.{
  DlqMessage, Table, DeadLetterQueue, pending, dead, get, nack, process, retry,
}
use rag_system.Dlq.Retries.{retried, place}
use rag_system.Dlq.Others.{get-retry}
use rag_system.Dlq.Ids.{IsValid}
use rag_system.Dlq.Stats.{NoneFailed}

abbrev q : DeadLetterQueue
q = record { queue_name = "llm"; max_retries = 2; backoff_base = 2 }

abbrev fresh : Table String
fresh = record { rows = []; last_id = 0 }

fresh-IsValid : IsValid fresh
fresh-IsValid = record { distinct = tt; bounded = tt }

-- Two messages; the second is dead.
abbrev message : DlqMessage String
message = record {
  id = 1;
  queue = "llm";
  payload = "a";
  error = "timeout";
  retry_count = 0;
  max_retries = 2;
  status = pending;
  created_at = 5;
  last_error_at = 5;
  next_retry_at = 5;
}

abbrev over : DlqMessage String
over = record message { id = 2; payload = "b"; retry_count = 2; status = dead; created_at = 6 }

abbrev t : Table String
t = record { rows = message ∷ over ∷ []; last_id = 2 }

t-IsValid : IsValid t
t-IsValid = record {
  distinct = ((omega arith, tt), (tt, tt));
  bounded = (omega arith, (omega arith, tt));
}

t-NoneFailed : NoneFailed t
t-NoneFailed = (cc, (cc, tt))

get-nack_twice :
    Option.map (λ m. m.status) (get q 1 (nack q 1 "x" 9 (nack q 1 "" 7 t).1).1) ≡ some dead
unfolding get nack
get-nack_twice = refl

-- The handler refuses all in its second round and later.
abbrev handler : ℕ → String → Option String
handler i payload = if i == 0 && str_eq payload "a" then none else some "refused"

abbrev clock : ℕ → ℕ
clock i = 9 + i

get-retry_example :
    let t' = (retry q handler clock t).1 in
    (get q 1 t' ≡ retried q handler clock (place 1 (process q t)) (get q 1 t))
    × ((other : DeadLetterQueue) → q.queue_name ≢ other.queue_name → get other 1 t' ≡ get other 1 t)
get-retry_example = get-retry q handler clock t 1 t-IsValid
