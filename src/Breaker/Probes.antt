-- ===== src/Breaker/Probes.antt =====
-- proxy/app/shared/circuit_breaker.py: the trial calls of a half-open breaker, and two ways in which
-- calls that overlap or nest get past the protocol.
use mathlib.Core.Path.{subst, sym, ap}
use rag_system.Base.{
  ℕ, suc, ◌+◌, ◌-◌, ◌≤◌, ◌<◌, ◌≡◌, Bool, true, false, List, [], ◌∷◌, arith, length, min,
  if◌then◌else◌, refl,
}
use native.Mathlib.Decide.{dec_lt}
use rag_system.Breaker.{
  CircuitBreaker, opened, half_open, success, check_and_enter, Outcome, open_error, call_sync,
}

-- Calls that enter one after the other, with none of them finished: how many are let through.
abbrev pub admitted : List ℕ → CircuitBreaker → ℕ × CircuitBreaker
admitted [] b = (0, b)
admitted (now ∷ ts) b =
    let (allowed, b') = check_and_enter now b in
    let (n, b'') = admitted ts b' in (if allowed then suc n else n, b'')

enter-half_open :
    (now : ℕ) (b : CircuitBreaker)
    → b.state ≡ half_open
    → b.half_open_calls < b.half_open_max
    → (check_and_enter now b).0 ≡ true
      × ((check_and_enter now b).1.state ≡ half_open)
      × ((check_and_enter now b).1.half_open_calls ≡ b.half_open_calls + 1)
      × ((check_and_enter now b).1.half_open_max ≡ b.half_open_max)
unfolding check_and_enter
enter-half_open now b h p = ground arith

-- A half-open breaker whose trial calls are all taken lets no call through.
enter-exhausted :
    (now : ℕ) (b : CircuitBreaker)
    → b.state ≡ half_open
    → b.half_open_max ≤ b.half_open_calls
    → check_and_enter now b ≡ (false, b)
unfolding check_and_enter
enter-exhausted now b h p = ground arith

admitted-exhausted :
    (ts : List ℕ) (b : CircuitBreaker)
    → b.state ≡ half_open
    → b.half_open_max ≤ b.half_open_calls
    → (admitted ts b).0 ≡ 0
admitted-exhausted [] b h p = refl
admitted-exhausted (now ∷ ts) b h p =
    ground (arith, enter-exhausted now b h p, admitted-exhausted ts b h p)

admitted-half_open :
    (ts : List ℕ) (b : CircuitBreaker)
    → b.state ≡ half_open
    → b.half_open_calls ≤ b.half_open_max
    → (admitted ts b).0 ≡ min (length ts) (b.half_open_max - b.half_open_calls)
admitted-half_open [] b h p = omega arith
admitted-half_open (now ∷ ts) b h p = elim (dec_lt b.half_open_calls b.half_open_max) [
  | yes q ↦
      ground (arith, enter-half_open now b h q, admitted-half_open ts (check_and_enter now b).1)
  | no q ↦ ground (arith, admitted-exhausted (now ∷ ts) b h (omega arith))
]

enter-cooled :
    (now : ℕ) (b : CircuitBreaker)
    → b.state ≡ opened
    → b.opened_at + b.cooldown_seconds ≤ now
    → 0 < b.half_open_max
    → (check_and_enter now b).0 ≡ true
      × ((check_and_enter now b).1.state ≡ half_open)
      × ((check_and_enter now b).1.half_open_calls ≡ 1)
      × ((check_and_enter now b).1.half_open_max ≡ b.half_open_max)
unfolding check_and_enter
enter-cooled now b h p q = ground arith

-- When the cooldown of an open breaker is over, of the calls that then come in before any of them
-- ends exactly the first `half_open_max` are let through.
pub probes_bounded :
    (now : ℕ) (ts : List ℕ) (b : CircuitBreaker)
    → b.state ≡ opened
    → b.opened_at + b.cooldown_seconds ≤ now
    → 0 < b.half_open_max
    → (admitted (now ∷ ts) b).0 ≡ min (length (now ∷ ts)) b.half_open_max
probes_bounded now ts b h p q =
    ground (arith, enter-cooled now b h p q, admitted-half_open ts (check_and_enter now b).1)

-- Calls one after the other, each of whose functions raises `CircuitBreakerOpenError`, as a
-- function does that uses another breaker which is open.
abbrev pub nested_errors : (A E : Type 0) → List ℕ → CircuitBreaker → CircuitBreaker
nested_errors A E [] b = b
nested_errors A E (now ∷ ts) b =
    nested_errors A E ts (call_sync {A = A} {E = E} now now now (λ c. (open_error, c)) b).1

call_sync-nested :
    (A E : Type 0) (now : ℕ) (b : CircuitBreaker)
    → (call_sync {A = A} {E = E} now now now (λ c. (open_error, c)) b).1 ≡ (check_and_enter now b).1
unfolding call_sync
call_sync-nested A E now b = ground arith

abbrev pub Exhausted : CircuitBreaker → Type 0
Exhausted c = (c.state ≡ half_open) × (c.half_open_max ≤ c.half_open_calls)

nested_errors-Exhausted :
    (A E : Type 0) (ts : List ℕ) (b : CircuitBreaker)
    → b.state ≡ half_open
    → b.half_open_calls ≤ b.half_open_max
    → b.half_open_max ≤ b.half_open_calls + length ts
    → Exhausted (nested_errors A E ts b)
nested_errors-Exhausted A E [] b h p q = (h, omega arith)
nested_errors-Exhausted A E (now ∷ ts) b h p q =
    subst (λ x. Exhausted (nested_errors A E ts x)) (sym (call_sync-nested A E now b))
      (elim (dec_lt b.half_open_calls b.half_open_max) [
        | yes r ↦
            let (x, y, z, w) = enter-half_open now b h r in
            nested_errors-Exhausted A E ts (check_and_enter now b).1 y (omega arith) (omega arith)
        | no r ↦
            let e : (check_and_enter now b).1 ≡ b =
              ap (λ (x : Bool × CircuitBreaker). x.1) (enter-exhausted now b h (omega arith)) in
            subst (λ x. Exhausted (nested_errors A E ts x)) (sym e)
              (nested_errors-Exhausted A E ts b h p (omega arith))
      ])

call_sync-exhausted :
    {A E : Type 0} (now t₁ t₂ : ℕ) (fn : CircuitBreaker → Outcome A E × CircuitBreaker)
    (b : CircuitBreaker)
    → b.state ≡ half_open
    → b.half_open_max ≤ b.half_open_calls
    → call_sync now t₁ t₂ fn b ≡ (open_error, b)
unfolding call_sync
call_sync-exhausted now t₁ t₂ fn b h p = ground arith

-- A half-open breaker whose trial calls all end by `CircuitBreakerOpenError` is stuck: it stays
-- half-open, and rejects every later call, whatever the time and the function.
pub nested_errors_stick :
    (A E : Type 0) (ts : List ℕ) (b : CircuitBreaker)
    → b.state ≡ half_open
    → b.half_open_calls ≤ b.half_open_max
    → b.half_open_max ≤ b.half_open_calls + length ts
    → let c = nested_errors A E ts b in
      (c.state ≡ half_open)
      × ((now t₁ t₂ : ℕ) (fn : CircuitBreaker → Outcome A E × CircuitBreaker)
          → call_sync now t₁ t₂ fn c ≡ (open_error, c))
nested_errors_stick A E ts b h p q =
    let (x, y) = nested_errors-Exhausted A E ts b h p q in
    (x, λ now t₁ t₂ fn. call_sync-exhausted now t₁ t₂ fn (nested_errors A E ts b) x y)

-- During the cooldown a call is rejected; but when a call that was let through before the breaker
-- opened reports its success, the next call is let through at that same time.
pub late_success :
    (now : ℕ) (b : CircuitBreaker)
    → b.state ≡ opened
    → now < b.opened_at + b.cooldown_seconds
    → ((check_and_enter now b).0 ≡ false) × ((check_and_enter now (success b)).0 ≡ true)
unfolding check_and_enter success
late_success now b h p = (ground arith, ground arith)
