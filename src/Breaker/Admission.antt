-- ===== src/Breaker/Admission.antt =====
-- proxy/app/shared/circuit_breaker.py: when a call is let through, and what it does to the breaker.
use rag_system.Base.{ℕ, ◌+◌, ◌≤◌, ◌<◌, ◌≡◌, ◌⊎◌, true, arith}
use rag_system.Breaker.{
  CircuitBreaker, closed, opened, half_open, check_and_enter, Outcome, returned, open_error, raised,
  call_sync,
}

-- The rule in the words of the class: closed, or open for the whole cooldown with a trial call to
-- give, or half-open with a trial call left.
abbrev pub Admits : ℕ → CircuitBreaker → Type 0
Admits now b =
    (b.state ≡ closed)
    ⊎ ((b.state ≡ opened) × (b.opened_at + b.cooldown_seconds ≤ now) × (0 < b.half_open_max))
    ⊎ ((b.state ≡ half_open) × (b.half_open_calls < b.half_open_max))

-- A call is let through exactly when the rule of the class admits it.
pub check_and_enter-Admits :
    (now : ℕ) (b : CircuitBreaker)
    → ((check_and_enter now b).0 ≡ true → Admits now b)
      × (Admits now b → (check_and_enter now b).0 ≡ true)
unfolding check_and_enter
check_and_enter-Admits now b = (ground arith, ground arith)

module _ {A E : Type 0} where
  -- The breaker behind a trial call.
  abbrev pub Decided : ℕ → Outcome A E → CircuitBreaker → Type 0
  Decided at (returned a) b = (b.state ≡ closed) × (b.failure_count ≡ 0)
  Decided at open_error b = (b.state ≡ half_open) × (b.half_open_calls ≡ 1)
  Decided at (raised e) b = (b.state ≡ opened) × (b.opened_at ≡ at)

  -- After the cooldown one trial call decides: a result closes the breaker and clears its count, and
  -- an exception opens it again, for a cooldown that begins when the call failed.
  pub call_sync_recovery :
      (now t₁ t₂ : ℕ) (result : Outcome A E) (b : CircuitBreaker)
      → b.state ≡ opened
      → b.opened_at + b.cooldown_seconds ≤ now
      → 0 < b.half_open_max
      → let (r, b') = call_sync now t₁ t₂ (λ c. (result, c)) b in
        (r ≡ result) × Decided t₂ result b'
  unfolding call_sync
  call_sync_recovery now t₁ t₂ (returned a) b h p q = ground arith
  call_sync_recovery now t₁ t₂ open_error b h p q = ground arith
  call_sync_recovery now t₁ t₂ (raised e) b h p q = ground arith
