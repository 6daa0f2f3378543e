-- ===== src/Canary/Rollback.antt =====
-- proxy/app/model_evolution/canary_controller.py: the recorded outcomes, and when they call for a
-- rollback.
use rag_system.Base.{
  ℕ, ◌*◌, ◌≤◌, ◌<◌, ◌≡◌, Bool, true, false, String, eq_iff, some, List, [], ◌∷◌, refl, arith,
  Option-cases, inl, inr, if◌then◌else◌, ◌∙◌, ap, ltb,
}
use rag_system.Base.Dict
use rag_system.Base.Dict.{Dict, get-put, get-remove}
use rag_system.Canary.Controller.{
  CanaryConfig, CanaryController, CanaryPhase, idle, full, one, get_or, set_split, record_result,
  should_rollback, outcomes_of, Outcomes, total_of, any_breach, is_ramp, default_thresholds,
}

-- Requests of one model: the target, whether it succeeded, its latency.
abbrev pub Requests : Type 0
Requests = List (String × Bool × ℕ)

abbrev pub record_all : String → Requests → CanaryController → CanaryController
record_all name [] c = c
record_all name ((target, success, latency) ∷ rs) c =
    record_all name rs (record_result name target success latency c)

any_breach-default :
    (o : Outcomes)
    → (any_breach o default_thresholds ≡ true → total_of o * 500 < o.error * one)
      × (total_of o * 500 < o.error * one → any_breach o default_thresholds ≡ true)
unfolding any_breach
any_breach-default o = (ground arith, ground arith)

-- `should_rollback` by the values that it reads.
verdict : CanaryPhase → ℕ → ℕ → Outcomes → CanaryConfig → Bool
verdict phase now until o config =
    if is_ramp phase
    then (if ltb now until
        then false
        else if ltb (total_of o) config.min_samples
        then false
        else any_breach o config.rollback_thresholds)
    else false

should_rollback-verdict :
    (name : String) (now : ℕ) (config : CanaryConfig) (c : CanaryController)
    → Dict.get name c.configs ≡ some config
    → should_rollback name now c
      ≡ verdict
          (get_or name c.phase idle)
          now
          (get_or name c.rollback_cooldown_until 0)
          (outcomes_of name "canary" c)
          config
unfolding should_rollback verdict
should_rollback-verdict name now config c e = rw (e, should_rollback) refl

verdict-default :
    (phase : CanaryPhase) (now until : ℕ) (o : Outcomes) (config : CanaryConfig)
    → config.rollback_thresholds ≡ default_thresholds
    → (verdict phase now until o config ≡ true
        → (is_ramp phase ≡ true)
          × (until ≤ now)
          × (config.min_samples ≤ total_of o)
          × (total_of o * 500 < o.error * one))
      × ((is_ramp phase ≡ true)
            × (until ≤ now)
            × (config.min_samples ≤ total_of o)
            × (total_of o * 500 < o.error * one)
          → verdict phase now until o config ≡ true)
unfolding verdict
verdict-default phase now until o config d = (
  λ h. ground (arith, any_breach-default o, d, h),
  λ h. ground (arith, any_breach-default o, d, h),
)

-- With the default thresholds the answer is yes exactly if the model is in a ramp phase and in no
-- cooldown, has its minimum of canary requests, and more than 5 in 100 of them failed.
pub should_rollback-default :
    (name : String) (now : ℕ) (config : CanaryConfig) (c : CanaryController)
    → Dict.get name c.configs ≡ some config
    → config.rollback_thresholds ≡ default_thresholds
    → let o = outcomes_of name "canary" c in
      (should_rollback name now c ≡ true
        → (is_ramp (get_or name c.phase idle) ≡ true)
          × (get_or name c.rollback_cooldown_until 0 ≤ now)
          × (config.min_samples ≤ total_of o)
          × (total_of o * 500 < o.error * one))
      × ((is_ramp (get_or name c.phase idle) ≡ true)
            × (get_or name c.rollback_cooldown_until 0 ≤ now)
            × (config.min_samples ≤ total_of o)
            × (total_of o * 500 < o.error * one)
          → should_rollback name now c ≡ true)
should_rollback-default name now config c e d = rw (should_rollback-verdict name now config c e) (
    verdict-default (get_or name c.phase idle) now (get_or name c.rollback_cooldown_until 0)
      (outcomes_of name "canary" c) config d)

record_all-phase :
    (name : String) (rs : Requests) (c : CanaryController) → (record_all name rs c).phase ≡ c.phase
record_all-phase name [] c = refl
record_all-phase name ((target, success, latency) ∷ rs) c =
    record_all-phase name rs (record_result name target success latency c)
    ∙ (unfold record_result in refl)

should_rollback-full :
    (name : String) (now : ℕ) (c : CanaryController)
    → get_or name c.phase idle ≡ full
    → should_rollback name now c ≡ false
unfolding should_rollback
should_rollback-full name now c e = elim (Option-cases (Dict.get name c.configs)) [
  | inl p ↦ ground (arith, p)
  | inr (config, p) ↦ ground (arith, p, e)
]

-- A canary that is set to three quarters of the traffic or more is never rolled back on its
-- metrics, whatever outcomes are recorded.
pub no_rollback_above_75 :
    (name : String) (percent now : ℕ) (rs : Requests) (c : CanaryController)
    → percent ≤ one
    → 7500 ≤ percent
    → should_rollback name now (record_all name rs (set_split name percent c).1) ≡ false
no_rollback_above_75 name percent now rs c h k =
    let at_full : get_or name (set_split name percent c).1.phase idle ≡ full =
      unfold set_split in ground (arith, get-put name name full c.phase, eq_iff name name) in
    should_rollback-full name now (record_all name rs (set_split name percent c).1) (
      ap (λ d. get_or name d idle) (record_all-phase name rs (set_split name percent c).1)
      ∙ at_full)
