-- ===== src/Canary/Controller.antt =====
-- proxy/app/model_evolution/canary_controller.py: the state of the controller and its methods.
use rag_system.Base.{
  ℕ, ◌+◌, ◌-◌, ◌*◌, ◌==◌, leb, ltb, min, Bool, true, false, ◌&&◌, ◌||◌, String, str_eq, none, some,
  List, [], ◌∷◌, ◌++◌, if◌then◌else◌,
}
use rag_system.Base.Dict
use rag_system.Base.Dict.{Dict}

pub data CanaryPhase : Type 0 where
  idle ramp_5 ramp_25 ramp_50 ramp_75 full rolled_back : CanaryPhase

-- 1.0
abbrev pub one : ℕ
one = 10000

-- A threshold is a bound and the name of a comparison.
pub record CanaryConfig : Type 0 where
  pub stable_version : String
  pub canary_version : String
  pub canary_percent : ℕ
  pub min_samples : ℕ
  pub rollback_thresholds : Dict (ℕ × String)
  pub cooldown_seconds : ℕ

abbrev pub default_thresholds : Dict (ℕ × String)
default_thresholds = ("error_rate", (500, "gt")) ∷ ("p95_latency_ms", (10000 * one, "gt")) ∷ []

-- `CanaryConfig(model_name=model_name)`
abbrev pub default_config : CanaryConfig
default_config = record {
  stable_version = "baseline";
  canary_version = "";
  canary_percent = 0;
  min_samples = 100;
  rollback_thresholds = default_thresholds;
  cooldown_seconds = 3600;
}

pub record Outcomes : Type 0 where
  pub success : ℕ
  pub error : ℕ

abbrev pub no_outcomes : Outcomes
no_outcomes = record { success = 0; error = 0 }

pub record CanaryController : Type 0 where
  pub configs : Dict CanaryConfig
  pub phase : Dict CanaryPhase
  pub phase_started_at : Dict ℕ
  pub rollback_cooldown_until : Dict ℕ
  pub stats : Dict (Dict Outcomes)
  pub latencies : Dict (Dict (List ℕ))

-- `d.get(key, default)`
abbrev pub get_or {ℓ} : {V : Type ℓ} → String → Dict V → V → V
get_or key d default = elim (Dict.get key d) [ none ↦ default | some v ↦ v ]

unfoldable pub infer_phase : ℕ → CanaryPhase
infer_phase percent =
    if leb percent 0
    then idle
    else if ltb percent 500
    then ramp_5
    else if ltb percent 2500
    then ramp_25
    else if ltb percent 5000
    then ramp_50
    else if ltb percent 7500
    then ramp_75
    else full

-- `false` is the raise of `ValueError`.
unfoldable pub set_split : String → ℕ → CanaryController → Bool × CanaryController
unfolding infer_phase
set_split model_name canary_percent c =
    if leb canary_percent one
    then (let config = get_or model_name c.configs default_config in
        let phase =
          if canary_percent == 0
          then idle
          else if leb one canary_percent
          then full
          else infer_phase canary_percent in
        (
          true,
          record c {
            configs =
                Dict.put model_name (record config { canary_percent = canary_percent }) c.configs;
            phase = Dict.put model_name phase c.phase;
          },
        ))
    else (false, c)

-- `rollback_thresholds or {...}`: none and the empty dictionary give the defaults.
unfoldable pub thresholds_or : Dict (ℕ × String) → Dict (ℕ × String)
thresholds_or [] = default_thresholds
thresholds_or (t ∷ ts) = t ∷ ts

unfoldable pub configure : String → CanaryConfig → ℕ → CanaryController → CanaryController
unfolding infer_phase thresholds_or
configure model_name given now c =
    let config = record given { rollback_thresholds = thresholds_or given.rollback_thresholds } in
    record c {
      configs = Dict.put model_name config c.configs;
      phase =
          Dict.put model_name
            (if given.canary_percent == 0 then idle else infer_phase given.canary_percent) c.phase;
      phase_started_at = Dict.put model_name now c.phase_started_at;
    }

pub data Target : Type 0 where
  stable canary : Target

abbrev pub target_name : Target → String
target_name stable = "stable"
target_name canary = "canary"

-- `draw` is the ten-thousandth in which `random()` falls.
unfoldable pub route : String → ℕ → ℕ → CanaryController → Target
route model_name now draw c = elim (Dict.get model_name c.configs) [
  | none ↦ stable
  | some config ↦
      let canary_percent =
        if ltb now (get_or model_name c.rollback_cooldown_until 0)
        then 0
        else config.canary_percent in
      if ltb draw canary_percent then canary else stable
]

unfoldable pub add_outcome : Bool → Outcomes → Outcomes
add_outcome true o = record o { success = o.success + 1 }
add_outcome false o = record o { error = o.error + 1 }

unfoldable pub record_result : String → String → Bool → ℕ → CanaryController → CanaryController
unfolding add_outcome
record_result model_name target success latency_ms c =
    let of_model = get_or model_name c.stats [] in
    let outcomes = add_outcome success (get_or target of_model no_outcomes) in
    let delays = get_or model_name c.latencies [] in
    record c {
      stats = Dict.put model_name (Dict.put target outcomes of_model) c.stats;
      latencies =
          if ltb 0 latency_ms
          then Dict.put model_name
              (Dict.put target (get_or target delays [] ++ latency_ms ∷ []) delays) c.latencies
          else c.latencies;
    }

-- The outcomes of one target, as `get_metrics` and `should_rollback` read them.
unfoldable pub outcomes_of : String → String → CanaryController → Outcomes
outcomes_of model_name target c = get_or target (get_or model_name c.stats []) no_outcomes

abbrev pub total_of : Outcomes → ℕ
total_of o = o.success + o.error

-- `comparator(errors / total, threshold)`, with the division moved to the other side; the rate of no
-- requests is 0.
unfoldable pub breaches : String → Outcomes → ℕ → Bool
breaches comparison o threshold =
    let rate = o.error * one in
    let bound = threshold * (if total_of o == 0 then 1 else total_of o) in
    if str_eq comparison "gt"
    then ltb bound rate
    else if str_eq comparison "gte"
    then leb bound rate
    else if str_eq comparison "lt"
    then ltb rate bound
    else if str_eq comparison "lte"
    then leb rate bound
    else false

-- The loop over the thresholds: only `error_rate` has a value.
unfoldable pub any_breach : Outcomes → Dict (ℕ × String) → Bool
unfolding breaches
any_breach o [] = false
any_breach o ((metric_name, (threshold, comparison)) ∷ ts) =
    str_eq metric_name "error_rate" && breaches comparison o threshold || any_breach o ts

abbrev pub is_ramp : CanaryPhase → Bool
is_ramp idle = false
is_ramp full = false
is_ramp rolled_back = false
is_ramp _ = true

unfoldable pub should_rollback : String → ℕ → CanaryController → Bool
unfolding outcomes_of any_breach
should_rollback model_name now c = elim (Dict.get model_name c.configs) [
  | none ↦ false
  | some config ↦
      let o = outcomes_of model_name "canary" c in
      if is_ramp (get_or model_name c.phase idle)
      then (if ltb now (get_or model_name c.rollback_cooldown_until 0)
          then false
          else if ltb (total_of o) config.min_samples
          then false
          else any_breach o config.rollback_thresholds)
      else false
]

unfoldable pub rollback : String → ℕ → CanaryController → CanaryController
rollback model_name now c =
    let config = get_or model_name c.configs default_config in
    record c {
      configs = Dict.put model_name (record config { canary_percent = 0 }) c.configs;
      phase = Dict.put model_name rolled_back c.phase;
      rollback_cooldown_until =
          Dict.put model_name (now + config.cooldown_seconds) c.rollback_cooldown_until;
    }

unfoldable pub promote : String → CanaryController → CanaryController
promote model_name c = elim (Dict.get model_name c.configs) [
  | none ↦ c
  | some config ↦ record c {
    configs =
        Dict.put model_name
          (record config {
            canary_percent = one;
            stable_version = config.canary_version;
            canary_version = "";
          })
          c.configs;
    phase = Dict.put model_name full c.phase;
  }
]

unfoldable pub get_split : String → CanaryController → ℕ × ℕ
get_split model_name c = elim (Dict.get model_name c.configs) [
  | none ↦ (one, 0)
  | some config ↦ let cp = min one config.canary_percent in (one - cp, cp)
]

-- `reset` of one model
unfoldable pub reset : String → CanaryController → CanaryController
reset model_name c = record {
  configs = Dict.remove model_name c.configs;
  phase = Dict.remove model_name c.phase;
  phase_started_at = Dict.remove model_name c.phase_started_at;
  rollback_cooldown_until = Dict.remove model_name c.rollback_cooldown_until;
  stats = Dict.remove model_name c.stats;
  latencies = Dict.remove model_name c.latencies;
}
