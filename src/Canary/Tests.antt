-- ===== src/Canary/Tests.antt =====
-- Runs of the canary controller, and its theorems at concrete inputs.
use rag_system.Base.{◌≡◌, true, false, [], ◌∷◌, refl, arith}
use rag_system.Base.Dict
use rag_system.Canary.Controller.{
  CanaryConfig, CanaryController, stable, default_config, configure, route, rollback, record_result,
  should_rollback,
}
use rag_system.Canary.Routing.{run, set_split_op, promote_op, rollback_holds}
use rag_system.Canary.Rollback.{Requests, record_all}

abbrev c₀ : CanaryController
c₀ = record {
  configs = [];
  phase = [];
  phase_started_at = [];
  rollback_cooldown_until = [];
  stats = [];
  latencies = [];
}

abbrev config : CanaryConfig
config = record default_config { canary_version = "v2"; canary_percent = 1000; min_samples = 2 }

abbrev started : CanaryController
started = configure "slm" config 0 c₀

abbrev requests : Requests
requests = ("canary", true, 20) ∷ ("stable", false, 0) ∷ ("canary", false, 90) ∷ []

rolls_back : should_rollback "slm" 5 (record_all "slm" requests started) ≡ true
unfolding configure should_rollback record_result Dict.get Dict.put
rolls_back = refl

rollback_holds_example :
    route "slm" 100 0
      (run (set_split_op "slm" 10000 ∷ promote_op "slm" ∷ []) (rollback "slm" 7 started))
    ≡ stable
unfolding configure Dict.get Dict.put
rollback_holds_example =
    rollback_holds "slm" 7 100 0 config (set_split_op "slm" 10000 ∷ promote_op "slm" ∷ []) started
      refl (omega arith)
