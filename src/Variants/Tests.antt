-- ===== src/Variants/Tests.antt =====
-- Runs of the runner, and its theorems at concrete inputs.
use rag_system.Base.{String, some, [], ◌∷◌, ◌⊎◌, inl, inr, ◌≡◌, refl, arith}
use rag_system.Base.Dict.{get}
use rag_system.Canary.Controller.{CanaryController, CanaryConfig, default_config, stable, route}
use rag_system.Variants.Runner.{ModelVariant, AbTestRunner, Random, select_model_with_canary}
use rag_system.Variants.Selection.{InRange, Finds, wanted, select_model_with_canary-Finds}

-- The first place is always taken.
abbrev rng : Random
rng = record { choices = λ weights. 0; choice = λ n. 0 }

rng-InRange : InRange rng
rng-InRange = ((λ weights some_there. some_there), (λ n some_there. some_there))

abbrev old : ModelVariant
old = record { model_name = "llama"; adapter_version = "baseline"; weight = 1 }

abbrev new : ModelVariant
new = record { model_name = "llama"; adapter_version = "v2"; weight = 1 }

abbrev qwen : ModelVariant
qwen = record { model_name = "qwen"; adapter_version = "v2"; weight = 3 }

abbrev config : CanaryConfig
config = record default_config { canary_version = "v2"; canary_percent = 500 }

abbrev controller : CanaryController
controller = record {
  configs = ("llama", config) ∷ [];
  phase = [];
  phase_started_at = [];
  rollback_cooldown_until = [];
  stats = [];
  latencies = [];
}

abbrev runner : AbTestRunner
runner = record {
  canary_controller = some controller;
  variants = ("llama", old) ∷ ("qwen", qwen) ∷ [];
}

known : get "llama" controller.configs ≡ some config
unfolding get
known = refl

select_model_with_canary-Finds_example :
    let target = route "llama" 0 9000 controller in
    Finds
      (λ v.
        ((i : String) (w : ModelVariant)
          → get i runner.variants ≡ some w
          → w.adapter_version ≡ wanted target config
          → v.adapter_version ≡ wanted target config)
        × ((v ≡ old) ⊎ (v ≡ qwen)))
      (select_model_with_canary rng "llama" 0 9000 runner)
select_model_with_canary-Finds_example =
    select_model_with_canary-Finds rng rng-InRange (λ v. (v ≡ old) ⊎ (v ≡ qwen)) "llama" 0 9000
      runner controller config refl known (omega arith) (inl refl, (inr refl, tt))

-- The request that draws 9000 belongs to the stable version.
routed : route "llama" 0 9000 controller ≡ stable
unfolding route get
routed = refl
