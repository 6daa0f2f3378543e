-- ===== src/Variants/Runner.antt =====
-- proxy/app/shared/ab_test.py: ModelVariant and ABTestRunner. A result is nothing where ValueError is
-- raised.
use rag_system.Base.{
  ℕ, zero, suc, ◌+◌, ◌==◌, Bool, Option, none, some, List, [], ◌∷◌, String, str_eq, length, map,
  if◌then◌else◌,
}
use rag_system.Base.Dict.{Dict, get, put, remove}
use rag_system.Canary.Controller.{CanaryController, CanaryConfig, Target, stable, canary, route}

pub record ModelVariant : Type 0 where
  pub model_name : String
  pub adapter_version : String
  pub weight : ℕ

pub record AbTestRunner : Type 0 where
  pub canary_controller : Option CanaryController
  pub variants : Dict ModelVariant

-- The random generator: the place that `choices` takes with some weights, and `choice` of a number
pub record Random : Type 0 where
  pub choices : List ℕ → ℕ
  pub choice : ℕ → ℕ

unfoldable pub register_variant : ModelVariant → AbTestRunner → AbTestRunner
register_variant v r = record r { variants = put v.model_name v r.variants }

unfoldable pub remove_variant : String → AbTestRunner → AbTestRunner
remove_variant model_name r = record r { variants = remove model_name r.variants }

unfoldable pub clear_variants : AbTestRunner → AbTestRunner
clear_variants r = record r { variants = [] }

unfoldable pub total_weight : Dict ModelVariant → ℕ
total_weight [] = 0
total_weight ((n, v) ∷ pool) = v.weight + total_weight pool

-- The value at a place. Keys are distinct, so that it is the value of the key at the place.
unfoldable pub value_at : ℕ → Dict ModelVariant → Option ModelVariant
value_at n [] = none
value_at zero ((k, v) ∷ pool) = some v
value_at (suc n) ((k, v) ∷ pool) = value_at n pool

module _ (rng : Random) where
  -- A choice among variants of which there is one
  unfoldable pub choose_variant : Dict ModelVariant → Option ModelVariant
  unfolding total_weight value_at
  choose_variant pool =
      let by_weight = value_at (rng.choices (map (λ p. p.1.weight) pool)) pool in
      if total_weight pool == 0 then value_at (rng.choice (length pool)) pool else by_weight

  unfoldable pub select_model : AbTestRunner → Option ModelVariant
  unfolding choose_variant
  select_model r = elim r.variants [ [] ↦ none | p ∷ ps ↦ choose_variant (p ∷ ps) ]

-- Whether a variant has the version that a route wants
unfoldable pub serves : Target → CanaryConfig → ModelVariant → Bool
serves stable config v = str_eq v.adapter_version config.stable_version
serves canary config v = str_eq v.adapter_version config.canary_version

unfoldable pub pool_of :
    Target → CanaryConfig → Dict ModelVariant → Dict ModelVariant → Dict ModelVariant
unfolding serves
pool_of target config [] pool = pool
pool_of target config ((k, v) ∷ variants) pool =
    let without = pool_of target config variants pool in
    let with_it = pool_of target config variants (put v.model_name v pool) in
    if serves target config v then with_it else without

module _ (rng : Random) where
  unfoldable pub select_from_pool : AbTestRunner → Dict ModelVariant → Option ModelVariant
  select_from_pool r [] = select_model rng r
  select_from_pool r (p ∷ pool) = choose_variant rng (p ∷ pool)

  -- The time and the draw are those of `route`.
  unfoldable pub select_model_with_canary : String → ℕ → ℕ → AbTestRunner → Option ModelVariant
  select_model_with_canary model_name now draw r = elim r.variants [
    | [] ↦ none
    | p ∷ ps ↦ elim r.canary_controller [
      | none ↦ select_model rng r
      | some c ↦ elim (get model_name c.configs) [
        | none ↦ select_model rng r
        | some config ↦
            select_from_pool r (pool_of (route model_name now draw c) config r.variants [])
      ]
    ]
  ]
