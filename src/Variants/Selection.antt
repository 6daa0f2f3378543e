-- ===== src/Variants/Selection.antt =====
-- proxy/app/shared/ab_test.py: which variant is chosen for a request.
use mathlib.Core.Path.{subst}
use rag_system.Base.{
  ℕ, zero, suc, ◌<◌, ◌==◌, true, Option, none, some, List, [], ◌∷◌, String, str_eq, eq_iff, length,
  map, All, ◌≡◌, refl, ap, ◌∙◌, arith, Bool-cases, Option-cases, inl, inr,
}
use rag_system.Base.Dict.{Dict, get, put}
use rag_system.Canary.Controller.{CanaryController, CanaryConfig, Target, stable, canary, route}
use rag_system.Variants.Runner.{
  ModelVariant, AbTestRunner, Random, register_variant, total_weight, value_at, choose_variant,
  select_model, serves, pool_of, select_from_pool, select_model_with_canary,
}

-- The generator chooses one of the places that there are.
abbrev pub InRange : Random → Type 0
InRange rng =
    ((weights : List ℕ) → 0 < length weights → rng.choices weights < length weights)
    × ((n : ℕ) → 0 < n → rng.choice n < n)

-- A variant with a property is found.
abbrev pub Finds : (ModelVariant → Type 0) → Option ModelVariant → Type 0
Finds P o = (v : ModelVariant) × (o ≡ some v) × P v

abbrev pub AllVariants : (ModelVariant → Type 0) → Dict ModelVariant → Type 0
AllVariants P d = All (λ p. P p.1) d

value_at-Finds :
    (P : ModelVariant → Type 0) (n : ℕ) (d : Dict ModelVariant)
    → n < length d
    → AllVariants P d
    → Finds P (value_at n d)
unfolding value_at
value_at-Finds P n [] le h = ground (arith, le)
value_at-Finds P zero ((k, v) ∷ d) le (here, h) = (v, refl, here)
value_at-Finds P (suc n) ((k, v) ∷ d) le (here, h) = value_at-Finds P n d (omega (arith, le)) h

length-weights : (d : Dict ModelVariant) → length (map (λ p. p.1.weight) d) ≡ length d
length-weights [] = refl
length-weights ((k, v) ∷ d) = omega (arith, length-weights d)

module _ (rng : Random) (in_range : InRange rng) where
  choose_variant-Finds :
      (P : ModelVariant → Type 0) (d : Dict ModelVariant)
      → 0 < length d
      → AllVariants P d
      → Finds P (choose_variant rng d)
  unfolding choose_variant
  choose_variant-Finds P d some_there h =
      let weights = map (λ p. p.1.weight) d in
      elim (Bool-cases (total_weight d == 0)) [
        | inl weightless ↦
            rw weightless
              (value_at-Finds P (rng.choice (length d)) d (in_range.1 (length d) some_there) h)
        | inr weighted ↦ rw weighted (
            value_at-Finds P (rng.choices weights) d
              (omega (
                arith,
                in_range.0 weights (omega (arith, length-weights d, some_there)),
                length-weights d,
              ))
              h)
      ]

All-put :
    (P : ModelVariant → Type 0) (i : String) (v : ModelVariant) (d : Dict ModelVariant)
    → P v
    → AllVariants P d
    → AllVariants P (put i v d)
unfolding put
All-put P i v [] h hs = (h, tt)
All-put P i v ((j, w) ∷ d) h (here, hs) = elim (Bool-cases (str_eq j i)) [
  | inl same ↦ rw same (h, hs)
  | inr other ↦ rw other (here, All-put P i v d h hs)
]

-- The pool has registered variants that serve the route.
All-pool_of :
    (P : ModelVariant → Type 0) (target : Target) (config : CanaryConfig)
    (d pool : Dict ModelVariant)
    → AllVariants P d
    → AllVariants (λ v. (serves target config v ≡ true) × P v) pool
    → AllVariants (λ v. (serves target config v ≡ true) × P v) (pool_of target config d pool)
unfolding pool_of
All-pool_of P target config [] pool hs ps = ps
All-pool_of P target config ((k, v) ∷ d) pool (here, hs) ps =
    elim (Bool-cases (serves target config v)) [
      | inl good ↦ rw good (
          All-pool_of P target config d (put v.model_name v pool) hs (
            All-put (λ v. (serves target config v ≡ true) × P v) v.model_name v pool (good, here)
              ps))
      | inr bad ↦ rw bad (All-pool_of P target config d pool hs ps)
    ]

-- The version that a route wants
abbrev pub wanted : Target → CanaryConfig → String
wanted stable config = config.stable_version
wanted canary config = config.canary_version

serves_lem :
    (target : Target) (config : CanaryConfig) (v : ModelVariant)
    → (serves target config v ≡ true → v.adapter_version ≡ wanted target config)
      × (v.adapter_version ≡ wanted target config → serves target config v ≡ true)
unfolding serves
serves_lem stable config v = eq_iff v.adapter_version config.stable_version
serves_lem canary config v = eq_iff v.adapter_version config.canary_version

put_something : (i : String) (v : ModelVariant) (d : Dict ModelVariant) → 0 < length (put i v d)
unfolding put
put_something i v [] = omega arith
put_something i v ((j, w) ∷ d) = ground arith

pool_of_stays :
    (target : Target) (config : CanaryConfig) (d pool : Dict ModelVariant)
    → 0 < length pool
    → 0 < length (pool_of target config d pool)
unfolding pool_of
pool_of_stays target config [] pool h = h
pool_of_stays target config ((k, v) ∷ d) pool h = elim (Bool-cases (serves target config v)) [
  | inl good ↦
      rw good (
        pool_of_stays target config d (put v.model_name v pool) (put_something v.model_name v pool))
  | inr bad ↦ rw bad (pool_of_stays target config d pool h)
]

-- A registered variant that serves the route makes a pool.
pool_of-some :
    (target : Target) (config : CanaryConfig) (i : String) (w : ModelVariant)
    (d pool : Dict ModelVariant)
    → get i d ≡ some w
    → serves target config w ≡ true
    → 0 < length (pool_of target config d pool)
unfolding pool_of get
pool_of-some target config i w [] pool found good = ground (arith, found)
pool_of-some target config i w ((k, v) ∷ d) pool found good =
    elim (Bool-cases (serves target config v)) [
      | inl this ↦ rw this (
          pool_of_stays target config d (put v.model_name v pool)
            (put_something v.model_name v pool))
      | inr other ↦ elim (Bool-cases (str_eq k i)) [
        | inl same ↦ ground (arith, found, same, good, other)
        | inr apart ↦ rw other (pool_of-some target config i w d pool (rw apart at found) good)
      ]
    ]

first_of :
    (d : Dict ModelVariant)
    → 0 < length d
    → (p : String × ModelVariant) × (ps : Dict ModelVariant) × (d ≡ p ∷ ps)
first_of [] h = ground (arith, h)
first_of (p ∷ ps) h = (p, ps, refl)

module _ (rng : Random) (in_range : InRange rng) where
  select_from_pool-Finds :
      (P : ModelVariant → Type 0) (target : Target) (config : CanaryConfig) (r : AbTestRunner)
      (pool : Dict ModelVariant)
      → 0 < length r.variants
      → AllVariants P r.variants
      → AllVariants (λ v. (serves target config v ≡ true) × P v) pool
      → Finds
          (λ v. (0 < length pool → serves target config v ≡ true) × P v)
          (select_from_pool rng r pool)
  unfolding select_from_pool select_model
  select_from_pool-Finds P target config r [] some_there h ps =
      let (p, qs, split) = first_of r.variants some_there in
      let (v, found, here) =
        choose_variant-Finds rng in_range P (p ∷ qs) (omega arith)
          (subst (AllVariants P) split h) in
      (v, simp (select_model, split) found, ((λ some_left. ground (arith, some_left)), here))
  select_from_pool-Finds P target config r (p ∷ pool) some_there h ps =
      let (v, found, (good, here)) =
        choose_variant-Finds rng in_range (λ v. (serves target config v ≡ true) × P v) (p ∷ pool)
          (omega arith) ps in
      (v, found, ((λ some_left. good), here))

  chosen_from_pool :
      (model_name : String) (now draw : ℕ) (r : AbTestRunner) (c : CanaryController)
      (config : CanaryConfig) (p : String × ModelVariant) (qs : Dict ModelVariant)
      → r.canary_controller ≡ some c
      → get model_name c.configs ≡ some config
      → r.variants ≡ p ∷ qs
      → select_model_with_canary rng model_name now draw r
        ≡ select_from_pool rng r (pool_of (route model_name now draw c) config r.variants [])
  unfolding select_model_with_canary
  chosen_from_pool model_name now draw r c config p qs controlled known split =
      simp (select_model_with_canary, split, controlled, known) refl

  -- With a controller that knows the model, and a variant, a request gets a variant, where the
  -- generator chooses a place that there is. What holds of all registered variants holds of it, so
  -- that it is one of them, and it has the version of the request's route where any registered variant
  -- has that version.
  pub select_model_with_canary-Finds :
      (P : ModelVariant → Type 0) (model_name : String) (now draw : ℕ) (r : AbTestRunner)
      (c : CanaryController) (config : CanaryConfig)
      → r.canary_controller ≡ some c
      → get model_name c.configs ≡ some config
      → 0 < length r.variants
      → AllVariants P r.variants
      → let target = route model_name now draw c in
        Finds
          (λ v.
            ((i : String) (w : ModelVariant)
              → get i r.variants ≡ some w
              → w.adapter_version ≡ wanted target config
              → v.adapter_version ≡ wanted target config)
            × P v)
          (select_model_with_canary rng model_name now draw r)
  unfolding select_model_with_canary
  select_model_with_canary-Finds P model_name now draw r c config controlled known some_there h =
      let target = route model_name now draw c in
      let pool = pool_of target config r.variants [] in
      let (p, qs, split) = first_of r.variants some_there in
      let (v, found, good) =
        select_from_pool-Finds P target config r pool some_there h
          (All-pool_of P target config r.variants [] h tt) in
      let same : select_model_with_canary rng model_name now draw r ≡ select_from_pool rng r pool =
        chosen_from_pool model_name now draw r c config p qs controlled known split in
      (
        v,
        same ∙ found,
        (
          (λ i w there fits. (serves_lem target config v).0 (
              good.0 (
                pool_of-some target config i w r.variants [] there
                  ((serves_lem target config w).1 fits)))),
          good.1,
        ),
      )

  choose_only : (n : String) (v : ModelVariant) → choose_variant rng ((n, v) ∷ []) ≡ some v
  choose_only n v =
      let (x, found, same) =
        choose_variant-Finds rng in_range (λ x. x ≡ v) ((n, v) ∷ []) (omega arith) (refl, tt) in
      found ∙ ap some same

  select_only :
      (model_name n : String) (now draw : ℕ) (v : ModelVariant)
      (controller : Option CanaryController)
      → select_model_with_canary rng model_name now draw
          (record { canary_controller = controller; variants = (n, v) ∷ [] })
        ≡ some v
  unfolding select_model_with_canary select_model pool_of select_from_pool put
  select_only model_name n now draw v none = choose_only n v
  select_only model_name n now draw v (some c) = elim (Option-cases (get model_name c.configs)) [
    | inl unknown ↦ simp (select_model_with_canary, unknown) (choose_only n v)
    | inr (config, known) ↦ elim (Bool-cases (serves (route model_name now draw c) config v)) [
      | inl good ↦
          simp (select_model_with_canary, known, pool_of, good) (choose_only v.model_name v)
      | inr bad ↦ simp (select_model_with_canary, known, pool_of, bad) (choose_only n v)
    ]
  ]

  -- A variant that is registered under the name of the only one takes its place: every request gets
  -- it, whatever version its route has.
  pub registered_replaces :
      (model_name : String) (now draw : ℕ) (first second : ModelVariant)
      (controller : Option CanaryController)
      → second.model_name ≡ first.model_name
      → let empty : AbTestRunner = record { canary_controller = controller; variants = [] } in
        select_model_with_canary rng model_name now draw
          (register_variant second (register_variant first empty))
        ≡ some second
  unfolding register_variant put
  registered_replaces model_name now draw first second controller same =
      let taken : str_eq first.model_name second.model_name ≡ true =
        ground (arith, eq_iff first.model_name second.model_name, same) in
      rw taken (select_only model_name second.model_name now draw second controller)
