-- ===== src/Canary/Routing.antt =====
-- proxy/app/model_evolution/canary_controller.py: which requests reach the canary.
use rag_system.Base.{
  ℕ, ◌+◌, ◌≤◌, ◌<◌, ◌≡◌, Bool, String, eq_iff, some, List, [], ◌∷◌, refl, arith, Option-cases, inl,
  inr, ◌∙◌, ap,
}
use rag_system.Base.Dict
use rag_system.Base.Dict.{Dict, get-put, get-remove}
use rag_system.Canary.Controller.{
  CanaryConfig, CanaryController, stable, canary, one, get_or, set_split, configure, route,
  record_result, rollback, promote,
}

-- What may happen to a model between its rollback and the end of its cooldown, by any caller and
-- for any model.
pub data Operation : Type 0 where
  set_split_op : String → ℕ → Operation
  configure_op : String → CanaryConfig → ℕ → Operation
  record_op : String → String → Bool → ℕ → Operation
  promote_op : String → Operation

unfoldable pub apply : Operation → CanaryController → CanaryController
unfolding set_split configure record_result promote
apply (set_split_op name percent) c = (set_split name percent c).1
apply (configure_op name config now) c = configure name config now c
apply (record_op name target success latency) c = record_result name target success latency c
apply (promote_op name) c = promote name c

unfoldable pub run : List Operation → CanaryController → CanaryController
unfolding apply
run [] c = c
run (op ∷ ops) c = run ops (apply op c)

apply-cooldown :
    (op : Operation) (c : CanaryController)
    → (apply op c).rollback_cooldown_until ≡ c.rollback_cooldown_until
unfolding apply
apply-cooldown (set_split_op name percent) c = ground arith
apply-cooldown (configure_op name config now) c = refl
apply-cooldown (record_op name target success latency) c = refl
apply-cooldown (promote_op name) c = ground arith

run-cooldown :
    (ops : List Operation) (c : CanaryController)
    → (run ops c).rollback_cooldown_until ≡ c.rollback_cooldown_until
unfolding run
run-cooldown [] c = refl
run-cooldown (op ∷ ops) c = run-cooldown ops (apply op c) ∙ apply-cooldown op c

route-cooldown :
    (name : String) (now draw until : ℕ) (c : CanaryController)
    → get_or name c.rollback_cooldown_until 0 ≡ until
    → now < until
    → route name now draw c ≡ stable
unfolding route
route-cooldown name now draw until c e h = elim (Option-cases (Dict.get name c.configs)) [
  | inl p ↦ ground (arith, p)
  | inr (config, p) ↦ ground (arith, p, e)
]

-- From a rollback to the end of its cooldown every request of the model is served by the stable
-- version, whatever is configured, split, recorded or promoted in the meantime.
pub rollback_holds :
    (name : String) (at now draw : ℕ) (config : CanaryConfig) (ops : List Operation)
    (c : CanaryController)
    → Dict.get name c.configs ≡ some config
    → now < at + config.cooldown_seconds
    → route name now draw (run ops (rollback name at c)) ≡ stable
rollback_holds name at now draw config ops c e h =
    let until : get_or name (rollback name at c).rollback_cooldown_until 0
        ≡ at + config.cooldown_seconds =
      unfold rollback in
      ground (
        arith,
        e,
        get-put name name (at + config.cooldown_seconds) c.rollback_cooldown_until,
        eq_iff name name,
      ) in
    route-cooldown name now draw (at + config.cooldown_seconds) (run ops (rollback name at c))
      (ap (λ d. get_or name d 0) (run-cooldown ops (rollback name at c)) ∙ until) h

-- After a promotion outside a cooldown every request goes to the target `canary`, whose version is
-- by then the empty text: the promoted version is the stable one.
pub promote_routes :
    (name : String) (now draw : ℕ) (config : CanaryConfig) (c : CanaryController)
    → Dict.get name c.configs ≡ some config
    → get_or name c.rollback_cooldown_until 0 ≤ now
    → draw < one
    → (route name now draw (promote name c) ≡ canary)
      × ((config' : CanaryConfig) × (Dict.get name (promote name c).configs ≡ some config')
          × (config'.canary_version ≡ "")
          × (config'.stable_version ≡ config.canary_version))
unfolding route promote
promote_routes name now draw config c e h d =
    let config' : CanaryConfig = record config {
      canary_percent = one;
      stable_version = config.canary_version;
      canary_version = "";
    } in
    (
      ground (arith, e, get-put name name config' c.configs, eq_iff name name),
      (
        config',
        ground (arith, e, get-put name name config' c.configs, eq_iff name name),
        refl,
        refl,
      ),
    )
