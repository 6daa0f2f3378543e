-- ===== src/ModelRegistry/Operations.antt =====
-- proxy/app/model_evolution/model_registry.py: the invariant over the whole registry.
use mathlib.Core.Path.{subst, sym}
use rag_system.Base.{
  ℕ, ◌+◌, ◌||◌, String, str_eq, Option, some, [], ◌∷◌, ◌++◌, ◌≡◌, ◌⊎◌, refl, arith, Option-cases,
  Bool-cases, inl, inr, length,
}
use rag_system.Base.Dict
use rag_system.Base.Dict.{Dict, get-put, get-remove}
use rag_system.ModelRegistry.Versions.{
  staging, Versions, Models, Result, ok, err, Error, find, register_version, version_or, register,
  get_or_raise, promote_from, promote, rollback_versions, rollback, delete, versions_of,
}
use rag_system.ModelRegistry.Production.{
  IsValid, append-IsValid, remove-IsValid, promote_from-IsValid, rollback_versions-IsValid,
}

pub record IsSound (models : Models) : Type 0 where
  pub at_name : (name : String) (vs : Versions) → Dict.get name models ≡ some vs → IsValid vs

pub put-IsSound :
    (name : String) (vs : Versions) (models : Models)
    → IsValid vs
    → IsSound models
    → IsSound (Dict.put name vs models)
put-IsSound name vs models h s = record {
  at_name = λ other ws e. elim (Bool-cases (str_eq name other)) [
    | inl p ↦
        let same : vs ≡ ws = ground (arith, get-put name other vs models, p) in subst IsValid same h
    | inr p ↦ s.at_name other ws (ground (arith, get-put name other vs models, p))
  ];
}

remove-IsSound :
    (name : String) (models : Models) → IsSound models → IsSound (Dict.remove name models)
remove-IsSound name models s = record {
  at_name = λ other ws e. s.at_name other ws (ground (arith, get-remove name other models));
}

pub data Operation : Type 0 where
  register_op : String → String → Option String → Operation
  promote_op : String → String → Operation
  rollback_op : String → Operation
  delete_op : String → String → Operation

unfoldable pub apply : (String → Option ℕ) → (ℕ → String) → Operation → Models → Models
unfolding register promote rollback delete
apply int text_of (register_op name path requested) models =
    (register text_of name path requested models).1
apply int text_of (promote_op name v) models = (promote name v models).1
apply int text_of (rollback_op name) models = (rollback int name models).1
apply int text_of (delete_op name v) models = (delete name v models).1

versions_of-IsValid :
    (name : String) (models : Models) → IsSound models → IsValid (versions_of name models)
unfolding versions_of
versions_of-IsValid name models s = elim (Option-cases (Dict.get name models)) [
  | inl e ↦
      rw (e, versions_of)
        (record { distinct = tt; one_production = λ v w x y p. absurd (unfold find in cc) })
  | inr (vs, e) ↦ rw (e, versions_of) (s.at_name name vs e)
]

register_version-IsSound :
    (name : String) (v : String) (vs : Versions) (models : Models)
    → IsValid vs
    → IsSound models
    → IsSound (register_version name v vs models).1
register_version-IsSound name v vs models h s = elim (Option-cases (find v vs)) [
  | inl e ↦
      let same : (register_version name v vs models).1
          ≡ Dict.put name (vs ++ record { version = v; status = staging } ∷ []) models =
        unfold register_version in ground (arith, e) in
      subst IsSound (sym same) (put-IsSound name _ models (append-IsValid v vs e h) s)
  | inr (x, e) ↦
      let same : (register_version name v vs models).1 ≡ Dict.put name vs models =
        unfold register_version in ground (arith, e) in
      subst IsSound (sym same) (put-IsSound name vs models h s)
]

promote-IsSound :
    (name : String) (v : String) (models : Models)
    → IsSound models
    → IsSound (promote name v models).1
promote-IsSound name v models s = elim (Option-cases (Dict.get name models)) [
  | inl e ↦
      let same : (promote name v models).1 ≡ models = unfold promote in ground (arith, e) in
      subst IsSound (sym same) s
  | inr (vs, e) ↦ elim (Option-cases (find v vs)) [
    | inl f ↦
        let same : (promote name v models).1 ≡ models = unfold promote in ground (arith, e, f) in
        subst IsSound (sym same) s
    | inr (m, f) ↦
        let same : (promote name v models).1 ≡ Dict.put name (promote_from m.status v vs) models =
          unfold promote in ground (arith, e, f) in
        subst IsSound (sym same)
          (put-IsSound name _ models (promote_from-IsValid m.status v vs (s.at_name name vs e)) s)
  ]
]

Result-cases : {A : Type 0} (r : Result A) → ((a : A) × (r ≡ ok a)) ⊎ ((e : Error) × (r ≡ err e))
Result-cases (ok a) = inl (a, refl)
Result-cases (err e) = inr (e, refl)

rollback-IsSound :
    (int : String → Option ℕ) (name : String) (models : Models)
    → IsSound models
    → IsSound (rollback int name models).1
rollback-IsSound int name models s = elim (Option-cases (Dict.get name models)) [
  | inl e ↦
      let same : (rollback int name models).1 ≡ models = unfold rollback in ground (arith, e) in
      subst IsSound (sym same) s
  | inr (vs, e) ↦ elim (Result-cases (rollback_versions int vs)) [
    | inr (x, f) ↦
        let same : (rollback int name models).1 ≡ models =
          unfold rollback in ground (arith, e, f) in
        subst IsSound (sym same) s
    | inl ((x, vs'), f) ↦
        let same : (rollback int name models).1 ≡ Dict.put name vs' models =
          unfold rollback in ground (arith, e, f) in
        subst IsSound (sym same) (
          put-IsSound name vs' models
            (rollback_versions-IsValid int vs vs' x (s.at_name name vs e) f) s)
  ]
]

keep-IsSound :
    (name : String) (rest : Versions) (models : Models)
    → IsValid rest
    → IsSound models
    → IsSound (elim rest [ [] ↦ Dict.remove name models | m ∷ ms ↦ Dict.put name (m ∷ ms) models ])
keep-IsSound name [] models h s = remove-IsSound name models s
keep-IsSound name (m ∷ ms) models h s = put-IsSound name (m ∷ ms) models h s

delete-IsSound :
    (name : String) (v : String) (models : Models)
    → IsSound models
    → IsSound (delete name v models).1
unfolding delete
delete-IsSound name v models s = elim (Result-cases (get_or_raise name v models)) [
  | inr (x, f) ↦ rw (f, delete) s
  | inl (m, f) ↦
      rw (f, delete)
        (keep-IsSound name _ models
          (remove-IsValid v (versions_of name models) (versions_of-IsValid name models s)) s)
]

-- Whatever `int` makes of a version, every operation, failing or not, keeps the texts of the versions of
-- each model distinct and at most one of its versions in production.
pub apply-IsSound :
    (int : String → Option ℕ) (text_of : ℕ → String) (op : Operation) (models : Models)
    → IsSound models
    → IsSound (apply int text_of op models)
unfolding apply
apply-IsSound int text_of (promote_op name v) models s = promote-IsSound name v models s
apply-IsSound int text_of (rollback_op name) models s = rollback-IsSound int name models s
apply-IsSound int text_of (delete_op name v) models s = delete-IsSound name v models s
apply-IsSound int text_of (register_op name path requested) models s =
    elim (Bool-cases (str_eq name "" || str_eq path "")) [
      | inl p ↦
          let same : (register text_of name path requested models).1 ≡ models =
            unfold register in ground (arith, p) in
          subst IsSound (sym same) s
      | inr p ↦
          let vs = versions_of name models in
          let v = version_or requested (text_of (length vs + 1)) in
          let same : (register text_of name path requested models).1
              ≡ (register_version name v vs models).1 =
            unfold register in ground (arith, p) in
          subst IsSound (sym same)
            (register_version-IsSound name v vs models (versions_of-IsValid name models s) s)
    ]
