-- ===== src/ModelRegistry/Versions.antt =====
-- proxy/app/model_evolution/model_registry.py: the class `ModelRegistry`. A version is a text.
-- Python's `int`, which is `none` where it raises, and the text of a number are arguments. Metrics, the artifact's
-- path, time stamps and the JSON file are left out: no operation reads them.
use rag_system.Base.{
  ℕ, ◌+◌, ltb, Bool, true, false, ◌&&◌, ◌||◌, not, String, str_eq, Option, none, some, List, [],
  ◌∷◌, ◌++◌, if◌then◌else◌, filter, length,
}
use rag_system.Base.Dict
use rag_system.Base.Dict.{Dict}

pub data Status : Type 0 where
  staging canary production archived : Status

abbrev pub is_production : Status → Bool
is_production production = true
is_production _ = false

abbrev pub is_archived : Status → Bool
is_archived archived = true
is_archived _ = false

pub record ModelVersion : Type 0 where
  pub version : String
  pub status : Status

-- `self._models[name]`, in the order of registration; `self._models` is a `Dict` of these.
abbrev pub Versions : Type 0
Versions = List ModelVersion

abbrev pub Models : Type 0
Models = Dict Versions

pub data Error : Type 0 where
  key_error value_error : Error

pub data Result (A : Type 0) : Type 0 where
  ok : A → Result A
  err : Error → Result A

-- `versions[version]`
unfoldable pub find : String → Versions → Option ModelVersion
find v [] = none
find v (m ∷ ms) = if str_eq m.version v then some m else find v ms

-- `mv.status = status`, on the object that the dictionary holds
unfoldable pub set_status : String → Status → Versions → Versions
set_status v s [] = []
set_status v s (m ∷ ms) =
    (if str_eq m.version v then record m { status = s } else m) ∷ set_status v s ms

unfoldable pub versions_of : String → Models → Versions
unfolding Dict.get
versions_of name models = elim (Dict.get name models) [ none ↦ [] | some vs ↦ vs ]

-- `versions[version] = mv`, or the error where that version is there
unfoldable pub register_version : String → String → Versions → Models → Result ModelVersion × Models
unfolding find Dict.put
register_version name v versions models = elim (find v versions) [
  | some _ ↦ (err value_error, Dict.put name versions models)
  | none ↦
      let mv : ModelVersion = record { version = v; status = staging } in
      (ok mv, Dict.put name (versions ++ mv ∷ []) models)
]

abbrev pub version_or : Option String → String → String
version_or none next = next
version_or (some v) next = v

-- `register`, by its arguments `name`, `artifact_path` and `version`
unfoldable pub register :
    (ℕ → String) → String → String → Option String → Models → Result ModelVersion × Models
unfolding register_version versions_of
register text_of name artifact_path requested models =
    if str_eq name "" || str_eq artifact_path ""
    then (err value_error, models)
    else let versions = versions_of name models in
      register_version name (version_or requested (text_of (length versions + 1))) versions models

-- `_get_or_raise`
unfoldable pub get_or_raise : String → String → Models → Result ModelVersion
unfolding find Dict.get
get_or_raise name v models = elim (Dict.get name models) [
  | none ↦ err key_error
  | some vs ↦ elim (find v vs) [ none ↦ err key_error | some mv ↦ ok mv ]
]

-- Whether `int` of every version succeeds, which sorting them needs
unfoldable pub are_numbers : (String → Option ℕ) → Versions → Bool
are_numbers int [] = true
are_numbers int (m ∷ ms) = elim (int m.version) [ none ↦ false | some n ↦ are_numbers int ms ]

abbrev pub number_of : (String → Option ℕ) → ModelVersion → ℕ
number_of int m = elim (int m.version) [ none ↦ 0 | some n ↦ n ]

unfoldable pub larger : (String → Option ℕ) → ModelVersion → Option ModelVersion → ModelVersion
larger int m none = m
larger int m (some k) = if ltb (number_of int m) (number_of int k) then k else m

-- The candidate with the largest number, of several ones the first: what `sorted(..., reverse=True)`
-- puts first, and `max`
unfoldable pub latest_where : (String → Option ℕ) → (Status → Bool) → Versions → Option ModelVersion
unfolding larger
latest_where int p [] = none
latest_where int p (m ∷ ms) =
    let rest = latest_where int p ms in if p m.status then some (larger int m rest) else rest

-- `get_latest_production` on the versions of a model: ValueError where a version is no number
unfoldable pub get_latest_production : (String → Option ℕ) → Versions → Result (Option ModelVersion)
unfolding latest_where are_numbers
get_latest_production int versions =
    if are_numbers int versions
    then ok (latest_where int is_production versions)
    else err value_error

-- `_archive_previous_production`
unfoldable pub archive_previous_production : String → Versions → Versions
archive_previous_production v [] = []
archive_previous_production v (m ∷ ms) =
    (if is_production m.status && not (str_eq m.version v)
      then record m { status = archived }
      else m)
    ∷ archive_previous_production v ms

-- `_find_previous_production`, where every version is a number
unfoldable pub find_previous_production :
    (String → Option ℕ) → String → Versions → Option ModelVersion
unfolding latest_where
find_previous_production int current versions =
    latest_where int is_archived (filter (λ m. not (str_eq m.version current)) versions)

-- `promote` on the versions of its model, by the status of the promoted one
unfoldable pub promote_from : Status → String → Versions → Versions
unfolding set_status archive_previous_production
promote_from staging v versions = set_status v canary versions
promote_from canary v versions = set_status v production (archive_previous_production v versions)
promote_from production v versions = versions
promote_from archived v versions = versions

unfoldable pub promote_versions : String → Versions → Option Versions
unfolding find promote_from
promote_versions v versions = elim (find v versions) [
  | none ↦ none
  | some mv ↦ some (promote_from mv.status v versions)
]

unfoldable pub promote : String → String → Models → Result (Option ModelVersion) × Models
unfolding promote_versions Dict.get Dict.put
promote name v models = elim (Dict.get name models) [
  | none ↦ (err key_error, models)
  | some versions ↦ elim (promote_versions v versions) [
    | none ↦ (err key_error, models)
    | some versions' ↦ (ok (find v versions'), Dict.put name versions' models)
  ]
]

-- `rollback` on the versions of its model
unfoldable pub rollback_versions : (String → Option ℕ) → Versions → Result (ModelVersion × Versions)
unfolding get_latest_production find_previous_production set_status
rollback_versions int versions = elim (get_latest_production int versions) [
  | err e ↦ err e
  | ok latest ↦ elim latest [
    | none ↦ err value_error
    | some current ↦ elim (find_previous_production int current.version versions) [
      | none ↦ err value_error
      | some previous ↦ ok (
        record previous { status = production },
        set_status previous.version production (set_status current.version archived versions),
      )
    ]
  ]
]

unfoldable pub rollback : (String → Option ℕ) → String → Models → Result ModelVersion × Models
unfolding rollback_versions Dict.get Dict.put
rollback int name models = elim (Dict.get name models) [
  | none ↦ (err key_error, models)
  | some versions ↦ elim (rollback_versions int versions) [
    | err e ↦ (err e, models)
    | ok (previous, versions') ↦ (ok previous, Dict.put name versions' models)
  ]
]

-- `delete`; a model without versions goes too
unfoldable pub delete : String → String → Models → Result (Unit {0}) × Models
unfolding get_or_raise Dict.put Dict.remove
delete name v models = elim (get_or_raise name v models) [
  | err e ↦ (err e, models)
  | ok _ ↦
      let rest = filter (λ m. not (str_eq m.version v)) (versions_of name models) in
      (ok tt, elim rest [ [] ↦ Dict.remove name models | m ∷ ms ↦ Dict.put name (m ∷ ms) models ])
]
