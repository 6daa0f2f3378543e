-- ===== src/ModelRegistry/Latest.antt =====
-- proxy/app/model_evolution/model_registry.py: lookups in the versions of a model, and the latest
-- version of a status.
use mathlib.Core.Option
use mathlib.Core.Path.{subst}
use rag_system.Base.{
  String, str_eq, eq_iff, Option, ℕ, Bool, true, not, none, some, [], ◌∷◌, ◌≡◌, ◌≢◌, refl, arith,
  if◌then◌else◌, filter, All, Option-cases, Bool-cases, inl, inr,
}
use rag_system.ModelRegistry.Versions.{
  ModelVersion, Status, Versions, find, set_status, larger, latest_where,
}

abbrev pub Distinct : Versions → Type 0
Distinct [] = Unit
Distinct (m ∷ ms) = All (λ k. k.version ≢ m.version) ms × Distinct ms

abbrev pub with_status : Status → ModelVersion → ModelVersion
with_status s m = record m { status = s }

find-here :
    (v : String) (x m : ModelVersion) (ms : Versions)
    → str_eq m.version v ≡ true
    → find v (m ∷ ms) ≡ some x
    → m ≡ x
unfolding find
find-here v x m ms p e = ground arith

pub All-find :
    (Q : ModelVersion → Type 0) (v : String) (x : ModelVersion) (ms : Versions)
    → All Q ms
    → find v ms ≡ some x
    → Q x
unfolding find
All-find Q v x [] h e = cc
All-find Q v x (m ∷ ms) h e = elim (Bool-cases (str_eq m.version v)) [
  | inl p ↦ subst Q (find-here v x m ms p e) h.0
  | inr p ↦ All-find Q v x ms h.1 (rw p at e)
]

pub find-version :
    (v : String) (x : ModelVersion) (ms : Versions) → find v ms ≡ some x → x.version ≡ v
unfolding find
find-version v x [] e = cc
find-version v x (m ∷ ms) e = ground (arith, eq_iff m.version v, find-version v x ms)

find-none : (v : String) (ms : Versions) → All (λ k. k.version ≢ v) ms → find v ms ≡ none
unfolding find
find-none v [] h = refl
find-none v (m ∷ ms) h = ground (arith, eq_iff m.version v, h.0, find-none v ms h.1)

pub find-set_status :
    (w v : String) (s : Status) (ms : Versions)
    → find w (set_status v s ms)
      ≡ (if str_eq v w then Option.map (with_status s) (find w ms) else find w ms)
unfolding find set_status
find-set_status w v s [] = ground arith
find-set_status w v s (m ∷ ms) =
    ground (arith, eq_iff m.version v, eq_iff m.version w, eq_iff v w, find-set_status w v s ms)

pub find-filter_ne :
    (w v : String) (ms : Versions)
    → find w (filter (λ m. not (str_eq m.version v)) ms) ≡ (if str_eq v w then none else find w ms)
unfolding find
find-filter_ne w v [] = ground arith
find-filter_ne w v (m ∷ ms) =
    ground (arith, eq_iff m.version v, eq_iff m.version w, eq_iff v w, find-filter_ne w v ms)

pub All-filter :
    (keep : ModelVersion → Bool) (Q : ModelVersion → Type 0) (ms : Versions)
    → All Q ms
    → All Q (filter keep ms)
All-filter keep Q [] h = tt
All-filter keep Q (m ∷ ms) h = elim (Bool-cases (keep m)) [
  | inl p ↦ rw p (h.0, All-filter keep Q ms h.1)
  | inr p ↦ rw p (All-filter keep Q ms h.1)
]

pub Distinct-filter :
    (keep : ModelVersion → Bool) (ms : Versions) → Distinct ms → Distinct (filter keep ms)
Distinct-filter keep [] h = tt
Distinct-filter keep (m ∷ ms) h = elim (Bool-cases (keep m)) [
  | inl p ↦ rw p (All-filter keep (λ k. k.version ≢ m.version) ms h.0, Distinct-filter keep ms h.1)
  | inr p ↦ rw p (Distinct-filter keep ms h.1)
]

pub All-zip :
    (Q R S : ModelVersion → Type 0)
    → ((m : ModelVersion) → Q m → R m → S m)
    → (ms : Versions) → All Q ms
    → All R ms
    → All S ms
All-zip Q R S f [] a b = tt
All-zip Q R S f (m ∷ ms) a b = (f m a.0 b.0, All-zip Q R S f ms a.1 b.1)

pub All-set_status :
    (v : String) (s : Status) (Q : ModelVersion → Type 0) (ms : Versions)
    → All (λ m. Q (if str_eq m.version v then record m { status = s } else m)) ms
    → All Q (set_status v s ms)
unfolding set_status
All-set_status v s Q [] h = tt
All-set_status v s Q (m ∷ ms) h = (h.0, All-set_status v s Q ms h.1)

pub Distinct-set_status :
    (v : String) (s : Status) (ms : Versions) → Distinct ms → Distinct (set_status v s ms)
unfolding set_status
Distinct-set_status v s [] h = tt
Distinct-set_status v s (m ∷ ms) h = elim (Bool-cases (str_eq m.version v)) [
  | inl p ↦ rw p (
    All-set_status v s (λ k. k.version ≢ m.version) ms
        (All-zip (λ k. k.version ≢ m.version) (λ k. k.version ≢ m.version) _ (λ k x y. ground arith)
          ms h.0 h.0),
    Distinct-set_status v s ms h.1,
  )
  | inr p ↦ rw p (
    All-set_status v s (λ k. k.version ≢ m.version) ms
        (All-zip (λ k. k.version ≢ m.version) (λ k. k.version ≢ m.version) _ (λ k x y. ground arith)
          ms h.0 h.0),
    Distinct-set_status v s ms h.1,
  )
]

-- A version is the only one of its number.
pub All-same :
    (v : String) (x : ModelVersion) (ms : Versions)
    → Distinct ms
    → find v ms ≡ some x
    → All (λ k. k.version ≡ v → k ≡ x) ms
unfolding find
All-same v x [] d e = tt
All-same v x (m ∷ ms) d e = elim (Bool-cases (str_eq m.version v)) [
  | inl p ↦ (
    λ _. find-here v x m ms p e,
    All-zip (λ k. k.version ≢ m.version) (λ k. k.version ≢ m.version) _
        (λ k a b same. absurd (ground (arith, eq_iff m.version v))) ms d.0 d.0,
  )
  | inr p ↦ (λ same. absurd (ground (arith, eq_iff m.version v)), All-same v x ms d.1 (rw p at e))
]

pub latest-found :
    (int : String → Option ℕ) (p : Status → Bool) (x : ModelVersion) (ms : Versions)
    → Distinct ms
    → latest_where int p ms ≡ some x
    → (find x.version ms ≡ some x) × (p x.status ≡ true)
unfolding latest_where larger find
latest-found int p x [] d e = cc
latest-found int p x (m ∷ ms) d e = elim (Option-cases (latest_where int p ms)) [
  | inl q ↦ ground (arith, eq_iff m.version m.version, q)
  | inr (k, q) ↦
      let (there, fits) = latest-found int p k ms d.1 q in
      let apart : k.version ≢ m.version =
        All-find (λ y. y.version ≢ m.version) k.version k ms d.0 there in
      ground (arith, eq_iff m.version k.version, eq_iff m.version m.version, q, there, fits, apart)
]
