-- ===== src/ModelRegistry/Production.antt =====
-- proxy/app/model_evolution/model_registry.py: at most one version of a model is in production,
-- whatever the operations.
use mathlib.Core.Option
use mathlib.Core.Path.{subst, sym, ◌∙◌}
use rag_system.Base.{
  String, str_eq, eq_iff, Option, ℕ, ◌&&◌, not, none, some, [], ◌∷◌, ◌++◌, ◌≡◌, ◌≢◌, refl, arith,
  if◌then◌else◌, filter, All, Option-cases, Bool-cases, inl, inr,
}
use rag_system.ModelRegistry.Versions.{
  ModelVersion, Status, staging, canary, production, archived, Versions, ok, is_production, find,
  set_status, archive_previous_production, get_latest_production, are_numbers, latest_where,
  find_previous_production, promote_from, rollback_versions,
}
use rag_system.ModelRegistry.Latest.{
  Distinct, find-version, find-set_status, find-filter_ne, Distinct-filter, Distinct-set_status,
  latest-found,
}

-- The texts of the versions are distinct, and two versions in production are one.
pub record IsValid (vs : Versions) : Type 0 where
  pub distinct : Distinct vs
  pub one_production :
      (v w : String) (x y : ModelVersion)
      → find v vs ≡ some x
      → find w vs ≡ some y
      → x.status ≡ production
      → y.status ≡ production
      → v ≡ w

abbrev pub retired : String → ModelVersion → ModelVersion
retired v m =
    if is_production m.status && not (str_eq m.version v) then record m { status = archived } else m

pub find-archive :
    (w v : String) (ms : Versions)
    → find w (archive_previous_production v ms) ≡ Option.map (retired v) (find w ms)
unfolding find archive_previous_production
find-archive w v [] = refl
find-archive w v (m ∷ ms) = ground (arith, find-archive w v ms)

All-archive :
    (v n : String) (ms : Versions)
    → All (λ k. k.version ≢ n) ms
    → All (λ k. k.version ≢ n) (archive_previous_production v ms)
unfolding archive_previous_production
All-archive v n [] h = tt
All-archive v n (m ∷ ms) h = (ground (arith, h.0), All-archive v n ms h.1)

pub Distinct-archive :
    (v : String) (ms : Versions) → Distinct ms → Distinct (archive_previous_production v ms)
unfolding archive_previous_production
Distinct-archive v [] h = tt
Distinct-archive v (m ∷ ms) h =
    elim (Bool-cases (is_production m.status && not (str_eq m.version v))) [
      | inl p ↦ rw p (All-archive v m.version ms h.0, Distinct-archive v ms h.1)
      | inr p ↦ rw p (All-archive v m.version ms h.0, Distinct-archive v ms h.1)
    ]

find-append :
    (w : String) (m : ModelVersion) (ms : Versions)
    → find m.version ms ≡ none
    → find w (ms ++ m ∷ []) ≡ (if str_eq m.version w then some m else find w ms)
unfolding find
find-append w m [] h = refl
find-append w m (k ∷ ms) h =
    ground (
      arith,
      eq_iff m.version w,
      eq_iff k.version w,
      eq_iff k.version m.version,
      find-append w m ms,
    )

All-absent : (v : String) (ms : Versions) → find v ms ≡ none → All (λ k. k.version ≢ v) ms
unfolding find
All-absent v [] h = tt
All-absent v (m ∷ ms) h = elim (Bool-cases (str_eq m.version v)) [
  | inl p ↦ absurd (ground (arith, eq_iff m.version v))
  | inr p ↦ (ground (arith, eq_iff m.version v), All-absent v ms (rw p at h))
]

All-snoc :
    (n : String) (m : ModelVersion) (ms : Versions)
    → All (λ k. k.version ≢ n) ms
    → m.version ≢ n
    → All (λ k. k.version ≢ n) (ms ++ m ∷ [])
All-snoc n m [] h q = (q, tt)
All-snoc n m (k ∷ ms) h q = (h.0, All-snoc n m ms h.1 q)

Distinct-append :
    (m : ModelVersion) (ms : Versions)
    → All (λ k. k.version ≢ m.version) ms
    → Distinct ms
    → Distinct (ms ++ m ∷ [])
Distinct-append m [] h d = (tt, tt)
Distinct-append m (k ∷ ms) h d =
    (All-snoc k.version m ms d.0 (λ e. h.0 (sym e)), Distinct-append m ms h.1 d.1)

pub append-IsValid :
    (v : String) (vs : Versions)
    → find v vs ≡ none
    → IsValid vs
    → IsValid (vs ++ record { version = v; status = staging } ∷ [])
append-IsValid v vs e h = record {
  distinct = Distinct-append _ vs (All-absent v vs e) h.distinct;
  one_production = λ a b x y p q r s.
      h.one_production a b x y
        (ground (arith, find-append a (record { version = v; status = staging }) vs e))
        (ground (arith, find-append b (record { version = v; status = staging }) vs e)) r s;
}

pub remove-IsValid :
    (v : String) (vs : Versions) → IsValid vs → IsValid (filter (λ m. not (str_eq m.version v)) vs)
remove-IsValid v vs h = record {
  distinct = Distinct-filter _ vs h.distinct;
  one_production = λ a b x y p q r s.
      h.one_production a b x y (ground (arith, find-filter_ne a v vs))
        (ground (arith, find-filter_ne b v vs)) r s;
}

-- What is in production behind a change to another status was so before.
set_status-production :
    (s : Status) (v a : String) (x : ModelVersion) (vs : Versions)
    → s ≢ production
    → find a (set_status v s vs) ≡ some x
    → x.status ≡ production
    → find a vs ≡ some x
set_status-production s v a x vs n e p = elim (Option-cases (find a vs)) [
  | inl q ↦ ground (arith, find-set_status a v s vs, q)
  | inr (k, q) ↦ ground (arith, find-set_status a v s vs, q)
]

-- What is in production behind a promotion to it is what was promoted.
promoted-production :
    (v a : String) (x : ModelVersion) (vs : Versions)
    → find a (set_status v production (archive_previous_production v vs)) ≡ some x
    → x.status ≡ production
    → a ≡ v
promoted-production v a x vs e p = elim (Option-cases (find a vs)) [
  | inl q ↦ ground (
    arith,
    eq_iff v a,
    find-set_status a v production (archive_previous_production v vs),
    find-archive a v vs,
    q,
  )
  | inr (k, q) ↦ ground (
    arith,
    eq_iff v a,
    eq_iff k.version v,
    find-set_status a v production (archive_previous_production v vs),
    find-archive a v vs,
    q,
    find-version a k vs,
  )
]

pub promote_from-IsValid :
    (s : Status) (v : String) (vs : Versions) → IsValid vs → IsValid (promote_from s v vs)
unfolding promote_from
promote_from-IsValid staging v vs h = record {
  distinct = Distinct-set_status v canary vs h.distinct;
  one_production = λ a b x y p q r s.
      h.one_production a b x y (set_status-production canary v a x vs (cc) p r)
        (set_status-production canary v b y vs (cc) q s) r s;
}
promote_from-IsValid canary v vs h = record {
  distinct = Distinct-set_status v production _ (Distinct-archive v vs h.distinct);
  one_production =
      λ a b x y p q r s. promoted-production v a x vs p r ∙ sym (promoted-production v b y vs q s);
}
promote_from-IsValid production v vs h = h
promote_from-IsValid archived v vs h = h

-- What a rollback leaves in production is the version that it restores.
restored-production :
    (c p a : String) (x : ModelVersion) (vs : Versions)
    → ((y : ModelVersion) → find a vs ≡ some y → y.status ≡ production → a ≡ c)
    → find a (set_status p production (set_status c archived vs)) ≡ some x
    → x.status ≡ production
    → a ≡ p
restored-production c p a x vs only e q = elim (Option-cases (find a vs)) [
  | inl none_found ↦ ground (
    arith,
    eq_iff p a,
    eq_iff c a,
    find-set_status a p production (set_status c archived vs),
    find-set_status a c archived vs,
    none_found,
  )
  | inr (k, found) ↦ ground (
    arith,
    eq_iff p a,
    eq_iff c a,
    find-set_status a p production (set_status c archived vs),
    find-set_status a c archived vs,
    found,
    only k found,
  )
]

restore-IsValid :
    (c p : String) (x : ModelVersion) (vs : Versions)
    → IsValid vs
    → find c vs ≡ some x
    → x.status ≡ production
    → IsValid (set_status p production (set_status c archived vs))
restore-IsValid c p x vs h e q = record {
  distinct = Distinct-set_status p production _ (Distinct-set_status c archived vs h.distinct);
  one_production = λ a b y z f g r s.
      let only =
        λ (i : String) (k : ModelVersion) (found : find i vs ≡ some k)
            (in_production : k.status ≡ production).
          h.one_production i c k x found e in_production q in
      restored-production c p a y vs (only a) f r
      ∙ sym (restored-production c p b z vs (only b) g s);
}

pub rollback_versions-IsValid :
    (int : String → Option ℕ) (vs vs' : Versions) (x : ModelVersion)
    → IsValid vs
    → rollback_versions int vs ≡ ok (x, vs')
    → IsValid vs'
unfolding rollback_versions get_latest_production
rollback_versions-IsValid int vs vs' x h e = elim (Bool-cases (are_numbers int vs)) [
  | inr other ↦ ground (arith, e, other)
  | inl numbers ↦ elim (Option-cases (latest_where int is_production vs)) [
    | inl p ↦ ground (arith, e, numbers, p)
    | inr (current, p) ↦ elim (Option-cases (find_previous_production int current.version vs)) [
      | inl q ↦ ground (arith, e, numbers, p, q)
      | inr (previous, q) ↦
          let (there, fits) = latest-found int is_production current vs h.distinct p in
          let good =
            restore-IsValid current.version previous.version current vs h there
              (ground (arith, fits)) in
          let same : set_status previous.version production (set_status current.version archived vs)
              ≡ vs' =
            ground (arith, e, numbers, p, q) in
          subst IsValid same good
    ]
  ]
]
