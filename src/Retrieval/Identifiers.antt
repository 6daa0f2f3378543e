-- ===== src/Retrieval/Identifiers.antt =====
-- proxy/app/core/retrieval.py: the identifiers of the hits, in dictionaries, sorted, and under which
-- the hits are found again.
use rag_system.Base.{
  leb, ℕ, Bool, true, ◌||◌, List, [], ◌∷◌, String, str_eq, eq_iff, some, map, any, count, All,
  if◌then◌else◌, ◌≡◌, refl, ap, ◌∙◌, arith, Bool-cases, Option-cases, inl, inr,
}
use rag_system.Base.Dict.{Dict, get, contains, put, Distinct, get-put}
use rag_system.Context.Reorder.{insert, sorted}
use rag_system.Context.Order.{Below, Descending}
use rag_system.Retrieval.Fusion.{Hit, scored, indexed, restored}

module _ {A : Type 0} where
  abbrev pub is_listed : String → List (Hit A) → Bool
  is_listed i = any (λ h. str_eq h.id i)

pub contains-put :
    {V : Type 0} (i k : String) (v : V) (d : Dict V)
    → contains i (put k v d) ≡ (str_eq k i || contains i d)
unfolding contains
contains-put i k v d = ground (arith, get-put k i v d)

pub scored-put :
    (i k : String) (n : ℕ) (d : Dict ℕ)
    → scored i (put k n d) ≡ (if str_eq k i then n else scored i d)
unfolding scored
scored-put i k n d = ground (arith, get-put k i n d)

module _ (P : String → Type 0) where
  All-insert :
      (score : String → ℕ) (x : String) (xs : List String)
      → P x
      → All P xs
      → All P (insert score x xs)
  unfolding insert
  All-insert score x [] h hs = (h, tt)
  All-insert score x (y ∷ xs) h (here, hs) = elim (Bool-cases (leb (score y) (score x))) [
    | inl first ↦ rw first (h, (here, hs))
    | inr later ↦ rw later (here, All-insert score x xs h hs)
  ]

  pub All-sorted : (score : String → ℕ) (xs : List String) → All P xs → All P (sorted score xs)
  unfolding sorted
  All-sorted score [] hs = tt
  All-sorted score (x ∷ xs) (here, hs) =
      All-insert score x (sorted score xs) here (All-sorted score xs hs)

  pub All-keys :
      {V : Type 0} (d : Dict V)
      → ((i : String) → contains i d ≡ true → P i)
      → All P (map (λ p. p.0) d)
  unfolding contains get
  All-keys [] h = tt
  All-keys ((j, v) ∷ d) h =
      (h j (ground (arith, eq_iff j j)), All-keys d (λ i there. h i (ground (arith, there))))

module _ (f g : String → ℕ) (same : (i : String) → f i ≡ g i) where
  Below-same : (i : String) (xs : List String) → Below f i xs → Below g i xs
  Below-same i [] h = tt
  Below-same i (x ∷ xs) (here, h) = (omega (arith, here, same i, same x), Below-same i xs h)

  pub Descending-same : (xs : List String) → Descending f xs → Descending g xs
  Descending-same [] h = tt
  Descending-same (x ∷ xs) (below, h) = (Below-same x xs below, Descending-same xs h)

pub count-keys :
    {V : Type 0} (i : String) (d : Dict V)
    → Distinct d
    → count (λ j. str_eq j i) (map (λ p. p.0) d) ≡ (if contains i d then 1 else 0)
unfolding contains get
count-keys i [] h = refl
count-keys i ((j, v) ∷ d) (absent, h) = ground (arith, count-keys i d h, eq_iff j i, absent)

module _ {A : Type 0} where
  -- Every hit stands under its own identifier.
  abbrev pub IsIndex : Dict (Hit A) → Type 0
  IsIndex d = (i : String) (h : Hit A) → get i d ≡ some h → h.id ≡ i

  pub indexed-IsIndex :
      (hits : List (Hit A)) (d : Dict (Hit A)) → IsIndex d → IsIndex (indexed hits d)
  unfolding indexed
  indexed-IsIndex [] d h = h
  indexed-IsIndex (x ∷ hits) d h =
      indexed-IsIndex hits (put x.id x d)
        (λ i y at. ground (arith, at, h i y, get-put x.id i x d, eq_iff x.id i))

  pub contains-indexed :
      (i : String) (hits : List (Hit A)) (d : Dict (Hit A))
      → contains i (indexed hits d) ≡ (contains i d || is_listed i hits)
  unfolding indexed
  contains-indexed i [] d = ground arith
  contains-indexed i (x ∷ hits) d =
      ground (arith, contains-indexed i hits (put x.id x d), contains-put i x.id x d)

  pub map-restored :
      (d : Dict (Hit A)) (is : List String)
      → IsIndex d
      → All (λ i. contains i d ≡ true) is
      → map (λ h. h.id) (restored d is) ≡ is
  unfolding restored contains
  map-restored d [] h k = refl
  map-restored d (i ∷ is) h (there, k) = elim (Option-cases (get i d)) [
    | inl nothing ↦ ground (arith, there, nothing)
    | inr (x, found) ↦
        simp (restored, found)
          (ap (λ j. j ∷ map (λ h. h.id) (restored d is)) (h i x found)
            ∙ ap (λ js. i ∷ js) (map-restored d is h k))
  ]
