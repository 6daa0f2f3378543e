-- ===== src/Memory/Strings.antt =====
-- Python's order of strings, by their code points.
use Prim.Native.Nat.{Ordering, lt, eq, gt, compare as compare_codes}
use Prim.Native.Char.{Char, code}
use Prim.Native.String.{[], ◌∷◌, compare, then as first_unequal}
use Prim.Native.String.compare
use text.Mathlib.TextEquality.{codes_equal}
use rag_system.Base.{ltb, ◌==◌, Bool, true, false, ◌||◌, ◌&&◌, String, ◌≡◌, refl, arith}

unfoldable pub is_not_gt : Ordering → Bool
is_not_gt lt = true
is_not_gt eq = true
is_not_gt gt = false

-- `s <= t`
unfoldable pub str_leb : String → String → Bool
str_leb s t = is_not_gt (compare s t)

str_leb-nil : (t : String) → str_leb [] t ≡ true
unfolding str_leb is_not_gt
str_leb-nil [] = refl
str_leb-nil (d ∷ t) = rw (compare.nil-cons d t) refl

is_not_gt-first_unequal :
    (o rest : Ordering)
    → is_not_gt (first_unequal o rest) ≡ (
        elim o [ lt ↦ true | eq ↦ false | gt ↦ false ]
        || (elim o [ lt ↦ false | eq ↦ true | gt ↦ false ] && is_not_gt rest))
unfolding is_not_gt
is_not_gt-first_unequal lt rest = refl
is_not_gt-first_unequal eq rest = refl
is_not_gt-first_unequal gt rest = refl

not_below : (c : Char) (s : String) → str_leb (c ∷ s) [] ≡ false
unfolding str_leb is_not_gt
not_below c s = rw (compare.cons-nil c s) refl

str_leb-cons :
    (c d : Char) (s t : String)
    → str_leb (c ∷ s) (d ∷ t) ≡ (ltb (code c) (code d) || (code c == code d && str_leb s t))
unfolding str_leb is_not_gt
str_leb-cons c d s t =
    rw (compare.cons-cons c d s t)
      (is_not_gt-first_unequal (compare_codes (code c) (code d)) (compare s t))

pub str_leb_total : (s t : String) → str_leb s t ≡ false → str_leb t s ≡ true
str_leb_total [] t h = ground (arith, str_leb-nil t, h)
str_leb_total (c ∷ s) [] h = str_leb-nil (c ∷ s)
str_leb_total (c ∷ s) (d ∷ t) h =
    ground (arith, h, str_leb-cons c d s t, str_leb-cons d c t s, str_leb_total s t)

pub str_leb_transitive :
    (s t u : String) → str_leb s t ≡ true → str_leb t u ≡ true → str_leb s u ≡ true
str_leb_transitive [] t u h k = str_leb-nil u
str_leb_transitive (c ∷ s) [] u h k = ground (arith, h, not_below c s)
str_leb_transitive (c ∷ s) (d ∷ t) [] h k = ground (arith, k, not_below d t)
str_leb_transitive (c ∷ s) (d ∷ t) (e ∷ u) h k = ground (
  arith,
  h,
  k,
  str_leb-cons c d s t,
  str_leb-cons d e t u,
  str_leb-cons c e s u,
  str_leb_transitive s t u,
)

is_equal : (o : Ordering) → elim o [ lt ↦ false | eq ↦ true | gt ↦ false ] ≡ true → o ≡ eq
is_equal lt h = ground (arith, h)
is_equal eq h = refl
is_equal gt h = ground (arith, h)

pub str_leb_antisym : (s t : String) → str_leb s t ≡ true → str_leb t s ≡ true → s ≡ t
str_leb_antisym [] [] h k = refl
str_leb_antisym [] (d ∷ t) h k = ground (arith, k, not_below d t)
str_leb_antisym (c ∷ s) [] h k = ground (arith, h, not_below c s)
str_leb_antisym (c ∷ s) (d ∷ t) h k =
    let first : (code c == code d) ≡ true =
      ground (arith, h, k, str_leb-cons c d s t, str_leb-cons d c t s) in
    let rest =
      str_leb_antisym s t (ground (arith, h, k, str_leb-cons c d s t, str_leb-cons d c t s))
        (ground (arith, h, k, str_leb-cons c d s t, str_leb-cons d c t s)) in
    λ i. codes_equal c d (is_equal (compare_codes (code c) (code d)) first) i ∷ rest i
