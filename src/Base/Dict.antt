-- ===== src/Base/Dict.antt =====
-- Python's `dict` with string keys, in insertion order.
use Prim.Native.String.{String}
use mathlib.Core.Path.{◌≡◌, refl, sym, ap, ◌∙◌}
use mathlib.Core.Logic.{inl, inr}
use mathlib.Core.Bool.{Bool, true, false}
use mathlib.Core.Option.{Option, none, some}
use mathlib.Core.List.{List, [], ◌∷◌}
use native.Mathlib.Omega.{arith}
use text.Mathlib.Text.{◌==◌}
use text.Mathlib.TextEquality.{eq_iff}
use rag_system.Base.Tests.{if◌then◌else◌, Bool-cases}

abbrev pub Dict {ℓ} : Type ℓ → Type ℓ
Dict V = List (String × V)

module _ {ℓ} {V : Type ℓ} where
  -- `d.get(k)`
  unfoldable pub get : String → Dict V → Option V
  get k [] = none
  get k ((j, v) ∷ d) = if j == k then some v else get k d

  -- `k in d`
  unfoldable pub contains : String → Dict V → Bool
  unfolding get
  contains k d = elim (get k d) [ none ↦ false | some _ ↦ true ]

  -- `d[k] = v`
  unfoldable pub put : String → V → Dict V → Dict V
  put k v [] = (k, v) ∷ []
  put k v ((j, w) ∷ d) = if j == k then (k, v) ∷ d else (j, w) ∷ put k v d

  -- `d.pop(k, None)`
  unfoldable pub remove : String → Dict V → Dict V
  remove k [] = []
  remove k ((j, w) ∷ d) = let rest = remove k d in if j == k then rest else (j, w) ∷ rest

  pub get-put :
      (k j : String) (v : V) (d : Dict V) → get j (put k v d) ≡ (if k == j then some v else get j d)
  unfolding get put
  get-put k j v [] = refl
  get-put k j v ((i, w) ∷ d) = ground (arith, eq_iff k j, eq_iff i k, eq_iff i j, get-put k j v d)

  pub get-remove :
      (k j : String) (d : Dict V) → get j (remove k d) ≡ (if k == j then none else get j d)
  unfolding get remove
  get-remove k j [] = ground arith
  get-remove k j ((i, w) ∷ d) = ground (arith, eq_iff k j, eq_iff i k, eq_iff i j, get-remove k j d)

  pub get-put_self : (k : String) (v : V) (d : Dict V) → get k (put k v d) ≡ some v
  get-put_self k v d = ground (arith, get-put k k v d, eq_iff k k)

  -- No key is there twice.
  abbrev pub Distinct : Dict V → Type ℓ
  Distinct [] = Unit
  Distinct ((k, v) ∷ d) = (get k d ≡ none) × Distinct d

  pub put-Distinct : (k : String) (v : V) (d : Dict V) → Distinct d → Distinct (put k v d)
  unfolding put get
  put-Distinct k v [] h = (refl, tt)
  put-Distinct k v ((j, w) ∷ d) (none_left, h) = elim (Bool-cases (j == k)) [
    | inl same ↦ rw same (ap (λ i. get i d) (sym ((eq_iff j k).0 same)) ∙ none_left, h)
    | inr other ↦
        rw other (ground (arith, get-put k j v d, eq_iff k j, eq_iff j k), put-Distinct k v d h)
  ]

pub ruleset dict_laws = (get-put, get-remove)
