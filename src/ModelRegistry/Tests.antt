-- ===== src/ModelRegistry/Tests.antt =====
-- Runs of the model registry, and its theorems at concrete inputs.
use rag_system.Base.{
  ℕ, String, Option, str_eq, eq_iff, some, if◌then◌else◌, ◌≡◌, refl, none, [], ◌∷◌, arith,
}
use rag_system.Base.Dict
use rag_system.ModelRegistry.Versions.{
  ModelVersion, canary, production, archived, Versions, find, rollback_versions,
  get_latest_production, are_numbers, err, value_error,
}
use rag_system.ModelRegistry.Production.{IsValid}
use rag_system.ModelRegistry.Operations.{IsSound, put-IsSound, apply, apply-IsSound, register_op}

abbrev v1 : ModelVersion
v1 = record { version = "1"; status = archived }

abbrev v2 : ModelVersion
v2 = record { version = "01"; status = production }

abbrev v3 : ModelVersion
v3 = record { version = "2.0"; status = canary }

abbrev slm : Versions
slm = v1 ∷ v2 ∷ v3 ∷ []

empty-IsSound : IsSound []
unfolding Dict.get
empty-IsSound = record { at_name = λ name vs e. absurd (ground arith) }

-- No version but "1" is a number.
abbrev int : String → Option ℕ
int v = if str_eq v "1" then some 1 else none

abbrev text_of : ℕ → String
text_of n = "1"

apply-IsSound_example : IsSound (apply int text_of (register_op "slm" "/m/1" (some "2.0")) [])
apply-IsSound_example =
    apply-IsSound int text_of (register_op "slm" "/m/1" (some "2.0")) [] empty-IsSound

-- The second and the third version are no numbers, so that there is no rollback.
not_numbers : rollback_versions int slm ≡ err value_error
unfolding rollback_versions get_latest_production are_numbers
not_numbers = refl

-- One version, found by its own text alone.
slm-IsValid : IsValid slm
unfolding find
slm-IsValid = record {
  distinct = (
    (ground (arith, eq_iff "01" "1"), (ground (arith, eq_iff "2.0" "1"), tt)),
    ((ground (arith, eq_iff "2.0" "01"), tt), (tt, tt)),
  );
  one_production = λ v w x y p q r s. ground (arith, eq_iff "01" v, eq_iff "01" w);
}

models-IsSound : IsSound (("slm", slm) ∷ [])
unfolding Dict.put
models-IsSound = put-IsSound "slm" slm [] slm-IsValid empty-IsSound
