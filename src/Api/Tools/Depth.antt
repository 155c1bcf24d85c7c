-- ===== src/Api/Tools/Depth.antt =====
-- crates/llm-api/src/validation/helpers.rs: how deep the check of a schema goes.
use kir_ai.Prelude.{
  ℕ, zero, suc, ◌+◌, ◌<◌, ◌≡◌, refl, sym, ap, ◌∙◌, true, ltb, u64_max, saturating_add, Bool-cases,
  inl, inr, arith,
}
use kir_ai.Json.{Fields}
use kir_ai.Api.Error.{Label, schema_too_deep, reject}
use kir_ai.Api.Tools.{schema_level, validate_schema_object}

-- A schema below the limit is refused with any fuel.
below_limit :
    (fuel depth max_depth max_enum_values : ℕ) (label : Label) (schema : Fields)
    → max_depth < depth
    → validate_schema_object fuel depth max_depth max_enum_values label schema
      ≡ reject (schema_too_deep label depth max_depth)
unfolding validate_schema_object schema_level
below_limit zero depth max_depth max_enum_values label schema h = refl
below_limit (suc fuel) depth max_depth max_enum_values label schema h =
    let deep : ltb max_depth depth ≡ true = ground arith in rw deep refl

one_level :
    (fuel fuel' depth max_depth max_enum_values : ℕ)
    → validate_schema_object fuel (saturating_add depth 1) max_depth max_enum_values
      ≡ validate_schema_object fuel' (saturating_add depth 1) max_depth max_enum_values
    → validate_schema_object (suc fuel) depth max_depth max_enum_values
      ≡ validate_schema_object (suc fuel') depth max_depth max_enum_values
unfolding validate_schema_object
one_level fuel fuel' depth max_depth max_enum_values =
    ap (λ deeper. schema_level deeper depth max_depth max_enum_values)

-- With a limit below 2 ^ 64 - 1, more fuel makes no difference to the check of a schema object where
-- the fuel reaches to the level after the limit: the recursion ends there by itself.
pub validate_schema_object-fuel :
    (fuel more depth max_depth max_enum_values : ℕ)
    → max_depth < u64_max
    → max_depth < depth + fuel
    → validate_schema_object (fuel + more) depth max_depth max_enum_values
      ≡ validate_schema_object fuel depth max_depth max_enum_values
validate_schema_object-fuel zero more depth max_depth max_enum_values small h = λ i label schema.
    (below_limit (zero + more) depth max_depth max_enum_values label schema (omega arith)
        ∙ sym (below_limit zero depth max_depth max_enum_values label schema (omega arith)))
      i
validate_schema_object-fuel (suc fuel) more depth max_depth max_enum_values small h =
    elim (Bool-cases (ltb max_depth depth)) [
      | inl t ↦ λ i label schema.
          (below_limit (suc fuel + more) depth max_depth max_enum_values label schema
                (ground (arith, t))
              ∙ sym (
                  below_limit (suc fuel) depth max_depth max_enum_values label schema
                    (ground (arith, t))))
            i
      | inr f ↦
          let next : saturating_add depth 1 ≡ depth + 1 = ground (arith, f, small) in
          let round : suc fuel + more ≡ suc (fuel + more) = omega arith in
          rw round (
            one_level (fuel + more) fuel depth max_depth max_enum_values (
              rw next (
                validate_schema_object-fuel fuel more (depth + 1) max_depth max_enum_values small
                  (omega arith))))
    ]
