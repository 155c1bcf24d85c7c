-- ===== src/Api/Checks.antt =====
-- crates/llm-api/src/limits.rs, and the checks of one value in validation/helpers.rs.
use kir_ai.Prelude.{
  ℕ, ◌+◌, Bool, true, ◌&&◌, ◌||◌, not, Option, none, some, List, [], ◌∷◌, length, is_empty, ltb,
  leb, ◌==◌, if◌then◌else◌,
}
use kir_ai.Json.{Text, is_whitespace, str_len, Value}
use kir_ai.Api.Error.{
  Parameter, choice_count, Label, at, stop, at_most_entries, at_most_bytes, serializes_to_at_most,
  must_not_be_empty, stop_sequences_empty, invalid_temperature, invalid_top_p, greater_than_zero,
  not_supported, unsupported_capability, Result, err, done, ◌>>◌, reject, reject_if, unsupported_if,
}
use kir_ai.Api.Types.{F32}
use kir_ai.Api.Size.{counted, limit_exceeded, out_of_fuel, count_value}

abbrev pub max_chat_messages : ℕ
max_chat_messages = 128

abbrev pub max_message_content_bytes : ℕ
max_message_content_bytes = 8388608

abbrev pub max_completion_prompt_bytes : ℕ
max_completion_prompt_bytes = 8388608

abbrev pub max_json_body_bytes : ℕ
max_json_body_bytes = 16777216

abbrev pub max_name_bytes : ℕ
max_name_bytes = 1024

abbrev pub max_tools : ℕ
max_tools = 128

abbrev pub max_tool_description_bytes : ℕ
max_tool_description_bytes = 1048576

abbrev pub max_tool_schema_bytes : ℕ
max_tool_schema_bytes = 1048576

abbrev pub max_tool_schema_depth : ℕ
max_tool_schema_depth = 16

abbrev pub max_tool_schema_enum_values : ℕ
max_tool_schema_enum_values = 256

abbrev pub max_tool_calls_per_message : ℕ
max_tool_calls_per_message = 128

abbrev pub max_tool_argument_bytes : ℕ
max_tool_argument_bytes = 1048576

abbrev pub max_stop_sequences : ℕ
max_stop_sequences = 4

abbrev pub max_stop_sequence_bytes : ℕ
max_stop_sequence_bytes = 1024

pub record RequestLimits : Type 0 where
  pub json_body_bytes : ℕ
  pub message_content_bytes : ℕ
  pub completion_prompt_bytes : ℕ
  pub tool_schema_depth : ℕ
  pub tool_schema_enum_values : ℕ

abbrev pub default_limits : RequestLimits
default_limits = record {
  json_body_bytes = max_json_body_bytes;
  message_content_bytes = max_message_content_bytes;
  completion_prompt_bytes = max_completion_prompt_bytes;
  tool_schema_depth = max_tool_schema_depth;
  tool_schema_enum_values = max_tool_schema_enum_values;
}

unfoldable pub validate_len_at_most : Label → ℕ → ℕ → Result (Unit {0})
validate_len_at_most label actual max = reject_if (ltb max actual) (at_most_entries label max)

unfoldable pub validate_string_bytes : Label → Text → ℕ → Result (Unit {0})
unfolding str_len
validate_string_bytes label value max =
    reject_if (ltb max (str_len value)) (at_most_bytes label max)

-- `trim().is_empty()`
unfoldable pub is_blank : Text → Bool
unfolding is_whitespace
is_blank [] = true
is_blank (c ∷ cs) = is_whitespace c && is_blank cs

unfoldable pub validate_non_empty_string : Label → Text → Result (Unit {0})
unfolding is_blank
validate_non_empty_string label value = reject_if (is_blank value) (must_not_be_empty label)

unfoldable pub validate_json_bytes_at_most : Label → Value → ℕ → Result (Unit {0})
validate_json_bytes_at_most label value max = elim (count_value max value) [
  | counted c ↦ done
  | limit_exceeded ↦ reject (serializes_to_at_most label max)
  | out_of_fuel ↦ done
]

-- The loop of `validate_stop_sequence_values` from some index on.
unfoldable pub validate_stop_from : ℕ → List Text → Result (Unit {0})
unfolding validate_string_bytes
validate_stop_from index [] = done
validate_stop_from index (sequence ∷ rest) =
    reject_if (is_empty sequence) stop_sequences_empty
    >> (validate_string_bytes (at stop index) sequence max_stop_sequence_bytes
        >> validate_stop_from (index + 1) rest)

unfoldable pub validate_stop_sequence_values : List Text → Result (Unit {0})
unfolding validate_len_at_most validate_stop_from
validate_stop_sequence_values sequences =
    validate_len_at_most stop (length sequences) max_stop_sequences
    >> validate_stop_from 0 sequences

unfoldable pub validate_choice_count : Option ℕ → Result (Unit {0})
validate_choice_count none = done
validate_choice_count (some n) =
    if n == 0
    then reject (greater_than_zero choice_count)
    else (if n == 1 then done else err (unsupported_capability (not_supported choice_count)))

-- `f32::is_finite`: the exponent is not all ones.
unfoldable pub is_finite : F32 → Bool
is_finite x = ltb x.magnitude 0x7f800000

unfoldable pub validate_neutral_penalty : Parameter → Option F32 → Result (Unit {0})
unfolding is_finite
validate_neutral_penalty name none = done
validate_neutral_penalty name (some value) =
    unsupported_if (not (is_finite value) || not (value.magnitude == 0)) (not_supported name)

-- `(0.0..=2.0).contains`, where `-0.0` is `0.0`
unfoldable pub is_temperature : F32 → Bool
is_temperature x = x.magnitude == 0 || (not x.is_negative && leb x.magnitude 0x40000000)

unfoldable pub validate_temperature : Option F32 → Result (Unit {0})
unfolding is_finite is_temperature
validate_temperature none = done
validate_temperature (some temperature) =
    reject_if (not (is_finite temperature) || not (is_temperature temperature)) invalid_temperature

-- `top_p <= 0.0 || top_p > 1.0`
unfoldable pub is_outside_top_p : F32 → Bool
is_outside_top_p x =
    (x.is_negative || x.magnitude == 0) || (not x.is_negative && ltb 0x3f800000 x.magnitude)

unfoldable pub validate_top_p : Option F32 → Result (Unit {0})
unfolding is_finite is_outside_top_p
validate_top_p none = done
validate_top_p (some top_p) =
    reject_if (not (is_finite top_p) || is_outside_top_p top_p) invalid_top_p

unfoldable pub validate_sampling_controls : Option F32 → Option F32 → Result (Unit {0})
unfolding validate_temperature validate_top_p
validate_sampling_controls temperature top_p =
    validate_temperature temperature >> validate_top_p top_p
