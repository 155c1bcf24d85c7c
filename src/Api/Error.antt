-- ===== src/Api/Error.antt =====
-- crates/llm-api/src/error.rs: the error of a check. A message is the constructor for its text with
-- what the text shows, and a label the path that it names.
use kir_ai.Prelude.{ℕ, Bool, true, false, Option}
use kir_ai.Json.{Text}

pub data ChatRole : Type 0 where
  system : ChatRole
  user : ChatRole
  assistant : ChatRole
  tool : ChatRole

pub data Field : Type 0 where
  role : Field
  content : Field
  name : Field
  tool_call_id : Field
  tool_calls : Field
  id : Field
  function_name : Field
  function_description : Field
  function_parameters : Field
  function_arguments : Field
  schema_type : Field
  required : Field
  enum : Field
  properties : Field
  property : Text → Field
  items : Field

-- `{label}[{index}]` and `{label}.{field}`
pub data Label : Type 0 where
  messages : Label
  tools : Label
  stop : Label
  prompt : Label
  tool_choice : Label
  at : Label → ℕ → Label
  member : Label → Field → Label

pub data Parameter : Type 0 where
  choice_count : Parameter
  max_tokens : Parameter
  max_completion_tokens : Parameter
  presence_penalty : Parameter
  frequency_penalty : Parameter
  response_format : Parameter
  parallel_tool_calls : Parameter
  logprobs : Parameter
  top_logprobs : Parameter

pub data Message : Type 0 where
  at_most_entries : Label → ℕ → Message
  at_most_bytes : Label → ℕ → Message
  serializes_to_at_most : Label → ℕ → Message
  must_not_be_empty : Label → Message
  is_required_for : Label → ChatRole → Message
  is_required_without_tool_calls : Label → Message
  is_only_allowed_for : Label → ChatRole → Message
  system_messages_first : Label → Message
  tools_pending : Label → Option ℕ → Message
  duplicate_call_id : Label → Message
  must_follow_tool_calls : Label → Message
  no_pending_call : Label → Text → Message
  must_be_followed_by_tools : Label → Message
  must_be_object : Label → Message
  must_be_array : Label → Message
  must_be_array_of_strings : Label → Message
  must_contain_only_strings : Label → Message
  schema_too_deep : Label → ℕ → ℕ → Message
  enum_too_long : Label → ℕ → ℕ → Message
  must_contain_a_type : Label → Message
  must_be_string_or_strings : Label → Message
  unsupported_schema_type : Label → Text → Message
  stop_sequences_empty : Message
  model_is_required : Message
  messages_empty : Message
  prompt_empty : Message
  required_needs_a_tool : Message
  tool_not_declared : Text → Message
  duplicate_tool_name : Text → ℕ → Message
  invalid_temperature : Message
  invalid_top_p : Message
  greater_than_zero : Parameter → Message
  max_tokens_must_match : Message
  not_supported : Parameter → Message

pub data ApiError : Type 0 where
  invalid_request : Message → ApiError
  unsupported_capability : Message → ApiError

pub data Result {ℓ} (A : Type ℓ) : Type ℓ where
  ok : A → Result A
  err : ApiError → Result A

-- `Ok(())`
abbrev pub done : Result (Unit {0})
done = ok tt

infixr 5 ◌>>◌ ◌>>=◌
-- The `?` of Rust.
abbrev pub ◌>>=◌ {ℓ} : {A B : Type ℓ} → Result A → (A → Result B) → Result B
ok a >>= k = k a
err e >>= k = err e

abbrev pub ◌>>◌ {ℓ} : {B : Type ℓ} → Result (Unit {0}) → Result B → Result B
ok u >> next = next
err e >> next = err e

abbrev pub reject {ℓ} : {A : Type ℓ} → Message → Result A
reject m = err (invalid_request m)

-- An error under a condition.
abbrev pub reject_if : Bool → Message → Result (Unit {0})
reject_if true m = reject m
reject_if false m = done

abbrev pub unsupported_if : Bool → Message → Result (Unit {0})
unsupported_if true m = err (unsupported_capability m)
unsupported_if false m = done
