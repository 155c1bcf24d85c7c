-- ===== src/Tests/ApiCases.antt =====
-- Requests of crates/llm-api.
use mathlib.Core.List.Perm
use kir_ai.Prelude.{
  ℕ, ◌≤◌, subst, ap, unwrap_or, All, inr, ◌≡◌, ◌+◌, refl, true, false, none, some, List, [], ◌∷◌,
  length, leb, if◌then◌else◌, arith,
}
use kir_ai.Json.{
  Text, is_whitespace, len_utf8, str_len, Value, no_values, add_value, no_fields, add_field,
}
use kir_ai.Api.Error.{ChatRole, done}
use kir_ai.Api.Types.{
  ToolCallType, ToolCall, ToolDefinition, ChatMessage, choose_function, ChatCompletionRequest,
}
use kir_ai.Api.Size.{
  exceeded, add, char_bytes, add_characters, add_json_string, add_comma, count_frame, counted,
  limit_exceeded, count_loop, rounds, count_value,
}
use kir_ai.Api.Size.Print.{
  utf8, print_text, hex_digit, print_char, print_characters, print_string, print,
}
use kir_ai.Api.Size.Exact.{count_value-print}
use kir_ai.Api.Checks.{
  default_limits, validate_len_at_most, validate_string_bytes, is_blank, validate_non_empty_string,
  validate_json_bytes_at_most, validate_stop_from, validate_stop_sequence_values,
  validate_choice_count, is_finite, validate_neutral_penalty, is_temperature, validate_temperature,
  is_outside_top_p, validate_top_p, validate_sampling_controls,
}
use kir_ai.Api.Messages.{
  reject_tool_call_id_for_non_tool_message, reject_tool_calls_for_non_assistant_message,
  role_fields, validate_chat_message_role_fields, same_text, contains, remove,
  reject_non_tool_message_while_tool_calls_pending, insert_calls, leave_pending, answer_call,
  order_step, validate_chat_message_order, validate_tool_calls, bytes_if_any, non_empty_for_tool,
  validate_message_sizes, reject_pending, validate_messages_from, validate_chat_messages,
}
use kir_ai.Api.Messages.Dialogue.{
  IsDistinct, no_answer, answer, ended, assistant_turn, IsDialogue, conversation,
}
use kir_ai.Api.Messages.Sized.{IsVisible, IsShort, IsSizedCall, IsSized}
use kir_ai.Api.Messages.Complete.{IsDialogue-validate_chat_messages}
use kir_ai.Api.Messages.Sound.{validate_chat_messages-IsDialogue}
use kir_ai.Api.Tools.{
  get, count_values, all_strings, validate_schema_type_name, validate_schema_types,
  validate_schema_type, check_type, check_required, check_enum, nested, check_each,
  check_properties, check_items, schema_level, validate_schema_object, validate_tool_schema_shape,
  validate_tool, validate_tools_from, validate_tools, unique_names_from, validate_unique_tool_names,
  validate_tool_choice,
}
use kir_ai.Api.Tools.Depth.{validate_schema_object-fuel}
use kir_ai.Api.Request.{validate_chat, validate_completion}
use kir_ai.Api.Request.Served.{IsServed, validate_chat-IsServed}

-- Opens what a check calls.
unfoldable pub checks : Unit {0}
unfolding is_whitespace len_utf8 str_len exceeded add char_bytes add_characters add_json_string
    add_comma count_frame count_loop rounds count_value utf8 print_text hex_digit print_char
    print_characters print_string print validate_len_at_most validate_string_bytes is_blank
    validate_non_empty_string validate_json_bytes_at_most validate_stop_from
    validate_stop_sequence_values validate_choice_count is_finite validate_neutral_penalty
    is_temperature validate_temperature is_outside_top_p validate_top_p validate_sampling_controls
    reject_tool_call_id_for_non_tool_message reject_tool_calls_for_non_assistant_message role_fields
    validate_chat_message_role_fields same_text contains remove
    reject_non_tool_message_while_tool_calls_pending insert_calls leave_pending answer_call
    order_step validate_chat_message_order validate_tool_calls bytes_if_any non_empty_for_tool
    validate_message_sizes reject_pending validate_messages_from validate_chat_messages get
    count_values all_strings validate_schema_type_name validate_schema_types validate_schema_type
    check_type check_required check_enum nested check_each check_properties check_items schema_level
    validate_schema_object validate_tool_schema_shape validate_tool validate_tools_from
    validate_tools unique_names_from validate_unique_tool_names validate_tool_choice validate_chat
    validate_completion
checks = tt

-- "f", "x" and "y"
abbrev f : Text
f = 102 ∷ []

abbrev x : Text
x = 120 ∷ []

abbrev y : Text
y = 121 ∷ []

-- {"f":["x",null],"y":{}}
abbrev nested_value : Value
nested_value = Value.object (
    add_field f (Value.array (add_value (Value.string x) (add_value Value.null no_values)))
      (add_field y (Value.object no_fields) no_fields))

nested_bytes : length (print nested_value) ≡ 23
unfolding checks
nested_bytes = refl

nested_exceeds : count_value 22 nested_value ≡ limit_exceeded
unfolding checks
nested_exceeds = refl

count_value-print_example : count_value 23 nested_value ≡ (
    if leb (length (print nested_value)) 23
    then counted (record { written = length (print nested_value); max = 23 })
    else limit_exceeded)
count_value-print_example = count_value-print 23 nested_value (omega arith)

abbrev text_message : ChatRole → Text → ChatMessage
text_message role content = record {
  role = role;
  content = some content;
  name = none;
  tool_call_id = none;
  tool_calls = [];
}

abbrev call : Text → ToolCall
call id = record {
  id = id;
  call_type = ToolCallType.function;
  function = record { name = f; arguments = nested_value };
}

abbrev calls_message : ChatMessage
calls_message = record {
  role = ChatRole.assistant;
  content = none;
  name = none;
  tool_call_id = none;
  tool_calls = call x ∷ call y ∷ [];
}

abbrev answer_message : Text → ChatMessage
answer_message id = record {
  role = ChatRole.tool;
  content = some f;
  name = none;
  tool_call_id = some id;
  tool_calls = [];
}

-- The calls are answered in the other order.
abbrev dialogue : List ChatMessage
dialogue =
    text_message ChatRole.system f
    ∷ text_message ChatRole.user x
    ∷ calls_message
    ∷ answer_message y
    ∷ answer_message x
    ∷ text_message ChatRole.assistant y
    ∷ []

dialogue_passes : validate_chat_messages dialogue default_limits ≡ done
unfolding checks
dialogue_passes = refl

validate_chat_messages-IsDialogue_example : IsDialogue dialogue
validate_chat_messages-IsDialogue_example =
    validate_chat_messages-IsDialogue dialogue default_limits dialogue_passes

-- The same turn as a conversation, apart from the code.
abbrev turn : List ChatMessage
turn = calls_message ∷ answer_message y ∷ answer_message x ∷ []

turn_form : IsDialogue turn
unfolding IsDistinct checks
turn_form = conversation (
    assistant_turn (record { role = refl; content = inr refl; no_call_id = refl })
      (refl, (refl, tt))
      (answer (record { role = refl; content = refl; call_id = refl; no_calls = refl })
        (answer (record { role = refl; content = refl; call_id = refl; no_calls = refl })
          no_answer))
      (Perm.swap x y []) ended)

some_text : (P : Text → Type 0) (a t : Text) → P a → some a ≡ some t → P t
some_text P a t h e = subst P (ap (λ o. unwrap_or o a) e) h

letter-IsVisible : (c : ℕ) → is_whitespace c ≡ false → IsVisible (c ∷ [])
unfolding IsVisible
letter-IsVisible c v h = absurd (ground (arith, h.0, v))

letter-IsShort : (c most : ℕ) → 4 ≤ most → IsShort most (some (c ∷ []))
unfolding IsShort str_len len_utf8
letter-IsShort c most le t e = some_text (λ t. str_len t ≤ most) (c ∷ []) t (ground (arith, le)) e

none-IsShort : (most : ℕ) → IsShort most none
unfolding IsShort
none-IsShort most t e = absurd (ground (arith, e))

call_sizes : (id : Text) → str_len id ≤ 1024 → IsSizedCall (call id)
unfolding checks
call_sizes id le = record {
  id = le;
  function_name = omega arith;
  visible = letter-IsVisible 102 refl;
  arguments = omega arith;
}

calls_sizes : IsSized default_limits calls_message
unfolding checks
calls_sizes = record {
  content = none-IsShort 8388608;
  name = none-IsShort 1024;
  tool_call_id = none-IsShort 1024;
  answered = λ r key e. absurd (ground (arith, e));
  few_calls = omega arith;
  calls = (call_sizes x (omega arith), (call_sizes y (omega arith), tt));
}

answer_sizes : (c : ℕ) → is_whitespace c ≡ false → IsSized default_limits (answer_message (c ∷ []))
answer_sizes c v = record {
  content = letter-IsShort 102 8388608 (omega arith);
  name = none-IsShort 1024;
  tool_call_id = letter-IsShort c 1024 (omega arith);
  answered = λ r key e. some_text IsVisible (c ∷ []) key (letter-IsVisible c v) e;
  few_calls = omega arith;
  calls = tt;
}

turn_sizes : All (IsSized default_limits) turn
unfolding is_whitespace
turn_sizes = (calls_sizes, (answer_sizes 121 refl, (answer_sizes 120 refl, tt)))

IsDialogue-validate_chat_messages_example : validate_chat_messages turn default_limits ≡ done
IsDialogue-validate_chat_messages_example =
    IsDialogue-validate_chat_messages turn default_limits turn_form turn_sizes

validate_schema_object-fuel_example :
    validate_schema_object (17 + 100) 0 16 256 ≡ validate_schema_object 17 0 16 256
validate_schema_object-fuel_example =
    validate_schema_object-fuel 17 100 0 16 256 (omega arith) (omega arith)

abbrev declared_tool : ToolDefinition
declared_tool = record {
  tool_type = ToolCallType.function;
  function = record { name = f; description = none; parameters = nested_value };
}

abbrev chat : ChatCompletionRequest
chat = record {
  model = f;
  messages = dialogue;
  tools = declared_tool ∷ [];
  tool_choice = some (choose_function f);
  parallel_tool_calls = some false;
  response_format = none;
  stream = true;
  stream_options = record { include_usage = true };
  temperature = some (record { is_negative = false; magnitude = 0x40000000 });
  top_p = some (record { is_negative = false; magnitude = 0x3f800000 });
  presence_penalty = some (record { is_negative = true; magnitude = 0 });
  frequency_penalty = none;
  logprobs = none;
  top_logprobs = none;
  max_tokens = some 9;
  max_completion_tokens = some 9;
  n = some 1;
  stop = x ∷ [];
}

chat_passes : validate_chat chat default_limits ≡ done
unfolding checks
chat_passes = refl

validate_chat-IsServed_example : IsServed chat
validate_chat-IsServed_example = validate_chat-IsServed chat default_limits chat_passes
