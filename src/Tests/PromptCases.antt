-- ===== src/Tests/PromptCases.antt =====
-- The estimate of a prompt in crates/llm-server/src/engine/scheduler.rs.
use kir_ai.Prelude.{false, ◌-◌, ◌^◌, ◌≤◌, ◌<◌, ◌≡◌, refl, ◌⊎◌, none, some, [], ◌∷◌, arith, u64_max}
use kir_ai.Scheduler.State.{SchedulerClass, ModelSchedulerOptions}
use kir_ai.Scheduler.Admission.{classify_estimated_tokens}
use kir_ai.Json.{Text, Value, no_fields, add_field, no_values, add_value, is_whitespace, len_utf8}
use kir_ai.Scheduler.Estimate.{
  div_ceil4, count_words, count_characters, estimated_text_tokens, digits_loop, decimal_digits,
  estimated_json_string_tokens, estimated_json_number_tokens, add_json_object_field_tokens,
  add_item_tokens, estimated_json_value_tokens,
}
use kir_ai.Scheduler.Digits.{decimal_digits-pow}
use kir_ai.Api.Error.{ChatRole}
use kir_ai.Api.Types.{ToolCallType, ToolDefinition, ChatCompletionRequest}
use kir_ai.Scheduler.Prompt.{
  estimated_tool_call_type_tokens, add_description, estimated_function_definition_tokens,
  estimated_tool_definition_tokens, add_messages, add_tools, estimated_chat_tokens, classify_chat,
}
use kir_ai.Scheduler.Volume.{characters}
use kir_ai.Scheduler.Volume.Chat.{
  messages_characters, tools_characters, chat_characters, classify_chat-chat_characters,
}

-- Opens what the estimate calls.
estimate : Unit {0}
unfolding div_ceil4 is_whitespace len_utf8 count_words count_characters estimated_text_tokens
    digits_loop decimal_digits estimated_json_string_tokens estimated_json_number_tokens
    add_json_object_field_tokens add_item_tokens estimated_json_value_tokens
    estimated_tool_call_type_tokens add_description estimated_function_definition_tokens
    estimated_tool_definition_tokens add_messages add_tools estimated_chat_tokens classify_chat
    classify_estimated_tokens
estimate = tt

-- "a b c d"
abbrev words : Text
words = 97 ∷ 32 ∷ 98 ∷ 32 ∷ 99 ∷ 32 ∷ 100 ∷ []

words_tokens : estimated_text_tokens words ≡ 4
unfolding estimate
words_tokens = refl

-- Two characters of three bytes
wide_tokens : estimated_text_tokens (32066 ∷ 12431 ∷ []) ≡ 4
unfolding estimate
wide_tokens = refl

most_digits : decimal_digits u64_max ≡ 20
unfolding estimate
most_digits = refl

decimal_digits-pow_example :
    (1_000 < 10 ^ decimal_digits 1_000)
    × ((decimal_digits 1_000 ≡ 1) ⊎ (10 ^ (decimal_digits 1_000 - 1) ≤ 1_000))
decimal_digits-pow_example = decimal_digits-pow 1_000 (omega arith)

abbrev options : ModelSchedulerOptions
options = record {
  concurrency_limit = 1;
  queue_limit = 1;
  queue_timeout = none;
  prefill_threshold_chars = 4;
  prefill_burst = 1;
}

abbrev chat : ChatCompletionRequest
chat = record {
  model = words;
  messages =
      record {
        role = ChatRole.user;
        content = some words;
        name = none;
        tool_call_id = none;
        tool_calls = [];
      }
      ∷ [];
  tools = [];
  tool_choice = none;
  parallel_tool_calls = none;
  response_format = none;
  stream = false;
  stream_options = record { include_usage = false };
  temperature = none;
  top_p = none;
  presence_penalty = none;
  frequency_penalty = none;
  logprobs = none;
  top_logprobs = none;
  max_tokens = none;
  max_completion_tokens = none;
  n = none;
  stop = [];
}

abbrev tool : ToolDefinition
tool = record {
  tool_type = ToolCallType.function;
  function = record {
    name = words;
    description = none;
    parameters =
        Value.object (add_field words (Value.array (add_value Value.null no_values)) no_fields);
  };
}

chat_class : classify_chat options chat ≡ SchedulerClass.prefill
unfolding estimate
chat_class = refl

tool_tokens : estimated_tool_definition_tokens tool ≡ 36
unfolding estimate
tool_tokens = refl

-- Seven characters in the message, and in the name and the key of the tool.
chat_volume : chat_characters (record chat { tools = tool ∷ [] }) ≡ 21
unfolding chat_characters messages_characters tools_characters characters
chat_volume = refl

classify_chat-chat_characters_example :
    classify_chat options (record chat { tools = tool ∷ [] }) ≡ SchedulerClass.prefill
classify_chat-chat_characters_example =
    classify_chat-chat_characters options (record chat { tools = tool ∷ [] }) (omega arith)
      (omega (arith, chat_volume))
