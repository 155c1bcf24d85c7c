-- ===== src/Api/Request.antt =====
-- crates/llm-api/src/validation.rs: the checks of a whole request.
pub mod Served
use kir_ai.Prelude.{
  ℕ, Bool, true, false, ◌&&◌, ◌||◌, not, Option, none, some, List, [], ◌∷◌, length, is_empty, ◌==◌,
  if◌then◌else◌,
}
use kir_ai.Json.{Text}
use kir_ai.Api.Error.{
  Parameter, max_tokens, max_completion_tokens, presence_penalty, frequency_penalty,
  response_format, parallel_tool_calls, logprobs, top_logprobs, Label, messages, tools, prompt,
  Message, model_is_required, messages_empty, prompt_empty, greater_than_zero,
  max_tokens_must_match, not_supported, Result, ok, err, done, ◌>>◌, reject_if, unsupported_if,
}
use kir_ai.Api.Types.{
  ResponseFormat, free_text, json_object, json_schema, ChatCompletionRequest, CompletionRequest,
}
use kir_ai.Api.Checks.{
  max_chat_messages, max_tools, RequestLimits, default_limits, validate_len_at_most,
  validate_string_bytes, is_blank, validate_stop_sequence_values, validate_choice_count,
  validate_neutral_penalty, validate_sampling_controls,
}
use kir_ai.Api.Messages.{is_some, validate_chat_messages}
use kir_ai.Api.Tools.{validate_tools, validate_tool_choice}

-- `matches!(format, Some(ResponseFormat::JsonSchema { .. }))`
abbrev pub is_json_schema : Option ResponseFormat → Bool
is_json_schema none = false
is_json_schema (some free_text) = false
is_json_schema (some json_object) = false
is_json_schema (some (json_schema schema)) = true

-- `matches!(flag, Some(true))`
abbrev pub is_set : Option Bool → Bool
is_set none = false
is_set (some flag) = flag

-- `matches!(count, Some(0))`
abbrev pub is_zero : Option ℕ → Bool
is_zero none = false
is_zero (some count) = count == 0

-- `max_completion_tokens` wins where both are given.
unfoldable pub effective_max_tokens : ChatCompletionRequest → Option ℕ
effective_max_tokens r = elim r.max_completion_tokens [
  | some count ↦ some count
  | none ↦ r.max_tokens
]

-- Both are given, and differ.
abbrev pub differ : Option ℕ → Option ℕ → Bool
differ (some a) (some b) = not (a == b)
differ _ _ = false

-- `ChatCompletionRequest::validate_with_limits`
unfoldable pub validate_chat : ChatCompletionRequest → RequestLimits → Result (Unit {0})
validate_chat r limits =
    reject_if (is_blank r.model) model_is_required
    >> (reject_if (is_empty r.messages) messages_empty
        >> (validate_len_at_most messages (length r.messages) max_chat_messages
            >> (validate_chat_messages r.messages limits
                >> (validate_len_at_most tools (length r.tools) max_tools
                    >> (validate_tools r.tools limits
                        >> (validate_stop_sequence_values r.stop
                            >> (unsupported_if (is_json_schema r.response_format)
                                  (not_supported response_format)
                                >> (validate_tool_choice r.tools r.tool_choice
                                    >> (unsupported_if (is_set r.parallel_tool_calls)
                                          (not_supported parallel_tool_calls)
                                        >> (validate_sampling_controls r.temperature r.top_p
                                            >> (validate_neutral_penalty presence_penalty
                                                  r.presence_penalty
                                                >> (validate_neutral_penalty frequency_penalty
                                                      r.frequency_penalty
                                                    >> (unsupported_if (is_set r.logprobs)
                                                          (not_supported logprobs)
                                                        >> (unsupported_if (is_some r.top_logprobs)
                                                            (not_supported top_logprobs)
                                                            >> (reject_if (is_zero r.max_tokens)
                                                            (greater_than_zero max_tokens)
                                                            >> (reject_if
                                                            (is_zero r.max_completion_tokens)
                                                            (greater_than_zero
                                                            max_completion_tokens)
                                                            >> (reject_if
                                                            (differ r.max_tokens
                                                            r.max_completion_tokens)
                                                            max_tokens_must_match
                                                            >> validate_choice_count
                                                            r.n)))))))))))))))))

-- `CompletionRequest::validate_with_limits`
unfoldable pub validate_completion : CompletionRequest → RequestLimits → Result (Unit {0})
validate_completion r limits =
    reject_if (is_blank r.model) model_is_required
    >> (reject_if (is_empty r.prompt) prompt_empty
        >> (validate_string_bytes prompt r.prompt limits.completion_prompt_bytes
            >> (validate_stop_sequence_values r.stop
                >> (validate_sampling_controls r.temperature r.top_p
                    >> (validate_neutral_penalty presence_penalty r.presence_penalty
                        >> (validate_neutral_penalty frequency_penalty r.frequency_penalty
                            >> (unsupported_if (is_some r.logprobs) (not_supported logprobs)
                                >> (reject_if (is_zero r.max_tokens) (greater_than_zero max_tokens)
                                    >> validate_choice_count r.n))))))))
