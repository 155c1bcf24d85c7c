-- ===== src/Scheduler/Prompt.antt =====
-- crates/llm-server/src/engine/scheduler.rs: the estimate of a chat request and its class.
use kir_ai.Api.Types.{
  ToolCallType, FunctionDefinition, ToolDefinition, ChatMessage, ChatCompletionRequest,
}
use kir_ai.Prelude.{ℕ, Bool, false, Option, none, some, List, [], ◌∷◌, map, saturating_add}
use kir_ai.Scheduler.State.{SchedulerClass, ModelSchedulerOptions}
use kir_ai.Scheduler.Admission.{classify_estimated_tokens}
use kir_ai.Json.{Text}
use kir_ai.Scheduler.Estimate.{
  estimated_text_tokens, estimated_json_string_tokens, estimated_json_value_tokens,
  add_json_object_field_tokens,
}

-- "type", "function", "name", "description" and "parameters"
abbrev pub type_key : Text
type_key = 116 ∷ 121 ∷ 112 ∷ 101 ∷ []

abbrev pub function_key : Text
function_key = 102 ∷ 117 ∷ 110 ∷ 99 ∷ 116 ∷ 105 ∷ 111 ∷ 110 ∷ []

abbrev pub name_key : Text
name_key = 110 ∷ 97 ∷ 109 ∷ 101 ∷ []

abbrev pub description_key : Text
description_key = 100 ∷ 101 ∷ 115 ∷ 99 ∷ 114 ∷ 105 ∷ 112 ∷ 116 ∷ 105 ∷ 111 ∷ 110 ∷ []

abbrev pub parameters_key : Text
parameters_key = 112 ∷ 97 ∷ 114 ∷ 97 ∷ 109 ∷ 101 ∷ 116 ∷ 101 ∷ 114 ∷ 115 ∷ []

unfoldable pub estimated_tool_call_type_tokens : ToolCallType → ℕ
unfolding estimated_json_string_tokens
estimated_tool_call_type_tokens ToolCallType.function = estimated_json_string_tokens function_key

-- The field of the description, where there is one.
unfoldable pub add_description : Option Text → ℕ × Bool → ℕ × Bool
unfolding add_json_object_field_tokens estimated_json_string_tokens
add_description none so_far = so_far
add_description (some description) so_far =
    add_json_object_field_tokens so_far description_key (estimated_json_string_tokens description)

unfoldable pub estimated_function_definition_tokens : FunctionDefinition → ℕ
unfolding add_json_object_field_tokens estimated_json_string_tokens estimated_json_value_tokens
    add_description
estimated_function_definition_tokens f =
    let named =
      add_json_object_field_tokens (1, false) name_key (estimated_json_string_tokens f.name) in
    (add_json_object_field_tokens (add_description f.description named) parameters_key
      (estimated_json_value_tokens f.parameters)).0

unfoldable pub estimated_tool_definition_tokens : ToolDefinition → ℕ
unfolding add_json_object_field_tokens estimated_tool_call_type_tokens
    estimated_function_definition_tokens
estimated_tool_definition_tokens t =
    (add_json_object_field_tokens
      (add_json_object_field_tokens (1, false) type_key
        (estimated_tool_call_type_tokens t.tool_type))
      function_key (estimated_function_definition_tokens t.function)).0

abbrev pub contents : List ChatMessage → List (Option Text)
contents messages = map (λ m. m.content) messages

-- The fold over the contents of the messages, and then the tools.
unfoldable pub add_messages : ℕ → List (Option Text) → ℕ
unfolding estimated_text_tokens
add_messages total [] = total
add_messages total (none ∷ messages) = add_messages (saturating_add total 0) messages
add_messages total (some content ∷ messages) =
    add_messages (saturating_add total (estimated_text_tokens content)) messages

unfoldable pub add_tools : ℕ → List ToolDefinition → ℕ
unfolding estimated_tool_definition_tokens
add_tools total [] = total
add_tools total (t ∷ tools) =
    add_tools (saturating_add total (estimated_tool_definition_tokens t)) tools

unfoldable pub estimated_chat_tokens : ChatCompletionRequest → ℕ
unfolding add_messages add_tools
estimated_chat_tokens request = add_tools (add_messages 0 (contents request.messages)) request.tools

unfoldable pub classify_chat : ModelSchedulerOptions → ChatCompletionRequest → SchedulerClass
unfolding classify_estimated_tokens estimated_chat_tokens
classify_chat options request = classify_estimated_tokens options (estimated_chat_tokens request)

unfoldable pub classify_completion : ModelSchedulerOptions → Text → SchedulerClass
unfolding classify_estimated_tokens estimated_text_tokens
classify_completion options prompt =
    classify_estimated_tokens options (estimated_text_tokens prompt)
