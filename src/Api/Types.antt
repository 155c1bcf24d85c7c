-- ===== src/Api/Types.antt =====
-- crates/llm-api/src/types.rs, tool_schema.rs and request.rs: the requests. An f32 is its sign and the
-- other bits, which are ordered as the magnitude.
use kir_ai.Prelude.{ℕ, Bool, Option, List}
use kir_ai.Json.{Text, Value}
use kir_ai.Api.Error.{ChatRole}

pub record F32 : Type 0 where
  pub is_negative : Bool
  pub magnitude : ℕ

pub data ToolCallType : Type 0 where
  function : ToolCallType

pub record FunctionDefinition : Type 0 where
  pub name : Text
  pub description : Option Text
  pub parameters : Value

pub record ToolDefinition : Type 0 where
  pub tool_type : ToolCallType
  pub function : FunctionDefinition

pub record ToolCallFunction : Type 0 where
  pub name : Text
  pub arguments : Value

pub record ToolCall : Type 0 where
  pub id : Text
  pub call_type : ToolCallType
  pub function : ToolCallFunction

pub record ChatMessage : Type 0 where
  pub role : ChatRole
  pub content : Option Text
  pub name : Option Text
  pub tool_call_id : Option Text
  pub tool_calls : List ToolCall

pub data ResponseFormat : Type 0 where
  free_text : ResponseFormat
  json_object : ResponseFormat
  json_schema : Value → ResponseFormat

pub data ToolChoice : Type 0 where
  choose_auto : ToolChoice
  choose_none : ToolChoice
  choose_required : ToolChoice
  choose_function : Text → ToolChoice

pub record StreamOptions : Type 0 where
  pub include_usage : Bool

pub record ChatCompletionRequest : Type 0 where
  pub model : Text
  pub messages : List ChatMessage
  pub tools : List ToolDefinition
  pub tool_choice : Option ToolChoice
  pub parallel_tool_calls : Option Bool
  pub response_format : Option ResponseFormat
  pub stream : Bool
  pub stream_options : StreamOptions
  pub temperature : Option F32
  pub top_p : Option F32
  pub presence_penalty : Option F32
  pub frequency_penalty : Option F32
  pub logprobs : Option Bool
  pub top_logprobs : Option ℕ
  pub max_tokens : Option ℕ
  pub max_completion_tokens : Option ℕ
  pub n : Option ℕ
  pub stop : List Text

pub record CompletionRequest : Type 0 where
  pub model : Text
  pub prompt : Text
  pub stream : Bool
  pub stream_options : StreamOptions
  pub temperature : Option F32
  pub top_p : Option F32
  pub presence_penalty : Option F32
  pub frequency_penalty : Option F32
  pub logprobs : Option ℕ
  pub max_tokens : Option ℕ
  pub n : Option ℕ
  pub stop : List Text
