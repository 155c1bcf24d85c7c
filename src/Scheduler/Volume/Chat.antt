-- ===== src/Scheduler/Volume/Chat.antt =====
-- crates/llm-server/src/engine/scheduler.rs: the estimate of a chat against its characters.
use kir_ai.Prelude.{
  ℕ, ◌+◌, ◌*◌, ◌^◌, ◌≤◌, ◌≡◌, subst, Bool, false, Option, none, some, List, [], ◌∷◌, length,
  saturating_add, inl, inr, arith,
}
use kir_ai.Json.{Text}
use kir_ai.Api.Types.{FunctionDefinition, ToolDefinition, ChatCompletionRequest}
use kir_ai.Scheduler.State.{SchedulerClass, ModelSchedulerOptions}
use kir_ai.Scheduler.Admission.{classify_estimated_tokens}
use kir_ai.Scheduler.Estimate.{
  estimated_text_tokens, estimated_json_string_tokens, add_json_object_field_tokens,
  estimated_json_value_tokens,
}
use kir_ai.Scheduler.Prompt.{
  name_key, type_key, function_key, description_key, parameters_key,
  estimated_tool_call_type_tokens, estimated_function_definition_tokens, add_description,
  estimated_tool_definition_tokens, contents, add_messages, add_tools, estimated_chat_tokens,
  classify_chat,
}
use kir_ai.Scheduler.Volume.{
  IsEnough, covers_word, covers_add, covers_zero, covers_text, covers_string, covers_field,
  characters, covers_value,
}

covers_less : (t m n : ℕ) → n ≤ m → IsEnough t m → IsEnough t n
covers_less t m n le (inl h) = inl (omega (arith, le, h))
covers_less t m n le (inr h) = inr h

-- The characters of a text that may be missing.
abbrev pub text_characters : Option Text → ℕ
text_characters none = 0
text_characters (some text) = length text

-- The characters of a tool: its name, its description, and the texts and keys of its parameters.
abbrev pub function_characters : FunctionDefinition → ℕ
function_characters f = length f.name + (text_characters f.description + characters f.parameters)

covers_description :
    (d : Option Text) (so_far : ℕ × Bool) (m : ℕ)
    → IsEnough so_far.0 m
    → IsEnough (add_description d so_far).0 (m + text_characters d)
unfolding add_description
covers_description none (a, has) m h = subst (IsEnough a) (omega arith) h
covers_description (some text) (a, has) m h = covers_less _ _ (m + length text) (omega arith) (
    covers_field a has description_key (estimated_json_string_tokens text) m (length text) h
      (covers_string text))

covers_function :
    (f : FunctionDefinition)
    → IsEnough (estimated_function_definition_tokens f) (function_characters f)
unfolding estimated_function_definition_tokens
covers_function f =
    let named =
      add_json_object_field_tokens (1, false) name_key (estimated_json_string_tokens f.name) in
    let name : IsEnough named.0 (length f.name) = covers_less _ _ (length f.name) (omega arith) (
      covers_field 1 false name_key (estimated_json_string_tokens f.name) 0 (length f.name)
        (covers_word 1) (covers_string f.name)) in
    let described = add_description f.description named in
    covers_less _ _ (function_characters f) (omega arith) (
      covers_field described.0 described.1 parameters_key (estimated_json_value_tokens f.parameters)
        (length f.name + text_characters f.description) (characters f.parameters)
        (covers_description f.description named (length f.name) name) (covers_value f.parameters))

covers_tool :
    (t : ToolDefinition)
    → IsEnough (estimated_tool_definition_tokens t) (function_characters t.function)
unfolding estimated_tool_definition_tokens
covers_tool t =
    let typed =
      add_json_object_field_tokens (1, false) type_key
        (estimated_tool_call_type_tokens t.tool_type) in
    covers_less _ _ (function_characters t.function) (omega arith) (
      covers_field typed.0 typed.1 function_key (estimated_function_definition_tokens t.function) 0
        (function_characters t.function) (covers_word typed.0) (covers_function t.function))

-- The characters of the contents of the messages, and of the tools.
unfoldable pub messages_characters : List (Option Text) → ℕ
messages_characters [] = 0
messages_characters (m ∷ ms) = text_characters m + messages_characters ms

unfoldable pub tools_characters : List ToolDefinition → ℕ
unfolding characters
tools_characters [] = 0
tools_characters (t ∷ ts) = function_characters t.function + tools_characters ts

covers_messages :
    (ms : List (Option Text)) (a m : ℕ)
    → IsEnough a m
    → IsEnough (add_messages a ms) (m + messages_characters ms)
unfolding add_messages messages_characters
covers_messages [] a m h = subst (IsEnough a) (omega arith) h
covers_messages (none ∷ ms) a m h =
    covers_less _ _ (m + (0 + messages_characters ms)) (omega arith)
      (covers_messages ms (saturating_add a 0) m (covers_zero a 0 m h))
covers_messages (some text ∷ ms) a m h =
    covers_less _ _ (m + (length text + messages_characters ms)) (omega arith) (
      covers_messages ms (saturating_add a (estimated_text_tokens text)) (m + length text)
        (covers_add a (estimated_text_tokens text) m (length text) h (covers_text text)))

covers_tools :
    (ts : List ToolDefinition) (a m : ℕ)
    → IsEnough a m
    → IsEnough (add_tools a ts) (m + tools_characters ts)
unfolding add_tools tools_characters
covers_tools [] a m h = subst (IsEnough a) (omega arith) h
covers_tools (t ∷ ts) a m h =
    let n = function_characters t.function in
    covers_less _ _ (m + (n + tools_characters ts)) (omega arith) (
      covers_tools ts (saturating_add a (estimated_tool_definition_tokens t)) (m + n)
        (covers_add a (estimated_tool_definition_tokens t) m n h (covers_tool t)))

unfoldable pub chat_characters : ChatCompletionRequest → ℕ
unfolding messages_characters tools_characters
chat_characters request =
    messages_characters (contents request.messages) + tools_characters request.tools

covers_chat :
    (request : ChatCompletionRequest)
    → IsEnough (estimated_chat_tokens request) (chat_characters request)
unfolding estimated_chat_tokens chat_characters
covers_chat request =
    let said = messages_characters (contents request.messages) in
    covers_less _ _ (said + tools_characters request.tools) (omega arith) (
      covers_tools request.tools (add_messages 0 (contents request.messages)) (0 + said)
        (covers_messages (contents request.messages) 0 0 (covers_word 0)))

-- A chat with at least four characters for each token of the threshold is classified as prefill, where the
-- threshold is at most 2 ^ 62 tokens: however many characters it has, no sum of the estimate wraps to
-- a small one. The characters are those of the contents of its messages, and of the names, the
-- descriptions and the parameters of its tools, in these the texts and keys of the JSON value.
pub classify_chat-chat_characters :
    (options : ModelSchedulerOptions) (request : ChatCompletionRequest)
    → options.prefill_threshold_chars ≤ 2 ^ 62
    → 4 * options.prefill_threshold_chars ≤ chat_characters request
    → classify_chat options request ≡ SchedulerClass.prefill
unfolding classify_chat classify_estimated_tokens
classify_chat-chat_characters options request small much =
    let enough : options.prefill_threshold_chars ≤ estimated_chat_tokens request =
      elim (covers_chat request) [
        | inl h ↦ omega (arith, h, much)
        | inr h ↦ omega (arith, h, small)
      ] in
    ground (arith, enough)
