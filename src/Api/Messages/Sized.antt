-- ===== src/Api/Messages/Sized.antt =====
-- crates/llm-api/src/validation/helpers.rs: the sizes and names of a message, apart from the code that
-- checks them.
use kir_ai.Prelude.{
  ℕ, ◌+◌, ◌≤◌, ◌≡◌, refl, true, false, Option, none, some, List, [], ◌∷◌, length, ltb, leb, All,
  Bool-cases, inl, inr, arith,
}
use kir_ai.Json.{Text, is_whitespace, str_len, Value}
use kir_ai.Api.Error.{ChatRole, system, user, assistant, tool, Label, done}
use kir_ai.Api.Types.{ToolCall, ChatMessage}
use kir_ai.Api.Size.Print.{print}
use kir_ai.Api.Size.Exact.{count_value-print}
use kir_ai.Api.Checks.{
  RequestLimits, validate_len_at_most, validate_string_bytes, is_blank, validate_non_empty_string,
  validate_json_bytes_at_most,
}
use kir_ai.Api.Messages.{
  validate_tool_calls, bytes_if_any, non_empty_for_tool, validate_message_sizes,
}

-- Not only white space.
unfoldable pub IsVisible : Text → Type 0
IsVisible text = ¬ (All (λ c. is_whitespace c ≡ true) text)

-- A text that is there has at most a number of bytes.
unfoldable pub IsShort : ℕ → Option Text → Type 0
IsShort most value = (text : Text) → value ≡ some text → str_len text ≤ most

-- A call: its identifier and its function's name have at most 1024 bytes, the name is not blank, and
-- its arguments have at most 1048576 bytes in compact form.
pub record IsSizedCall (call : ToolCall) : Type 0 where
  pub id : str_len call.id ≤ 1024
  pub function_name : str_len call.function.name ≤ 1024
  pub visible : IsVisible call.function.name
  pub arguments : length (print call.function.arguments) ≤ 1048576

pub record IsSized (limits : RequestLimits) (m : ChatMessage) : Type 0 where
  pub content : IsShort limits.message_content_bytes m.content
  pub name : IsShort 1024 m.name
  pub tool_call_id : IsShort 1024 m.tool_call_id
  pub answered : m.role ≡ tool → (key : Text) → m.tool_call_id ≡ some key → IsVisible key
  pub few_calls : length m.tool_calls ≤ 128
  pub calls : All IsSizedCall m.tool_calls

blank_whitespace : (t : Text) → is_blank t ≡ true → All (λ c. is_whitespace c ≡ true) t
unfolding is_blank
blank_whitespace [] h = tt
blank_whitespace (c ∷ cs) h = (ground (arith, h), blank_whitespace cs (ground (arith, h)))

string_fits :
    (label : Label) (t : Text) (most : ℕ)
    → str_len t ≤ most
    → validate_string_bytes label t most ≡ done
unfolding validate_string_bytes
string_fits label t most le = ground (arith, le)

visible_passes : (label : Label) (t : Text) → IsVisible t → validate_non_empty_string label t ≡ done
unfolding validate_non_empty_string IsVisible
visible_passes label t v = elim (Bool-cases (is_blank t)) [
  | inl b ↦ absurd (v (blank_whitespace t b))
  | inr b ↦ rw b refl
]

arguments_fit :
    (label : Label) (value : Value)
    → length (print value) ≤ 1048576
    → validate_json_bytes_at_most label value 1048576 ≡ done
unfolding validate_json_bytes_at_most
arguments_fit label value le =
    let short : leb (length (print value)) 1048576 ≡ true = ground (arith, le) in
    rw (count_value-print 1048576 value (omega arith), validate_json_bytes_at_most) (rw short refl)

option_fits :
    (label : Label) (value : Option Text) (most : ℕ)
    → IsShort most value
    → bytes_if_any label value most ≡ done
unfolding bytes_if_any IsShort
option_fits label none most h = refl
option_fits label (some t) most h = string_fits label t most (h t refl)

answer_visible :
    (role : ChatRole) (label : Label) (value : Option Text)
    → (role ≡ tool → (key : Text) → value ≡ some key → IsVisible key)
    → non_empty_for_tool role label value ≡ done
unfolding non_empty_for_tool
answer_visible tool label none h = refl
answer_visible tool label (some key) h = visible_passes label key (h refl key refl)
answer_visible system label value h = refl
answer_visible user label value h = refl
answer_visible assistant label value h = refl

calls_fit :
    (label : Label) (index : ℕ) (calls : List ToolCall)
    → All IsSizedCall calls
    → validate_tool_calls label index calls ≡ done
unfolding validate_tool_calls
calls_fit label index [] h = refl
calls_fit label index (c ∷ calls) h =
    rw
      (
        string_fits _ c.id 1024 h.0.id,
        visible_passes _ c.function.name h.0.visible,
        string_fits _ c.function.name 1024 h.0.function_name,
        arguments_fit _ c.function.arguments h.0.arguments,
      )
      (calls_fit label (index + 1) calls h.1)

-- A message with such sizes passes their check.
pub IsSized-validate_message_sizes :
    (limits : RequestLimits) (index : ℕ) (m : ChatMessage)
    → IsSized limits m
    → validate_message_sizes limits index m ≡ done
unfolding validate_message_sizes validate_len_at_most
IsSized-validate_message_sizes limits index m h =
    let few : ltb 128 (length m.tool_calls) ≡ false = ground (arith, h.few_calls) in
    rw
      (
        option_fits _ m.content limits.message_content_bytes h.content,
        option_fits _ m.name 1024 h.name,
        answer_visible m.role _ m.tool_call_id h.answered,
        option_fits _ m.tool_call_id 1024 h.tool_call_id,
        few,
      )
      (calls_fit _ 0 m.tool_calls h.calls)
