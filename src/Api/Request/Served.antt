-- ===== src/Api/Request/Served.antt =====
-- crates/llm-api/src/validation.rs: what a request that passes the checks is like.
use kir_ai.Prelude.{
  Option-cases, subst, ℕ, ◌+◌, ◌≤◌, ◌≡◌, refl, ap, ◌⊎◌, inl, inr, Bool, true, false, ◌||◌, not,
  Option, none, some, List, [], ◌∷◌, length, is_empty, All, arith,
}
use kir_ai.Json.{Text, str_len}
use kir_ai.Api.Error.{
  max_tokens, max_completion_tokens, presence_penalty, frequency_penalty, logprobs, top_logprobs,
  greater_than_zero, max_tokens_must_match, not_supported, done, unsupported_if, Label, Message,
}
use kir_ai.Api.Types.{
  ToolDefinition, ToolChoice, choose_auto, choose_none, choose_required, choose_function,
  ChatCompletionRequest, CompletionRequest,
}
use kir_ai.Api.Checks.{
  max_chat_messages, max_tools, max_stop_sequences, max_stop_sequence_bytes, RequestLimits,
  is_blank, validate_len_at_most, validate_string_bytes, validate_stop_from,
  validate_stop_sequence_values, validate_choice_count, validate_sampling_controls,
  validate_neutral_penalty,
}
use kir_ai.Api.Messages.{is_some, contains}
use kir_ai.Api.Messages.Dialogue.{IsDialogue}
use kir_ai.Api.Messages.Steps.{check-done, reject_if-done, not-false}
use kir_ai.Api.Messages.Sound.{validate_chat_messages-IsDialogue}
use kir_ai.Api.Tools.{tool_names, validate_tool_choice}
use kir_ai.Api.Request.{
  is_json_schema, is_set, is_zero, effective_max_tokens, differ, validate_chat, validate_completion,
}

-- A stop sequence that can be searched.
pub record IsStop (sequence : Text) : Type 0 where
  pub some_character : is_empty sequence ≡ false
  pub short : str_len sequence ≤ max_stop_sequence_bytes

at_most :
    (label : Label) (actual max : ℕ) → validate_len_at_most label actual max ≡ done → actual ≤ max
unfolding validate_len_at_most
at_most label actual max h = ground (arith, reject_if-done _ _ h)

short_enough :
    (label : Label) (value : Text) (max : ℕ)
    → validate_string_bytes label value max ≡ done
    → str_len value ≤ max
unfolding validate_string_bytes
short_enough label value max h = ground (arith, reject_if-done _ _ h)

validate_stop_from-IsStop :
    (index : ℕ) (sequences : List Text)
    → validate_stop_from index sequences ≡ done
    → All IsStop sequences
unfolding validate_stop_from
validate_stop_from-IsStop index [] h = tt
validate_stop_from-IsStop index (sequence ∷ rest) h =
    let (a, b) = check-done _ _ tt h in
    let (c, d) = check-done _ _ tt b in
    (
      record { some_character = reject_if-done _ _ a; short = short_enough _ sequence _ c },
      validate_stop_from-IsStop (index + 1) rest d,
    )

pub validate_stop_sequence_values-IsStop :
    (sequences : List Text)
    → validate_stop_sequence_values sequences ≡ done
    → (length sequences ≤ max_stop_sequences) × All IsStop sequences
unfolding validate_stop_sequence_values
validate_stop_sequence_values-IsStop sequences h =
    let (a, b) = check-done _ _ tt h in
    (at_most _ (length sequences) _ a, validate_stop_from-IsStop 0 sequences b)

-- One choice is asked for, or none is said.
one_choice : (n : Option ℕ) → validate_choice_count n ≡ done → (n ≡ none) ⊎ (n ≡ some 1)
unfolding validate_choice_count
one_choice none h = inl refl
one_choice (some n) h = let one : n ≡ 1 = ground (arith, h) in inr (ap some one)

-- The choice of a tool can be met: one is declared, or the one that is named is.
abbrev pub is_declared : List ToolDefinition → Option ToolChoice → Bool
is_declared ts (some choose_required) = not (is_empty ts)
is_declared ts (some (choose_function name)) = contains name (tool_names ts)
is_declared ts _ = true

validate_tool_choice-is_declared :
    (ts : List ToolDefinition) (choice : Option ToolChoice)
    → validate_tool_choice ts choice ≡ done
    → is_declared ts choice ≡ true
unfolding validate_tool_choice
validate_tool_choice-is_declared ts none h = refl
validate_tool_choice-is_declared ts (some choose_auto) h = refl
validate_tool_choice-is_declared ts (some choose_none) h = refl
validate_tool_choice-is_declared ts (some choose_required) h =
    let (a, b) = check-done _ _ tt h in
    let some_tool : is_empty ts ≡ false = reject_if-done _ _ a in ground (arith, some_tool)
validate_tool_choice-is_declared ts (some (choose_function name)) h =
    let (a, b) = check-done _ _ tt h in
    let (c, d) = check-done _ _ tt b in
    not-false (contains name (tool_names ts)) (reject_if-done _ _ d)

unsupported_if-done : (b : Bool) (m : Message) → unsupported_if b m ≡ done → b ≡ false
unsupported_if-done true m h = absurd (ground arith)
unsupported_if-done false m h = refl

effective_tokens :
    (r : ChatCompletionRequest)
    → is_zero r.max_tokens ≡ false
    → is_zero r.max_completion_tokens ≡ false
    → is_zero (effective_max_tokens r) ≡ false
unfolding effective_max_tokens
effective_tokens r a b = elim (Option-cases r.max_completion_tokens) [
  | inl n ↦ rw (n, effective_max_tokens) a
  | inr (count, e) ↦ rw (e, effective_max_tokens) (subst (λ o. is_zero o ≡ false) e b)
]

-- What the runtime may rely on in a chat request.
pub record IsServed (r : ChatCompletionRequest) : Type 0 where
  pub named : is_blank r.model ≡ false
  pub some_message : is_empty r.messages ≡ false
  pub few_messages : length r.messages ≤ max_chat_messages
  pub dialogue : IsDialogue r.messages
  pub few_tools : length r.tools ≤ max_tools
  pub few_stops : length r.stop ≤ max_stop_sequences
  pub stops : All IsStop r.stop
  pub no_schema : is_json_schema r.response_format ≡ false
  pub declared : is_declared r.tools r.tool_choice ≡ true
  pub not_parallel : is_set r.parallel_tool_calls ≡ false
  pub no_logprobs : is_set r.logprobs || is_some r.top_logprobs ≡ false
  pub some_tokens : is_zero r.max_tokens || is_zero r.max_completion_tokens ≡ false
  pub effective : is_zero (effective_max_tokens r) ≡ false
  pub same_tokens : differ r.max_tokens r.max_completion_tokens ≡ false
  pub one : (r.n ≡ none) ⊎ (r.n ≡ some 1)

-- A chat request that passes the checks, whatever the limits, names a model and has 1 to 128 messages,
-- which form a dialogue, at most 128 tools and at most 4 stop sequences of 1 to 1024 bytes; its choice
-- of a tool is declared; it asks for one choice, and for no schema, parallel calls or log
-- probabilities. The maxima of tokens that it gives are equal, and neither they nor the effective one
-- are 0.
pub validate_chat-IsServed :
    (r : ChatCompletionRequest) (limits : RequestLimits)
    → validate_chat r limits ≡ done
    → IsServed r
unfolding validate_chat
validate_chat-IsServed r limits h =
    let (c1, r1) = check-done _ _ tt h in
    let (c2, r2) = check-done _ _ tt r1 in
    let (c3, r3) = check-done _ _ tt r2 in
    let (c4, r4) = check-done _ _ tt r3 in
    let (c5, r5) = check-done _ _ tt r4 in
    let (c6, r6) = check-done _ _ tt r5 in
    let (c7, r7) = check-done _ _ tt r6 in
    let (c8, r8) = check-done _ _ tt r7 in
    let (c9, r9) = check-done _ _ tt r8 in
    let (c10, r10) = check-done _ _ tt r9 in
    let (c11, r11) = check-done (validate_sampling_controls r.temperature r.top_p) _ tt r10 in
    let (c12, r12) =
      check-done (validate_neutral_penalty presence_penalty r.presence_penalty) _ tt r11 in
    let (c13, r13) =
      check-done (validate_neutral_penalty frequency_penalty r.frequency_penalty) _ tt r12 in
    let (c14, r14) = check-done _ _ tt r13 in
    let (c15, r15) = check-done _ _ tt r14 in
    let (c16, r16) = check-done _ _ tt r15 in
    let (c17, r17) = check-done _ _ tt r16 in
    let (c18, r18) = check-done _ _ tt r17 in
    let stops = validate_stop_sequence_values-IsStop r.stop c7 in
    let no_logs : is_set r.logprobs ≡ false = unsupported_if-done _ (not_supported logprobs) c14 in
    let no_top : is_some r.top_logprobs ≡ false =
      unsupported_if-done _ (not_supported top_logprobs) c15 in
    let some_max : is_zero r.max_tokens ≡ false =
      reject_if-done _ (greater_than_zero max_tokens) c16 in
    let some_completion : is_zero r.max_completion_tokens ≡ false =
      reject_if-done _ (greater_than_zero max_completion_tokens) c17 in
    record {
      named = reject_if-done _ _ c1;
      some_message = reject_if-done _ _ c2;
      few_messages = at_most _ (length r.messages) _ c3;
      dialogue = validate_chat_messages-IsDialogue r.messages limits c4;
      few_tools = at_most _ (length r.tools) _ c5;
      few_stops = stops.0;
      stops = stops.1;
      no_schema = unsupported_if-done _ _ c8;
      declared = validate_tool_choice-is_declared r.tools r.tool_choice c9;
      not_parallel = unsupported_if-done _ _ c10;
      no_logprobs = rw (no_logs, no_top) refl;
      some_tokens = rw (some_max, some_completion) refl;
      effective = effective_tokens r some_max some_completion;
      same_tokens = reject_if-done _ max_tokens_must_match c18;
      one = one_choice r.n r18;
    }

-- What the runtime may rely on in a completion request.
pub record IsServedCompletion (r : CompletionRequest) (limits : RequestLimits) : Type 0 where
  pub named : is_blank r.model ≡ false
  pub some_prompt : is_empty r.prompt ≡ false
  pub short_prompt : str_len r.prompt ≤ limits.completion_prompt_bytes
  pub few_stops : length r.stop ≤ max_stop_sequences
  pub stops : All IsStop r.stop
  pub no_logprobs : is_some r.logprobs ≡ false
  pub some_tokens : is_zero r.max_tokens ≡ false
  pub one : (r.n ≡ none) ⊎ (r.n ≡ some 1)

pub validate_completion-IsServedCompletion :
    (r : CompletionRequest) (limits : RequestLimits)
    → validate_completion r limits ≡ done
    → IsServedCompletion r limits
unfolding validate_completion
validate_completion-IsServedCompletion r limits h =
    let (c1, r1) = check-done _ _ tt h in
    let (c2, r2) = check-done _ _ tt r1 in
    let (c3, r3) = check-done _ _ tt r2 in
    let (c4, r4) = check-done _ _ tt r3 in
    let (c5, r5) = check-done (validate_sampling_controls r.temperature r.top_p) _ tt r4 in
    let (c6, r6) =
      check-done (validate_neutral_penalty presence_penalty r.presence_penalty) _ tt r5 in
    let (c7, r7) =
      check-done (validate_neutral_penalty frequency_penalty r.frequency_penalty) _ tt r6 in
    let (c8, r8) = check-done _ _ tt r7 in
    let (c9, r9) = check-done _ _ tt r8 in
    let stops = validate_stop_sequence_values-IsStop r.stop c4 in
    record {
      named = reject_if-done _ _ c1;
      some_prompt = reject_if-done _ _ c2;
      short_prompt = short_enough _ r.prompt limits.completion_prompt_bytes c3;
      few_stops = stops.0;
      stops = stops.1;
      no_logprobs = unsupported_if-done _ (not_supported logprobs) c8;
      some_tokens = reject_if-done _ (greater_than_zero max_tokens) c9;
      one = one_choice r.n r9;
    }
