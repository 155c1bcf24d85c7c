-- ===== src/Runtime/Usage.antt =====
-- crates/llm-api/src/types.rs, crates/llm-runtime/src/streaming.rs and no_progress.rs: the token
-- counts of an answer, why it ended, and the check that it has something to show.
use kir_ai.Prelude.{
  ℕ, max, Bool, true, false, ◌&&◌, ◌||◌, Option, none, some, [], ◌∷◌, leb, ◌==◌, if◌then◌else◌,
  saturating_add,
}
use kir_ai.Runtime.Stop.{Bytes}

-- `prompt_tokens_details` holds one number.
pub record Usage : Type 0 where
  pub prompt_tokens : ℕ
  pub completion_tokens : ℕ
  pub total_tokens : ℕ
  pub prompt_tokens_details : Option ℕ

unfoldable pub usage_from_tokens : ℕ → ℕ → Option ℕ → Usage
usage_from_tokens prompt_tokens completion_tokens prompt_cached_tokens = record {
  prompt_tokens = prompt_tokens;
  completion_tokens = completion_tokens;
  total_tokens = saturating_add prompt_tokens completion_tokens;
  prompt_tokens_details = prompt_cached_tokens;
}

unfoldable pub max_optional_u64 : Option ℕ → Option ℕ → Option ℕ
max_optional_u64 (some current) (some next) = some (max current next)
max_optional_u64 (some current) none = some current
max_optional_u64 none (some next) = some next
max_optional_u64 none none = none

-- `BackendFinishReason` and `FinishReason` have the same variants.
pub data FinishReason : Type 0 where
  stopped : FinishReason
  length_reached : FinishReason
  tool_calls : FinishReason
  content_filter : FinishReason
  failed : FinishReason

unfoldable pub api_finish_reason : FinishReason → FinishReason
api_finish_reason FinishReason.stopped = FinishReason.stopped
api_finish_reason FinishReason.length_reached = FinishReason.length_reached
api_finish_reason FinishReason.tool_calls = FinishReason.tool_calls
api_finish_reason FinishReason.content_filter = FinishReason.content_filter
api_finish_reason FinishReason.failed = FinishReason.failed

abbrev pub is_stopped : FinishReason → Bool
is_stopped FinishReason.stopped = true
is_stopped _ = false

pub data NoProgressClass : Type 0 where
  empty_completion : NoProgressClass
  empty_high_output_completion : NoProgressClass
  hidden_only_output : NoProgressClass
  text_fallback_required_tool : NoProgressClass
  repeated_invalid_tool_call : NoProgressClass
  fuzzy_repeated_invalid_tool_call : NoProgressClass
  repeated_assistant_content : NoProgressClass
  stalled_assistant_turn : NoProgressClass

-- The whitespace of Unicode in UTF-8: one byte, two, or three.
unfoldable pub is_blank1 : ℕ → Bool
is_blank1 a = (leb 9 a && leb a 13) || a == 32

unfoldable pub is_blank2 : ℕ → ℕ → Bool
is_blank2 a b = a == 194 && (b == 133 || b == 160)

unfoldable pub is_blank3 : ℕ → ℕ → ℕ → Bool
is_blank3 a b c =
    (a == 225 && (b == 154 && c == 128))
    || ((a == 226
          && (b == 128 && ((leb 128 c && leb c 138) || (c == 168 || (c == 169 || c == 175)))))
        || ((a == 226 && (b == 129 && c == 159)) || (a == 227 && (b == 128 && c == 128))))

-- `trim().is_empty()`
unfoldable pub is_blank : Bytes → Bool
unfolding is_blank1 is_blank2 is_blank3
is_blank [] = true
is_blank (a ∷ []) = is_blank1 a
is_blank (a ∷ b ∷ []) = (is_blank1 a && is_blank (b ∷ [])) || is_blank2 a b
is_blank (a ∷ b ∷ c ∷ rest) =
    let after_one = is_blank (b ∷ c ∷ rest) in
    let after_two = is_blank (c ∷ rest) in
    let after_three = is_blank rest in
    if is_blank1 a
    then after_one
    else (if is_blank2 a b then after_two else (if is_blank3 a b c then after_three else false))

unfoldable pub classify_no_progress : Bytes → ℕ → Option NoProgressClass
unfolding is_blank
classify_no_progress content completion_tokens =
    if is_blank content && leb 1024 completion_tokens
    then some NoProgressClass.empty_high_output_completion
    else (if is_blank content then some NoProgressClass.empty_completion else none)
