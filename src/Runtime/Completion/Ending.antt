-- ===== src/Runtime/Completion/Ending.antt =====
-- crates/llm-runtime/src/streaming.rs: what a client has read when a streamed completion ends.
use mathlib.Core.List.{append-nil}
use kir_ai.Prelude.{
  ℕ, ◌≤◌, ◌≡◌, refl, ◌∙◌, Bool, true, false, not, ◌&&◌, Option, none, some, List, [], ◌∷◌, ◌++◌,
  length, take, ltb, if◌then◌else◌, Bool-cases, Option-cases, inl, inr, arith,
}
use kir_ai.Runtime.Stop.{Bytes, earliest_stop_index, apply_stop_sequences}
use kir_ai.Runtime.Usage.{
  Usage, usage_from_tokens, FinishReason, api_finish_reason, is_stopped, NoProgressClass,
  classify_no_progress,
}
use kir_ai.Runtime.Completion.{
  BackendOutput, RuntimeError, no_progress, Answer, answered, refused, Streaming,
  CompletionStreamEvent, chunk, complete, completion_stream_seed_chunk, emit_to, finish_stream,
  after_events, complete_text,
}
use kir_ai.Runtime.Completion.Collect.{
  choices_text, choices_reason, event_text, event_reason, event_usage, collect_from,
  collect_from-after_events, event_text-emit_to, event_reason-emit_to, event_usage-emit_to,
}

-- The answer with a text, by the check of progress.
unfoldable pub checked :
    {E : Type 0} → Bytes → FinishReason → Usage → Option NoProgressClass → Answer E
checked text reason usage (some class) = refused (no_progress class)
checked text reason usage none =
    answered (record { text = text; finish_reason = reason; usage = usage })

unfoldable pub final_usage : Streaming → Usage
unfolding usage_from_tokens
final_usage s = usage_from_tokens s.prompt_tokens s.completion_tokens s.prompt_cached_tokens

-- The last events, once the text is out.
unfoldable pub last_events :
    {E P : Type 0}
    → Bool
    → FinishReason
    → Usage
    → Option NoProgressClass
    → List (CompletionStreamEvent P) × Option (RuntimeError E)
unfolding completion_stream_seed_chunk
last_events include_usage reason usage (some class) = ([], some (no_progress class))
last_events include_usage reason usage none = (
  chunk (completion_stream_seed_chunk [] (some reason) none)
      ∷ ((if include_usage
            then chunk (completion_stream_seed_chunk [] none (some usage)) ∷ []
            else [])
          ++ (complete usage ∷ [])),
  none,
)

collect_from-last_events :
    {E : Type 0} (P : Type 0) (text : Bytes) (include_usage : Bool) (reason : FinishReason)
    (usage : Usage) (class : Option NoProgressClass)
    → collect_from text (last_events {E = E} {P = P} include_usage reason usage class)
      ≡ some (checked text reason usage class)
unfolding collect_from last_events checked completion_stream_seed_chunk event_text event_reason
    event_usage choices_text choices_reason
collect_from-last_events P text include_usage reason usage (some class) = refl
collect_from-last_events P text true reason usage none = rw (append-nil text) refl
collect_from-last_events P text false reason usage none = rw (append-nil text) refl

-- What has been emitted once the rest of the text is.
unfoldable pub visible_len : Streaming → ℕ
visible_len s =
    if not (is_stopped s.finish_reason) && ltb s.emitted_len (length s.raw_text)
    then length s.raw_text
    else s.emitted_len

pub emit_to_self : (P : Type 0) (text : Bytes) (e : ℕ) → emit_to {P = P} text e e ≡ []
unfolding emit_to
emit_to_self P text e = elim (Bool-cases (ltb e e)) [
  | inl t ↦ absurd (ground arith)
  | inr f ↦ rw (f, emit_to) refl
]

finish_stream-last_events :
    {E : Type 0} (P : Type 0) (include_usage : Bool) (s : Streaming)
    → finish_stream {P = P} {E = E} include_usage s
      ≡ after_events (emit_to s.raw_text s.emitted_len (visible_len s)) (
          last_events include_usage s.finish_reason
            (final_usage s)
            (classify_no_progress (take (visible_len s) s.raw_text) s.completion_tokens))
unfolding finish_stream visible_len after_events last_events final_usage
finish_stream-last_events P include_usage s =
    elim (Bool-cases (not (is_stopped s.finish_reason) && ltb s.emitted_len (length s.raw_text))) [
      | inl t ↦
          elim (Option-cases
            (classify_no_progress (take (length s.raw_text) s.raw_text) s.completion_tokens)) [
              | inl n ↦ rw (t, finish_stream) (rw n (rw t refl))
              | inr (c, n) ↦
                  rw (t, finish_stream)
                    (rw n (
                      rw t (
                        rw
                          (append-nil
                            (emit_to {P = P} s.raw_text s.emitted_len (length s.raw_text)))
                          refl)))
            ]
      | inr f ↦
          elim (Option-cases
            (classify_no_progress (take s.emitted_len s.raw_text) s.completion_tokens)) [
              | inl n ↦
                  rw (f, finish_stream)
                    (rw n (rw (f, emit_to_self P s.raw_text s.emitted_len) refl))
              | inr (c, n) ↦
                  rw (f, finish_stream)
                    (rw n (rw (f, emit_to_self P s.raw_text s.emitted_len) refl))
            ]
    ]

visible_len-le : (s : Streaming) → s.emitted_len ≤ visible_len s
unfolding visible_len
visible_len-le s = ground arith

-- A client that has read all that was emitted gets the text that is visible in the end.
pub collect_from-finish_stream :
    {E : Type 0} (P : Type 0) (include_usage : Bool) (s : Streaming)
    → collect_from (take s.emitted_len s.raw_text) (finish_stream {P = P} {E = E} include_usage s)
      ≡ some (
          checked
            (take (visible_len s) s.raw_text)
            s.finish_reason
            (final_usage s)
            (classify_no_progress (take (visible_len s) s.raw_text) s.completion_tokens))
collect_from-finish_stream P include_usage s = rw (finish_stream-last_events P include_usage s) (
    collect_from-after_events (take s.emitted_len s.raw_text)
      (emit_to s.raw_text s.emitted_len (visible_len s))
      (last_events include_usage s.finish_reason (final_usage s)
        (classify_no_progress (take (visible_len s) s.raw_text) s.completion_tokens))
      (event_reason-emit_to P s.raw_text s.emitted_len (visible_len s))
      (event_usage-emit_to P s.raw_text s.emitted_len (visible_len s))
    ∙ rw (event_text-emit_to P s.raw_text s.emitted_len (visible_len s) (visible_len-le s)) (
        collect_from-last_events P (take (visible_len s) s.raw_text) include_usage s.finish_reason
          (final_usage s)
          (classify_no_progress (take (visible_len s) s.raw_text) s.completion_tokens)))

pub api_finish_reason_same : (reason : FinishReason) → api_finish_reason reason ≡ reason
unfolding api_finish_reason
api_finish_reason_same FinishReason.stopped = refl
api_finish_reason_same FinishReason.length_reached = refl
api_finish_reason_same FinishReason.tool_calls = refl
api_finish_reason_same FinishReason.content_filter = refl
api_finish_reason_same FinishReason.failed = refl

apply_stop_sequences_found :
    (text : Bytes) (stop : List Bytes) (i : ℕ)
    → earliest_stop_index text stop ≡ some i
    → apply_stop_sequences text stop ≡ (take i text, true)
unfolding apply_stop_sequences
apply_stop_sequences_found text stop i e = rw (e, apply_stop_sequences) refl

apply_stop_sequences_clean :
    (text : Bytes) (stop : List Bytes)
    → earliest_stop_index text stop ≡ none
    → apply_stop_sequences text stop ≡ (text, false)
unfolding apply_stop_sequences
apply_stop_sequences_clean text stop e = rw (e, apply_stop_sequences) refl

pub complete_text_found :
    {E : Type 0} (stop : List Bytes) (o : BackendOutput) (i : ℕ)
    → earliest_stop_index o.text stop ≡ some i
    → complete_text {E = E} stop o
      ≡ checked
          (take i o.text)
          FinishReason.stopped
          (usage_from_tokens o.prompt_tokens o.completion_tokens o.prompt_cached_tokens)
          (classify_no_progress (take i o.text) o.completion_tokens)
unfolding complete_text checked
complete_text_found stop o i e =
    let applied = apply_stop_sequences_found o.text stop i e in
    elim (Option-cases (classify_no_progress (take i o.text) o.completion_tokens)) [
      | inl n ↦ rw (applied, complete_text) (rw n (rw applied refl))
      | inr (c, n) ↦ rw (applied, complete_text) (rw n refl)
    ]

pub complete_text_clean :
    {E : Type 0} (stop : List Bytes) (o : BackendOutput)
    → earliest_stop_index o.text stop ≡ none
    → complete_text {E = E} stop o
      ≡ checked o.text o.finish_reason
          (usage_from_tokens o.prompt_tokens o.completion_tokens o.prompt_cached_tokens)
          (classify_no_progress o.text o.completion_tokens)
unfolding complete_text checked
complete_text_clean stop o e =
    let applied = apply_stop_sequences_clean o.text stop e in
    elim (Option-cases (classify_no_progress o.text o.completion_tokens)) [
      | inl n ↦
          rw (applied, complete_text)
            (rw n (rw (applied, api_finish_reason_same o.finish_reason) refl))
      | inr (c, n) ↦ rw (applied, complete_text) (rw n refl)
    ]
