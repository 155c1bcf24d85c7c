-- ===== src/Runtime/Completion.antt =====
-- crates/llm-runtime/src/completions.rs and streaming.rs: a text completion answered at once, and as a
-- stream. What the runtime only passes on is a parameter: the backend's progress and its errors. The
-- answers leave out the identity, time and model that every one of them repeats, and a chunk of the
-- backend its tool calls, which a text completion does not read.
pub mod Collect
pub mod Reading
pub mod Ending
pub mod Rounds
pub mod Loop
pub mod Equal
pub mod Validated
use kir_ai.Prelude.{
  ℕ, ◌-◌, max, Bool, true, false, not, ◌&&◌, Option, none, some, List, [], ◌∷◌, ◌++◌, length, take,
  drop, is_empty, ltb, if◌then◌else◌, saturating_add,
}
use kir_ai.Runtime.Stop.{
  Bytes, apply_stop_sequences, max_stop_sequence_len, IncrementalStopDetector, new_detector,
  observe, safe_stream_emit_len,
}
use kir_ai.Runtime.Usage.{
  Usage, usage_from_tokens, max_optional_u64, FinishReason, api_finish_reason, is_stopped,
  NoProgressClass, classify_no_progress,
}

pub data RuntimeError (E : Type 0) : Type 0 where
  no_progress : NoProgressClass → RuntimeError E
  backend : E → RuntimeError E

pub record BackendOutput : Type 0 where
  pub text : Bytes
  pub prompt_tokens : ℕ
  pub prompt_cached_tokens : Option ℕ
  pub completion_tokens : ℕ
  pub finish_reason : FinishReason

pub record RuntimeCompletion : Type 0 where
  pub text : Bytes
  pub finish_reason : FinishReason
  pub usage : Usage

pub data Answer (E : Type 0) : Type 0 where
  answered : RuntimeCompletion → Answer E
  refused : RuntimeError E → Answer E

-- `complete_text` on what the backend generated.
unfoldable pub complete_text : {E : Type 0} → List Bytes → BackendOutput → Answer E
complete_text stop output =
    let (text, was_stopped) = apply_stop_sequences output.text stop in
    elim (classify_no_progress text output.completion_tokens) [
      | some class ↦ refused (no_progress class)
      | none ↦ answered (record {
        text = text;
        finish_reason =
            if was_stopped then FinishReason.stopped else api_finish_reason output.finish_reason;
        usage =
            usage_from_tokens output.prompt_tokens output.completion_tokens
              output.prompt_cached_tokens;
      })
    ]

pub record BackendStreamChunk (P : Type 0) : Type 0 where
  pub text : Bytes
  pub prompt_tokens : ℕ
  pub prompt_cached_tokens : Option ℕ
  pub completion_tokens : ℕ
  pub finish_reason : Option FinishReason
  pub progress : Option P

pub record CompletionChoice : Type 0 where
  pub text : Bytes
  pub finish_reason : Option FinishReason

pub record CompletionStreamResponse : Type 0 where
  pub choices : List CompletionChoice
  pub usage : Option Usage

pub data CompletionStreamEvent (P : Type 0) : Type 0 where
  chunk : CompletionStreamResponse → CompletionStreamEvent P
  progress : P → CompletionStreamEvent P
  complete : Usage → CompletionStreamEvent P

unfoldable pub completion_stream_seed_chunk :
    Bytes → Option FinishReason → Option Usage → CompletionStreamResponse
completion_stream_seed_chunk text finish_reason none = record {
  choices = record { text = text; finish_reason = finish_reason } ∷ [];
  usage = none;
}
completion_stream_seed_chunk text finish_reason (some usage) = record {
  choices = [];
  usage = some usage;
}

-- The variables of `streaming_completion_stream`.
pub record Streaming : Type 0 where
  pub raw_text : Bytes
  pub emitted_len : ℕ
  pub prompt_tokens : ℕ
  pub prompt_cached_tokens : Option ℕ
  pub completion_tokens : ℕ
  pub finish_reason : FinishReason
  pub stop_detector : IncrementalStopDetector

unfoldable pub new_streaming : List Bytes → Streaming
unfolding new_detector
new_streaming stop = record {
  raw_text = [];
  emitted_len = 0;
  prompt_tokens = 0;
  prompt_cached_tokens = none;
  completion_tokens = 0;
  finish_reason = FinishReason.length_reached;
  stop_detector = new_detector stop;
}

-- The reason of a chunk, where the loop goes on to it.
unfoldable pub receive_reason : Bool → Option FinishReason → Streaming → Streaming × Bool
unfolding api_finish_reason
receive_reason true reason s = (s, true)
receive_reason false none s = (s, false)
receive_reason false (some reason) s = (record s { finish_reason = api_finish_reason reason }, true)

module _ {P : Type 0} where
  -- `raw_text[emitted_len..end]` as an event, where it is not empty.
  unfoldable pub emit_to : Bytes → ℕ → ℕ → List (CompletionStreamEvent P)
  unfolding completion_stream_seed_chunk
  emit_to raw_text emitted_len end =
      if ltb emitted_len end
      then chunk (
          completion_stream_seed_chunk (take (end - emitted_len) (drop emitted_len raw_text)) none
            none)
        ∷ []
      else []

  unfoldable pub count_tokens : BackendStreamChunk P → Streaming → Streaming
  unfolding max_optional_u64
  count_tokens c s = record s {
    prompt_tokens = max s.prompt_tokens c.prompt_tokens;
    prompt_cached_tokens = max_optional_u64 s.prompt_cached_tokens c.prompt_cached_tokens;
    completion_tokens = saturating_add s.completion_tokens c.completion_tokens;
  }

  unfoldable pub progress_event : Option P → List (CompletionStreamEvent P)
  progress_event none = []
  progress_event (some p) = progress p ∷ []

  -- The text of a chunk: the events, the variables after it, and whether the loop is left.
  unfoldable pub receive_text :
      List Bytes → Bytes → Streaming → List (CompletionStreamEvent P) × Streaming × Bool
  receive_text stop text s =
      let raw_text = s.raw_text ++ text in
      let (found, d) = observe s.stop_detector raw_text stop in
      elim found [
        | some stop_at ↦ (
          emit_to raw_text s.emitted_len stop_at,
          record s {
            raw_text = raw_text;
            emitted_len = stop_at;
            finish_reason = FinishReason.stopped;
            stop_detector = d;
          },
          true,
        )
        | none ↦
            let safe_len = safe_stream_emit_len raw_text (max_stop_sequence_len stop) in
            (
              emit_to raw_text s.emitted_len safe_len,
              record s {
                raw_text = raw_text;
                emitted_len = max s.emitted_len safe_len;
                stop_detector = d;
              },
              false,
            )
      ]

  unfoldable pub receive_text_if_any :
      List Bytes → Bytes → Streaming → List (CompletionStreamEvent P) × Streaming × Bool
  receive_text_if_any stop [] s = ([], s, false)
  receive_text_if_any stop (b ∷ text) s = receive_text stop (b ∷ text) s

  -- One round of the loop: the events, the variables after it, and whether the loop is left.
  unfoldable pub receive_chunk :
      List Bytes
      → BackendStreamChunk P
      → Streaming
      → List (CompletionStreamEvent P) × Streaming × Bool
  receive_chunk stop c s =
      let (events, s', left) = receive_text_if_any stop c.text (count_tokens c s) in
      let (s'', ended) = receive_reason left c.finish_reason s' in
      (progress_event c.progress ++ events, s'', ended)

  -- What follows the loop: the rest of the text, the check of progress, and the last chunks.
  unfoldable pub finish_stream :
      {E : Type 0} → Bool → Streaming → List (CompletionStreamEvent P) × Option (RuntimeError E)
  finish_stream include_usage s =
      let withheld = not (is_stopped s.finish_reason) && ltb s.emitted_len (length s.raw_text) in
      let rest = if withheld then emit_to s.raw_text s.emitted_len (length s.raw_text) else [] in
      let emitted_len = if withheld then length s.raw_text else s.emitted_len in
      elim (classify_no_progress (take emitted_len s.raw_text) s.completion_tokens) [
        | some class ↦ (rest, some (no_progress class))
        | none ↦
            let usage =
              usage_from_tokens s.prompt_tokens s.completion_tokens s.prompt_cached_tokens in
            (
              rest
                  ++ (chunk (completion_stream_seed_chunk [] (some s.finish_reason) none)
                      ∷ ((if include_usage
                            then chunk (completion_stream_seed_chunk [] none (some usage)) ∷ []
                            else [])
                          ++ (complete usage ∷ []))),
              none,
            )
      ]

-- An item of the stream of the backend.
pub data Received (E P : Type 0) : Type 0 where
  received : BackendStreamChunk P → Received E P
  broken : E → Received E P

unfoldable pub after_events :
    {E P : Type 0}
    → List (CompletionStreamEvent P)
    → List (CompletionStreamEvent P) × Option (RuntimeError E)
    → List (CompletionStreamEvent P) × Option (RuntimeError E)
after_events events (later, error) = (events ++ later, error)

-- `streaming_completion_stream` from some round on: the events, and the error that ends them.
unfoldable pub stream_from :
    {E P : Type 0}
    → List Bytes
    → Bool
    → List (Received E P)
    → Streaming
    → List (CompletionStreamEvent P) × Option (RuntimeError E)
stream_from stop include_usage [] s = finish_stream include_usage s
stream_from stop include_usage (broken e ∷ items) s = ([], some (backend e))
stream_from stop include_usage (received c ∷ items) s =
    let (events, s', ended) = receive_chunk stop c s in
    elim ended [
      | true ↦ after_events events (finish_stream include_usage s')
      | false ↦ after_events events (stream_from stop include_usage items s')
    ]

unfoldable pub streaming_completion_stream :
    {E P : Type 0}
    → List Bytes
    → Bool
    → List (Received E P)
    → List (CompletionStreamEvent P) × Option (RuntimeError E)
unfolding new_streaming stream_from
streaming_completion_stream stop include_usage items =
    stream_from stop include_usage items (new_streaming stop)
