-- ===== src/Tests/RuntimeCases.antt =====
-- Completions of crates/llm-runtime.
use kir_ai.Prelude.{
  ℕ, ◌≤◌, ◌≡◌, refl, ◌-◌, true, false, none, some, List, [], ◌∷◌, length, take, Option,
}
use kir_ai.Runtime.Stop.{
  Bytes, starts_with, find, earliest_stop_index, apply_stop_sequences, max_stop_sequence_len,
  is_char_boundary, floor_char_boundary, new_detector, any_empty, find_from, search_start, observe,
  safe_stream_emit_len,
}
use kir_ai.Runtime.Stop.Incremental.{observe_chunks, search_chunks, observe_chunks-search_chunks}
use kir_ai.Runtime.Usage.{
  usage_from_tokens, max_optional_u64, FinishReason, api_finish_reason, is_blank1, is_blank2,
  is_blank3, is_blank, classify_no_progress,
}
use kir_ai.Runtime.Completion.{
  BackendOutput, BackendStreamChunk, answered, complete_text, completion_stream_seed_chunk,
  new_streaming, receive_reason, emit_to, count_tokens, progress_event, receive_text,
  receive_text_if_any, receive_chunk, finish_stream, Received, received, broken, after_events,
  stream_from, streaming_completion_stream,
}
use kir_ai.Runtime.Completion.Collect.{
  choices_text, choices_reason, event_text, event_reason, event_usage, collect_from, collect,
}
use kir_ai.Runtime.Completion.Reading.{add_chunk, read, read_from, no_output, answer_reading}
use kir_ai.Runtime.Completion.Ending.{checked}
use kir_ai.Runtime.Completion.Loop.{answer_with}
use kir_ai.Runtime.Completion.Equal.{
  withholds, collect-streaming_completion_stream, streaming_completion_stream-withholds,
}
use kir_ai.Runtime.Completion.Validated.{stop_bytes, validated_completion}
use kir_ai.Api.Error.{done}
use kir_ai.Api.Types.{CompletionRequest}
use kir_ai.Api.Checks.{default_limits}
use kir_ai.Api.Request.{validate_completion}
use kir_ai.Tests.ApiCases.{checks}

-- Opens what a completion calls.
completion : Unit {0}
unfolding starts_with find earliest_stop_index apply_stop_sequences max_stop_sequence_len
    is_char_boundary floor_char_boundary new_detector any_empty find_from search_start observe
    safe_stream_emit_len observe_chunks search_chunks usage_from_tokens max_optional_u64
    api_finish_reason is_blank1 is_blank2 is_blank3 is_blank classify_no_progress complete_text
    completion_stream_seed_chunk new_streaming receive_reason emit_to count_tokens progress_event
    receive_text receive_text_if_any receive_chunk finish_stream after_events stream_from
    streaming_completion_stream choices_text choices_reason event_text event_reason event_usage
    collect_from collect add_chunk read_from answer_reading checked answer_with withholds
completion = tt

-- "END"
abbrev end_marker : List Bytes
end_marker = (69 ∷ 78 ∷ 68 ∷ []) ∷ []

-- "hi E", "ND there": the sequence crosses the chunks.
abbrev crossing : List Bytes
crossing = (104 ∷ 105 ∷ 32 ∷ 69 ∷ []) ∷ (78 ∷ 68 ∷ 32 ∷ 116 ∷ []) ∷ []

crossing_found : observe_chunks end_marker (new_detector end_marker) [] crossing ≡ some 3
unfolding completion
crossing_found = refl

observe_chunks-search_chunks_example :
    observe_chunks end_marker (new_detector end_marker) [] crossing
    ≡ search_chunks end_marker [] crossing
observe_chunks-search_chunks_example = observe_chunks-search_chunks end_marker crossing

abbrev text_chunk : Bytes → Option FinishReason → BackendStreamChunk ℕ
text_chunk text reason = record {
  text = text;
  prompt_tokens = 5;
  prompt_cached_tokens = none;
  completion_tokens = 2;
  finish_reason = reason;
  progress = some 7;
}

abbrev crossing_items : List (Received ℕ ℕ)
crossing_items =
    received (text_chunk (104 ∷ 105 ∷ 32 ∷ 69 ∷ []) none)
    ∷ received (text_chunk (78 ∷ 68 ∷ 32 ∷ 116 ∷ []) none)
    ∷ broken 1
    ∷ []

crossing_answer :
    collect (streaming_completion_stream end_marker true crossing_items)
    ≡ some (
        answered (record {
          text = 104 ∷ 105 ∷ 32 ∷ [];
          finish_reason = FinishReason.stopped;
          usage = usage_from_tokens 5 4 none;
        }))
unfolding completion
crossing_answer = refl

crossing_whole : withholds end_marker (read_from end_marker crossing_items no_output) ≡ false
unfolding completion
crossing_whole = refl

end_marker_filled : any_empty end_marker ≡ false
unfolding completion
end_marker_filled = refl

collect-streaming_completion_stream_example :
    collect (streaming_completion_stream end_marker true crossing_items)
    ≡ some (answer_reading end_marker (read_from end_marker crossing_items no_output))
collect-streaming_completion_stream_example =
    collect-streaming_completion_stream end_marker true crossing_items end_marker_filled
      crossing_whole

-- "hello", where the backend stops.
abbrev greeting : Bytes
greeting = 104 ∷ 101 ∷ 108 ∷ 108 ∷ 111 ∷ []

abbrev greeting_items : List (Received ℕ ℕ)
greeting_items = received (text_chunk greeting (some FinishReason.stopped)) ∷ []

abbrev greeting_output : BackendOutput
greeting_output = record {
  text = greeting;
  prompt_tokens = 5;
  prompt_cached_tokens = none;
  completion_tokens = 2;
  finish_reason = FinishReason.stopped;
}

greeting_read : read_from end_marker greeting_items no_output ≡ read greeting_output
unfolding completion
greeting_read = refl

greeting_withheld : withholds {E = ℕ} end_marker (read greeting_output) ≡ true
unfolding completion
greeting_withheld = refl

-- The client reads "hel".
greeting_answer :
    collect (streaming_completion_stream end_marker true greeting_items)
    ≡ some (
        answered (record {
          text = 104 ∷ 101 ∷ 108 ∷ [];
          finish_reason = FinishReason.stopped;
          usage = usage_from_tokens 5 2 none;
        }))
unfolding completion
greeting_answer = refl

streaming_completion_stream-withholds_example :
    ((n : ℕ) × (n ≤ length greeting - (max_stop_sequence_len end_marker - 1))
      × (collect (streaming_completion_stream end_marker true greeting_items)
          ≡ some (answer_with greeting_output (take n greeting))))
    × (complete_text {E = ℕ} end_marker greeting_output ≡ answer_with greeting_output greeting)
streaming_completion_stream-withholds_example =
    streaming_completion_stream-withholds end_marker true greeting_items greeting_output
      end_marker_filled greeting_read greeting_withheld

-- A completion request with the stop sequence "END".
abbrev request : CompletionRequest
request = record {
  model = 120 ∷ [];
  prompt = 121 ∷ [];
  stream = true;
  stream_options = record { include_usage = true };
  temperature = none;
  top_p = none;
  presence_penalty = none;
  frequency_penalty = none;
  logprobs = none;
  max_tokens = some 9;
  n = none;
  stop = end_marker;
}

request_passes : validate_completion request default_limits ≡ done
unfolding checks
request_passes = refl

-- The text of ASCII characters is its bytes.
same_stop : stop_bytes request.stop ≡ end_marker
unfolding checks
same_stop = refl

request_whole :
    withholds
      (stop_bytes request.stop)
      (read_from (stop_bytes request.stop) crossing_items no_output)
    ≡ false
unfolding completion checks
request_whole = refl

validated_completion_example :
    collect (streaming_completion_stream (stop_bytes request.stop) true crossing_items)
    ≡ some (
        answer_reading
          (stop_bytes request.stop)
          (read_from (stop_bytes request.stop) crossing_items no_output))
validated_completion_example =
    validated_completion request default_limits crossing_items request_passes request_whole
