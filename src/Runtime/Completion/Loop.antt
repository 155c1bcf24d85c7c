-- ===== src/Runtime/Completion/Loop.antt =====
-- crates/llm-runtime/src/streaming.rs: how the stream of a completion ends, by what it has read.
use kir_ai.Prelude.{
  ℕ, ◌≡◌, refl, sym, ◌∙◌, Bool, false, not, ◌&&◌, Option, none, some, List, [], ◌∷◌, ◌++◌, length,
  take, ltb, if◌then◌else◌, Option-cases, inl, inr, ◌⊎◌, arith,
}
use kir_ai.Runtime.Stop.{
  Bytes, earliest_stop_index, max_stop_sequence_len, any_empty, IncrementalStopDetector,
  new_detector,
}
use kir_ai.Runtime.Stop.Incremental.{HasSeen, new_detector-HasSeen, earliest_stop_index-nil}
use kir_ai.Runtime.Usage.{usage_from_tokens, FinishReason, is_stopped, classify_no_progress}
use kir_ai.Runtime.Completion.{
  BackendOutput, backend, Answer, refused, new_streaming, count_tokens, finish_stream, Received,
  received, broken, stream_from, streaming_completion_stream, complete_text,
}
use kir_ai.Runtime.Completion.Collect.{collect_from, collect, take-append}
use kir_ai.Runtime.Completion.Reading.{
  add_chunk, Reading, read, interrupted, read_from, no_output, streaming, IsSafe,
  earliest_stop_index-IsSafe, read_from_found, read_from_ended, read_from_later,
}
use kir_ai.Runtime.Completion.Rounds.{
  passes, stops, collect_from-round, stream_stops, stream_ends, stream_goes_on,
}
use kir_ai.Runtime.Completion.Ending.{
  checked, final_usage, visible_len, collect_from-finish_stream, complete_text_found,
}

-- A stop sequence ends the stream.
finish_found :
    {E : Type 0} (P : Type 0) (include_usage : Bool) (stop : List Bytes) (o : BackendOutput)
    (d : IncrementalStopDetector) (i : ℕ)
    → earliest_stop_index o.text stop ≡ some i
    → collect_from (take i o.text) (
        finish_stream {P = P} {E = E} include_usage
          (record (streaming o i d) { finish_reason = FinishReason.stopped }))
      ≡ some (complete_text stop o)
unfolding visible_len final_usage
finish_found P include_usage stop o d i e = rw (complete_text_found stop o i e) (
    collect_from-finish_stream P include_usage
      (record (streaming o i d) { finish_reason = FinishReason.stopped }))

-- The text that is out in the end, after `n` bytes were in the loop.
unfoldable pub visible_text : BackendOutput → ℕ → Bytes
visible_text o n =
    take (if not (is_stopped o.finish_reason) && ltb n (length o.text) then length o.text else n)
      o.text

-- The answer with the first bytes of a text.
unfoldable pub answer_with : {E : Type 0} → BackendOutput → Bytes → Answer E
answer_with o text =
    checked text o.finish_reason
      (usage_from_tokens o.prompt_tokens o.completion_tokens o.prompt_cached_tokens)
      (classify_no_progress text o.completion_tokens)

-- How a stream ends, by what was read: with a stop sequence, without, or with the error.
unfoldable pub Ends : {E : Type 0} → List Bytes → Reading E → Option (Answer E) → Type 0
Ends stop (read o) answer =
    ((i : ℕ) × (earliest_stop_index o.text stop ≡ some i) × (answer ≡ some (complete_text stop o)))
    ⊎ ((n : ℕ) × (earliest_stop_index o.text stop ≡ none)
        × IsSafe (max_stop_sequence_len stop) n o.text
        × (answer ≡ some (answer_with o (visible_text o n))))
Ends stop (interrupted e) answer = answer ≡ some (refused (backend e))

finish_clean :
    (E P : Type 0) (include_usage : Bool) (stop : List Bytes) (o : BackendOutput) (e : ℕ)
    (d : IncrementalStopDetector)
    → IsSafe (max_stop_sequence_len stop) e o.text
    → earliest_stop_index o.text stop ≡ none
    → Ends stop (read o) (
        collect_from
          (take e o.text)
          (finish_stream {P = P} {E = E} include_usage (streaming o e d)))
unfolding final_usage visible_len Ends answer_with visible_text
finish_clean E P include_usage stop o e d safe clean =
    inr (e, clean, safe, collect_from-finish_stream P include_usage (streaming o e d))

-- The loop from some round on: the client has read what was emitted.
collect_from-stream_from :
    {E P : Type 0} (stop : List Bytes) (include_usage : Bool) (items : List (Received E P))
    (o : BackendOutput) (e : ℕ) (d : IncrementalStopDetector)
    → HasSeen stop d o.text
    → IsSafe (max_stop_sequence_len stop) e o.text
    → earliest_stop_index o.text stop ≡ none
    → Ends stop
        (read_from stop items o)
        (collect_from (take e o.text) (stream_from stop include_usage items (streaming o e d)))
unfolding count_tokens add_chunk Ends
collect_from-stream_from {E = E} {P = P} stop iu [] o e d seen safe clean =
    unfold stream_from in unfold read_from in finish_clean E P iu stop o e d safe clean
collect_from-stream_from stop iu (broken x ∷ items) o e d seen safe clean =
    unfold stream_from in unfold read_from in unfold collect_from in refl
collect_from-stream_from {E = E} {P = P} stop iu (received c ∷ items) o e d seen safe clean =
    let s = count_tokens c (streaming o e d) in
    let start : take e o.text ≡ take e (o.text ++ c.text) =
      sym (take-append e o.text c.text (omega (arith, safe.within))) in
    elim (Option-cases (earliest_stop_index (o.text ++ c.text) stop)) [
      | inr (i, found) ↦
          rw
            (
              start,
              stream_stops stop iu c items (streaming o e d) _ _
                  (stops P stop c.text s i seen clean found),
              read_from_found stop c items o i found,
            )
            (inl (
              i,
              found,
              collect_from-round c.progress (o.text ++ c.text) e i _
                    (earliest_stop_index-IsSafe stop e i o.text c.text safe clean found)
                  ∙ finish_found P iu stop (add_chunk c o) _ i found,
            ))
      | inl n ↦
          let p = passes P stop c.text s seen safe n in
          elim (Option-cases c.finish_reason) [
            | inr (reason, r) ↦
                rw
                  (
                    start,
                    stream_ends stop iu c items (streaming o e d) _ _ reason p.result r,
                    read_from_ended stop c items o reason n r,
                  )
                  (rw (collect_from-round c.progress (o.text ++ c.text) e p.emitted _ p.later) (
                    finish_clean E P iu stop (record (add_chunk c o) { finish_reason = reason })
                      p.emitted p.detector p.safe n))
            | inl m ↦
                rw
                  (
                    start,
                    stream_goes_on stop iu c items (streaming o e d) _ _ p.result m,
                    read_from_later stop c items o n m,
                  )
                  (rw (collect_from-round c.progress (o.text ++ c.text) e p.emitted _ p.later) (
                    collect_from-stream_from stop iu items (add_chunk c o) p.emitted p.detector
                      p.seen p.safe n))
          ]
    ]

pub collect_from-start :
    {E P : Type 0} (stop : List Bytes) (include_usage : Bool) (items : List (Received E P))
    → any_empty stop ≡ false
    → Ends stop
        (read_from stop items no_output)
        (collect (streaming_completion_stream stop include_usage items))
unfolding collect streaming_completion_stream new_streaming
collect_from-start stop include_usage items h =
    collect_from-stream_from stop include_usage items no_output 0 (new_detector stop)
      (new_detector-HasSeen stop) (record { within = omega arith; whole = λ le. omega arith })
      (earliest_stop_index-nil stop h)
