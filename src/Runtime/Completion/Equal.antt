-- ===== src/Runtime/Completion/Equal.antt =====
-- crates/llm-runtime/src/streaming.rs and completions.rs: a streamed completion against the completion
-- of the same output at once.
use kir_ai.Prelude.{
  ℕ, ◌-◌, ◌≤◌, ◌≡◌, refl, ◌∙◌, subst, Bool, true, false, ◌&&◌, Option, none, some, List, length,
  take, ltb, Bool-cases, Option-cases, inl, inr, arith,
}
use kir_ai.Runtime.Stop.{Bytes, earliest_stop_index, max_stop_sequence_len, any_empty}
use kir_ai.Runtime.Usage.{is_stopped}
use kir_ai.Runtime.Completion.{
  BackendOutput, Answer, Received, streaming_completion_stream, complete_text,
}
use kir_ai.Runtime.Completion.Collect.{collect, take_all}
use kir_ai.Runtime.Completion.Reading.{
  Reading, read, interrupted, read_from, no_output, answer_reading, IsSafe,
}
use kir_ai.Runtime.Completion.Loop.{visible_text, answer_with, Ends, collect_from-start}
use kir_ai.Runtime.Completion.Ending.{complete_text_clean}

-- Whether the stream withholds bytes of the answer: the backend itself stopped, and no stop sequence
-- did, one of which has more than one byte.
unfoldable pub withholds : {E : Type 0} → List Bytes → Reading E → Bool
withholds stop (read o) = elim (earliest_stop_index o.text stop) [
  | some index ↦ false
  | none ↦ is_stopped o.finish_reason && ltb 1 (max_stop_sequence_len stop)
]
withholds stop (interrupted e) = false

visible_text_all :
    (stop : List Bytes) (o : BackendOutput) (n : ℕ)
    → IsSafe (max_stop_sequence_len stop) n o.text
    → is_stopped o.finish_reason && ltb 1 (max_stop_sequence_len stop) ≡ false
    → visible_text o n ≡ o.text
unfolding visible_text
visible_text_all stop o n safe h = elim (Bool-cases (is_stopped o.finish_reason)) [
  | inl t ↦ rw t (take_all n o.text (safe.whole (ground (arith, t, h))))
  | inr f ↦ rw f (take_all _ o.text (ground arith))
]

Ends-answer_reading :
    {E : Type 0} (stop : List Bytes) (r : Reading E) (answer : Option (Answer E))
    → Ends stop r answer
    → withholds stop r ≡ false
    → answer ≡ some (answer_reading stop r)
unfolding Ends withholds answer_reading answer_with
Ends-answer_reading stop (interrupted e) answer ends h = ends
Ends-answer_reading stop (read o) answer (inl (i, found, same)) h = same
Ends-answer_reading stop (read o) answer (inr (n, clean, safe, same)) h =
    same
    ∙ rw
        (
          visible_text_all stop o n safe (ground (arith, clean, h)),
          complete_text_clean stop o clean,
        )
        refl

-- The client of a streamed completion gets what `complete_text` answers to the same output: the same
-- text, reason and usage, or the same error, also one of the backend. The output is all that the
-- backend has sent up to its reason, or up to the first chunk that completes a stop sequence. No stop
-- sequence may be empty; and where none is found, either the reason of the backend is not that it
-- stopped, or no stop sequence has more than one byte.
pub collect-streaming_completion_stream :
    {E P : Type 0} (stop : List Bytes) (include_usage : Bool) (items : List (Received E P))
    → any_empty stop ≡ false
    → withholds stop (read_from stop items no_output) ≡ false
    → collect (streaming_completion_stream stop include_usage items)
      ≡ some (answer_reading stop (read_from stop items no_output))
collect-streaming_completion_stream stop include_usage items h w =
    Ends-answer_reading stop (read_from stop items no_output)
      (collect (streaming_completion_stream stop include_usage items))
      (collect_from-start stop include_usage items h) w

Ends-withheld :
    {E : Type 0} (stop : List Bytes) (o : BackendOutput) (answer : Option (Answer E))
    → Ends stop (read o) answer
    → withholds {E = E} stop (read o) ≡ true
    → (n : ℕ) × (n ≤ length o.text - (max_stop_sequence_len stop - 1))
      × (answer ≡ some (answer_with o (take n o.text)))
unfolding Ends withholds visible_text
Ends-withheld stop o answer (inl (i, found, same)) h = absurd (ground (arith, found, h))
Ends-withheld stop o answer (inr (n, clean, safe, same)) h =
    let t : is_stopped o.finish_reason ≡ true = ground (arith, clean, h) in
    (n, safe.within, same ∙ rw t refl)

-- Where no stop sequence is empty, one of them has `m` bytes with `1 < m`, none is in the text that was
-- read, and the backend says itself that it stopped, the client of a streamed completion never gets
-- the last bytes of that text: it gets the answer with a prefix of it that is shorter by `m - 1` bytes
-- at least, or is empty, by the check of progress on that prefix. `complete_text` answers the same
-- output with the whole text.
pub streaming_completion_stream-withholds :
    {E P : Type 0} (stop : List Bytes) (include_usage : Bool) (items : List (Received E P))
    (o : BackendOutput)
    → any_empty stop ≡ false
    → read_from stop items no_output ≡ read o
    → withholds {E = E} stop (read o) ≡ true
    → ((n : ℕ) × (n ≤ length o.text - (max_stop_sequence_len stop - 1))
        × (collect (streaming_completion_stream stop include_usage items)
            ≡ some (answer_with o (take n o.text))))
      × (complete_text {E = E} stop o ≡ answer_with o o.text)
unfolding withholds answer_with
streaming_completion_stream-withholds stop include_usage items o h same w = (
  Ends-withheld stop o (collect (streaming_completion_stream stop include_usage items))
      (subst (λ r. Ends stop r (collect (streaming_completion_stream stop include_usage items)))
        same (collect_from-start stop include_usage items h))
      w,
  elim (Option-cases (earliest_stop_index o.text stop)) [
    | inl clean ↦ complete_text_clean stop o clean
    | inr (i, found) ↦ absurd (ground (arith, found, w))
  ],
)
