-- ===== src/Runtime/Completion/Rounds.antt =====
-- crates/llm-runtime/src/streaming.rs: a round of the loop of a streamed completion.
use mathlib.Core.List.{append-nil}
use kir_ai.Prelude.{
  ℕ, ◌≤◌, ◌≡◌, refl, sym, ap, ◌∙◌, max, Bool, true, false, Option, none, some, List, [], ◌∷◌, ◌++◌,
  take, ltb, Bool-cases, inl, inr, arith,
}
use kir_ai.Runtime.Stop.{
  Bytes, earliest_stop_index, max_stop_sequence_len, observe, safe_stream_emit_len,
  IncrementalStopDetector,
}
use kir_ai.Runtime.Stop.Incremental.{HasSeen, observe-earliest_stop_index, observe-HasSeen}
use kir_ai.Runtime.Usage.{FinishReason}
use kir_ai.Runtime.Completion.{
  BackendStreamChunk, RuntimeError, Streaming, count_tokens, progress_event, CompletionStreamEvent,
  emit_to, receive_reason, receive_text, receive_text_if_any, receive_chunk, finish_stream,
  Received, received, after_events, stream_from,
}
use kir_ai.Runtime.Completion.Collect.{
  event_text, event_reason, event_usage, collect_from, collect_from-after_events,
  event_text-emit_to, event_reason-emit_to, event_usage-emit_to,
}
use kir_ai.Runtime.Completion.Reading.{IsSafe, safe_stream_emit_len-IsSafe}
use kir_ai.Runtime.Completion.Ending.{api_finish_reason_same, emit_to_self}

emit_to-max :
    (P : Type 0) (text : Bytes) (e n : ℕ) → emit_to {P = P} text e n ≡ emit_to text e (max e n)
unfolding emit_to
emit_to-max P text e n = elim (Bool-cases (ltb e n)) [
  | inl t ↦ let same : max e n ≡ n = ground arith in rw same refl
  | inr f ↦
      let same : max e n ≡ e = ground arith in
      rw same (rw (f, emit_to) (sym (emit_to_self P text e)))
]

-- The client reads what a round emits.
pub collect_from-round :
    {E P : Type 0} (p : Option P) (o' : Bytes) (e e' : ℕ)
    (rest : List (CompletionStreamEvent P) × Option (RuntimeError E))
    → e ≤ e'
    → collect_from (take e o') (after_events (progress_event p ++ emit_to o' e e') rest)
      ≡ collect_from (take e' o') rest
unfolding progress_event event_text event_reason event_usage
collect_from-round {P = P} none o' e e' rest h =
    collect_from-after_events (take e o') (emit_to o' e e') rest (event_reason-emit_to P o' e e')
      (event_usage-emit_to P o' e e')
    ∙ ap (λ t. collect_from t rest) (event_text-emit_to P o' e e' h)
collect_from-round {P = P} (some p) o' e e' rest h =
    collect_from-after_events (take e o') (progress_event (some p) ++ emit_to o' e e') rest
      (event_reason-emit_to P o' e e') (event_usage-emit_to P o' e e')
    ∙ ap (λ t. collect_from t rest) (event_text-emit_to P o' e e' h)

-- The text of a chunk that completes a stop sequence.
receive_text_found :
    {P : Type 0} (stop : List Bytes) (text : Bytes) (s : Streaming) (i : ℕ)
    → (observe s.stop_detector (s.raw_text ++ text) stop).0 ≡ some i
    → receive_text {P = P} stop text s ≡ (
      emit_to (s.raw_text ++ text) s.emitted_len i,
      record s {
        raw_text = s.raw_text ++ text;
        emitted_len = i;
        finish_reason = FinishReason.stopped;
        stop_detector = (observe s.stop_detector (s.raw_text ++ text) stop).1;
      },
      true,
    )
unfolding receive_text
receive_text_found stop text s i e = rw (e, receive_text) refl

-- The text of a chunk that completes none.
receive_text_clean :
    {P : Type 0} (stop : List Bytes) (text : Bytes) (s : Streaming)
    → (observe s.stop_detector (s.raw_text ++ text) stop).0 ≡ none
    → receive_text {P = P} stop text s ≡ (
      emit_to (s.raw_text ++ text) s.emitted_len (
          max s.emitted_len
            (safe_stream_emit_len (s.raw_text ++ text) (max_stop_sequence_len stop))),
      record s {
        raw_text = s.raw_text ++ text;
        emitted_len =
            max s.emitted_len
              (safe_stream_emit_len (s.raw_text ++ text) (max_stop_sequence_len stop));
        stop_detector = (observe s.stop_detector (s.raw_text ++ text) stop).1;
      },
      false,
    )
unfolding receive_text
receive_text_clean {P = P} stop text s e =
    rw
      (
        ← (
            emit_to-max P (s.raw_text ++ text) s.emitted_len
              (safe_stream_emit_len (s.raw_text ++ text) (max_stop_sequence_len stop))),
        e,
        receive_text,
      )
      refl

-- A round whose text completes no stop sequence: what is emitted stays safe.
pub record Passes (P : Type 0) (stop : List Bytes) (text : Bytes) (s : Streaming) : Type 0 where
  pub emitted : ℕ
  pub detector : IncrementalStopDetector
  pub result : receive_text_if_any {P = P} stop text s ≡ (
    emit_to (s.raw_text ++ text) s.emitted_len emitted,
    record s { raw_text = s.raw_text ++ text; emitted_len = emitted; stop_detector = detector },
    false,
  )
  pub later : s.emitted_len ≤ emitted
  pub seen : HasSeen stop detector (s.raw_text ++ text)
  pub safe : IsSafe (max_stop_sequence_len stop) emitted (s.raw_text ++ text)

pub passes :
    (P : Type 0) (stop : List Bytes) (text : Bytes) (s : Streaming)
    → HasSeen stop s.stop_detector s.raw_text
    → IsSafe (max_stop_sequence_len stop) s.emitted_len s.raw_text
    → earliest_stop_index (s.raw_text ++ text) stop ≡ none
    → Passes P stop text s
unfolding receive_text_if_any
passes P stop [] s seen safe clean = record {
  emitted = s.emitted_len;
  detector = s.stop_detector;
  result = rw (append-nil s.raw_text, emit_to_self P s.raw_text s.emitted_len) refl;
  later = omega arith;
  seen = rw (append-nil s.raw_text) seen;
  safe = rw (append-nil s.raw_text) safe;
}
passes P stop (b ∷ text) s seen safe clean = record {
  emitted =
      max s.emitted_len
        (safe_stream_emit_len (s.raw_text ++ b ∷ text) (max_stop_sequence_len stop));
  detector = (observe s.stop_detector (s.raw_text ++ b ∷ text) stop).1;
  result =
      receive_text_clean stop (b ∷ text) s
        (observe-earliest_stop_index stop s.stop_detector s.raw_text (b ∷ text) seen ∙ clean);
  later = omega arith;
  seen = observe-HasSeen stop s.stop_detector s.raw_text (b ∷ text) seen clean;
  safe =
      safe_stream_emit_len-IsSafe (max_stop_sequence_len stop) s.emitted_len s.raw_text (b ∷ text)
        safe;
}

-- A round whose text completes a stop sequence.
pub stops :
    (P : Type 0) (stop : List Bytes) (text : Bytes) (s : Streaming) (i : ℕ)
    → HasSeen stop s.stop_detector s.raw_text
    → earliest_stop_index s.raw_text stop ≡ none
    → earliest_stop_index (s.raw_text ++ text) stop ≡ some i
    → receive_text_if_any {P = P} stop text s ≡ (
      emit_to (s.raw_text ++ text) s.emitted_len i,
      record s {
        raw_text = s.raw_text ++ text;
        emitted_len = i;
        finish_reason = FinishReason.stopped;
        stop_detector = (observe s.stop_detector (s.raw_text ++ text) stop).1;
      },
      true,
    )
unfolding receive_text_if_any
stops P stop [] s i seen clean found =
    let same : earliest_stop_index s.raw_text stop ≡ some i =
      rw (← (append-nil s.raw_text)) found in
    absurd (ground (arith, same, clean))
stops P stop (b ∷ text) s i seen clean found =
    receive_text_found stop (b ∷ text) s i
      (observe-earliest_stop_index stop s.stop_detector s.raw_text (b ∷ text) seen ∙ found)

-- What the loop does with what a round yields.
module _ {E P : Type 0} (stop : List Bytes) (include_usage : Bool) (c : BackendStreamChunk P)
    (items : List (Received E P)) (s s' : Streaming) (events : List (CompletionStreamEvent P)) where
  pub stream_stops :
      receive_text_if_any stop c.text (count_tokens c s) ≡ (events, s', true)
      → stream_from stop include_usage (received c ∷ items) s
        ≡ after_events (progress_event c.progress ++ events) (finish_stream include_usage s')
  unfolding stream_from
  stream_stops e =
      let round : receive_chunk stop c s ≡ (progress_event c.progress ++ events, s', true) =
        unfold receive_chunk in rw e (unfold receive_reason in refl) in
      rw (round, stream_from) (rw round refl)

  pub stream_ends :
      (reason : FinishReason)
      → receive_text_if_any stop c.text (count_tokens c s) ≡ (events, s', false)
      → c.finish_reason ≡ some reason
      → stream_from stop include_usage (received c ∷ items) s
        ≡ after_events
            (progress_event c.progress ++ events)
            (finish_stream include_usage (record s' { finish_reason = reason }))
  unfolding stream_from
  stream_ends reason e r =
      let round : receive_chunk stop c s
          ≡ (progress_event c.progress ++ events, record s' { finish_reason = reason }, true) =
        unfold receive_chunk in
        rw e (rw r (unfold receive_reason in rw (api_finish_reason_same reason) refl)) in
      rw (round, stream_from) (rw round refl)

  pub stream_goes_on :
      receive_text_if_any stop c.text (count_tokens c s) ≡ (events, s', false)
      → c.finish_reason ≡ none
      → stream_from stop include_usage (received c ∷ items) s
        ≡ after_events
            (progress_event c.progress ++ events)
            (stream_from stop include_usage items s')
  unfolding stream_from
  stream_goes_on e r =
      let round : receive_chunk stop c s ≡ (progress_event c.progress ++ events, s', false) =
        unfold receive_chunk in rw e (rw r (unfold receive_reason in refl)) in
      rw (round, stream_from) (rw round refl)
