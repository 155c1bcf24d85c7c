-- ===== src/Runtime/Completion/Reading.antt =====
-- crates/llm-runtime/src/streaming.rs: what a streamed completion reads of the backend, and the text
-- that it has emitted by then.
use kir_ai.Prelude.{
  ℕ, ◌-◌, ◌≤◌, ◌≡◌, refl, ◌∙◌, max, none, some, List, [], ◌∷◌, ◌++◌, length, length-append, drop,
  leb, Bool-cases, Option-cases, inl, inr, arith, saturating_add,
}
use kir_ai.Runtime.Stop.{
  Bytes, find, find_from, earliest_stop_index, max_stop_sequence_len, safe_stream_emit_len,
  IncrementalStopDetector,
}
use kir_ai.Runtime.Stop.Find.{floor_char_boundary-le}
use kir_ai.Runtime.Stop.Incremental.{find_from-earliest_stop_index}
use kir_ai.Runtime.Usage.{FinishReason, max_optional_u64}
use kir_ai.Runtime.Completion.{
  BackendOutput, BackendStreamChunk, Received, received, broken, Streaming, Answer, refused,
  backend, complete_text,
}

-- The output of a backend that has sent a chunk more; the reason is not read yet.
unfoldable pub add_chunk : {P : Type 0} → BackendStreamChunk P → BackendOutput → BackendOutput
unfolding max_optional_u64
add_chunk c o = record o {
  text = o.text ++ c.text;
  prompt_tokens = max o.prompt_tokens c.prompt_tokens;
  prompt_cached_tokens = max_optional_u64 o.prompt_cached_tokens c.prompt_cached_tokens;
  completion_tokens = saturating_add o.completion_tokens c.completion_tokens;
}

pub data Reading (E : Type 0) : Type 0 where
  read : BackendOutput → Reading E
  interrupted : E → Reading E

-- All chunks up to the first after which the text has a stop sequence, or that has a reason.
unfoldable pub read_from :
    {E P : Type 0} → List Bytes → List (Received E P) → BackendOutput → Reading E
read_from stop [] o = read o
read_from stop (broken e ∷ items) o = interrupted e
read_from stop (received c ∷ items) o = elim (earliest_stop_index (add_chunk c o).text stop) [
  | some index ↦ read (add_chunk c o)
  | none ↦ elim c.finish_reason [
    | some reason ↦ read (record (add_chunk c o) { finish_reason = reason })
    | none ↦ read_from stop items (add_chunk c o)
  ]
]

module _ {E P : Type 0} (stop : List Bytes) (c : BackendStreamChunk P) (items : List (Received E P))
    (o : BackendOutput) where
  pub read_from_found :
      (i : ℕ)
      → earliest_stop_index (add_chunk c o).text stop ≡ some i
      → read_from stop (received c ∷ items) o ≡ read (add_chunk c o)
  unfolding read_from
  read_from_found i e = rw (e, read_from) refl

  pub read_from_ended :
      (reason : FinishReason)
      → earliest_stop_index (add_chunk c o).text stop ≡ none
      → c.finish_reason ≡ some reason
      → read_from stop (received c ∷ items) o
        ≡ read (record (add_chunk c o) { finish_reason = reason })
  unfolding read_from add_chunk
  read_from_ended reason e r = rw (e, read_from) (rw r refl)

  pub read_from_later :
      earliest_stop_index (add_chunk c o).text stop ≡ none
      → c.finish_reason ≡ none
      → read_from stop (received c ∷ items) o ≡ read_from stop items (add_chunk c o)
  unfolding read_from add_chunk
  read_from_later e r = rw (e, read_from) (rw r refl)

abbrev pub no_output : BackendOutput
no_output = record {
  text = [];
  prompt_tokens = 0;
  prompt_cached_tokens = none;
  completion_tokens = 0;
  finish_reason = FinishReason.length_reached;
}

-- The answer of `complete_text` to the same output, or the error of the backend.
unfoldable pub answer_reading : {E : Type 0} → List Bytes → Reading E → Answer E
answer_reading stop (read o) = complete_text stop o
answer_reading stop (interrupted e) = refused (backend e)

-- The variables of the loop after `o` was read and `e` bytes were emitted.
abbrev pub streaming : BackendOutput → ℕ → IncrementalStopDetector → Streaming
streaming o e d = record {
  raw_text = o.text;
  emitted_len = e;
  prompt_tokens = o.prompt_tokens;
  prompt_cached_tokens = o.prompt_cached_tokens;
  completion_tokens = o.completion_tokens;
  finish_reason = o.finish_reason;
  stop_detector = d;
}

-- As much of a text as may be emitted: not the bytes that a stop sequence may have begun in.
pub record IsSafe (longest e : ℕ) (text : Bytes) : Type 0 where
  pub within : e ≤ length text - (longest - 1)
  pub whole : longest ≤ 1 → length text ≤ e

pub safe_stream_emit_len-IsSafe :
    (longest e : ℕ) (content chunk : Bytes)
    → IsSafe longest e content
    → IsSafe longest (max e (safe_stream_emit_len (content ++ chunk) longest)) (content ++ chunk)
unfolding safe_stream_emit_len
safe_stream_emit_len-IsSafe longest e content chunk h = elim (Bool-cases (leb longest 1)) [
  | inl t ↦
      rw (t, safe_stream_emit_len)
        (record {
          within = ground (arith, t, h.within, length-append content chunk);
          whole = λ le. omega arith;
        })
  | inr f ↦
      rw (f, safe_stream_emit_len)
        (record {
          within = omega (
            arith,
            h.within,
            length-append content chunk,
            floor_char_boundary-le (content ++ chunk) (length (content ++ chunk) - (longest - 1)),
          );
          whole = λ le. absurd (ground (arith, f, le));
        })
]

find_from_after :
    (k : ℕ) (content : Bytes) (stop : List Bytes) (i : ℕ)
    → find_from k content stop ≡ some i
    → k ≤ i
unfolding find_from
find_from_after k content [] i e = absurd (ground arith)
find_from_after k content (sequence ∷ stop) i e =
    elim (Option-cases (find (drop k content) sequence)) [
      | inl n ↦ find_from_after k content stop i (ground (arith, e, n))
      | inr (j, f) ↦ elim (Option-cases (find_from k content stop)) [
        | inl n ↦ ground (arith, e, f, n)
        | inr (l, g) ↦ ground (arith, e, f, g, find_from_after k content stop l g)
      ]
    ]

-- A stop sequence that comes into a text begins after what was safe to emit.
pub earliest_stop_index-IsSafe :
    (stop : List Bytes) (e i : ℕ) (content chunk : Bytes)
    → IsSafe (max_stop_sequence_len stop) e content
    → earliest_stop_index content stop ≡ none
    → earliest_stop_index (content ++ chunk) stop ≡ some i
    → e ≤ i
earliest_stop_index-IsSafe stop e i content chunk h clean found =
    let k = length content - (max_stop_sequence_len stop - 1) in
    let same =
      find_from-earliest_stop_index content chunk stop k (max_stop_sequence_len stop) clean
        (omega arith) (omega arith) in
    omega (arith, h.within, find_from_after k (content ++ chunk) stop i (same ∙ found))
