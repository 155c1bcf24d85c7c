-- ===== src/Runtime/Completion/Validated.antt =====
-- crates/llm-runtime/src/streaming.rs with crates/llm-api/src/validation.rs: a streamed completion of a
-- request that has passed the checks.
use kir_ai.Prelude.{ℕ, ◌≡◌, refl, false, some, List, [], ◌∷◌, ◌++◌, map, is_empty, All, arith}
use kir_ai.Json.{Text}
use kir_ai.Api.Error.{done}
use kir_ai.Api.Types.{CompletionRequest}
use kir_ai.Api.Checks.{RequestLimits}
use kir_ai.Api.Size.Print.{utf8, print_text}
use kir_ai.Api.Request.{validate_completion}
use kir_ai.Api.Request.Served.{IsStop, validate_completion-IsServedCompletion}
use kir_ai.Runtime.Stop.{Bytes, any_empty}
use kir_ai.Runtime.Completion.{Received, streaming_completion_stream}
use kir_ai.Runtime.Completion.Collect.{collect}
use kir_ai.Runtime.Completion.Reading.{read_from, no_output, answer_reading}
use kir_ai.Runtime.Completion.Equal.{withholds, collect-streaming_completion_stream}

-- The stop sequences of a request in UTF-8.
abbrev pub stop_bytes : List Text → List Bytes
stop_bytes stop = map print_text stop

utf8_filled : (c : ℕ) (rest : Bytes) → is_empty (utf8 c ++ rest) ≡ false
unfolding utf8
utf8_filled c rest = ground arith

print_text_filled :
    (sequence : Text) → is_empty sequence ≡ false → is_empty (print_text sequence) ≡ false
unfolding print_text
print_text_filled [] h = absurd (ground arith)
print_text_filled (c ∷ cs) h = utf8_filled c (print_text cs)

IsStop-any_empty : (stop : List Text) → All IsStop stop → any_empty (stop_bytes stop) ≡ false
unfolding any_empty
IsStop-any_empty [] h = refl
IsStop-any_empty (sequence ∷ stop) h =
    rw (print_text_filled sequence h.0.some_character) (IsStop-any_empty stop h.1)

-- The same for a completion request that passes the checks, with its own stop sequences: none of them
-- is empty, so the client of the stream gets what `complete_text` answers, unless bytes are withheld.
pub validated_completion :
    {E P : Type 0} (r : CompletionRequest) (limits : RequestLimits) (items : List (Received E P))
    → validate_completion r limits ≡ done
    → withholds (stop_bytes r.stop) (read_from (stop_bytes r.stop) items no_output) ≡ false
    → collect (streaming_completion_stream (stop_bytes r.stop) r.stream_options.include_usage items)
      ≡ some (answer_reading (stop_bytes r.stop) (read_from (stop_bytes r.stop) items no_output))
validated_completion r limits items h w =
    collect-streaming_completion_stream (stop_bytes r.stop) r.stream_options.include_usage items
      (IsStop-any_empty r.stop (validate_completion-IsServedCompletion r limits h).stops) w
