-- ===== src/Runtime/Stop.antt =====
-- crates/llm-runtime/src/stop.rs: the search for stop sequences. A `str` is the list of its bytes, and
-- an index into it a number of bytes.
pub mod Find
pub mod Incremental
use kir_ai.Prelude.{
  ℕ, zero, suc, ◌+◌, ◌-◌, min, max, Bool, true, false, ◌&&◌, ◌||◌, Option, none, some, List, [],
  ◌∷◌, length, is_empty, get_elem?, take, drop, ltb, leb, ◌==◌, if◌then◌else◌, saturating_sub,
}

abbrev pub Bytes : Type 0
Bytes = List ℕ

-- `str::starts_with`
unfoldable pub starts_with : Bytes → Bytes → Bool
starts_with content [] = true
starts_with [] (p ∷ pattern) = false
starts_with (c ∷ content) (p ∷ pattern) = c == p && starts_with content pattern

-- An index in a text, as an index in one that has `n` bytes before it.
abbrev pub shift : ℕ → Option ℕ → Option ℕ
shift n none = none
shift n (some i) = some (n + i)

-- `str::find`
unfoldable pub find : Bytes → Bytes → Option ℕ
unfolding starts_with
find [] pattern = if starts_with [] pattern then some 0 else none
find (c ∷ content) pattern =
    let later = shift 1 (find content pattern) in
    if starts_with (c ∷ content) pattern then some 0 else later

-- `min` on an iterator, one more item at a time.
abbrev pub min_option : Option ℕ → Option ℕ → Option ℕ
min_option none b = b
min_option (some a) none = some a
min_option (some a) (some b) = some (min a b)

unfoldable pub earliest_stop_index : Bytes → List Bytes → Option ℕ
unfolding find
earliest_stop_index content [] = none
earliest_stop_index content (sequence ∷ stop) =
    min_option (find content sequence) (earliest_stop_index content stop)

-- The content after it, and whether it was truncated.
unfoldable pub apply_stop_sequences : Bytes → List Bytes → Bytes × Bool
unfolding earliest_stop_index
apply_stop_sequences content stop = elim (earliest_stop_index content stop) [
  | none ↦ (content, false)
  | some stop_at ↦ (take stop_at content, true)
]

unfoldable pub max_stop_sequence_len : List Bytes → ℕ
max_stop_sequence_len [] = 0
max_stop_sequence_len (sequence ∷ stop) = max (length sequence) (max_stop_sequence_len stop)

-- `str::is_char_boundary`: the start, the end, or a byte that does not continue a character.
unfoldable pub is_char_boundary : Bytes → ℕ → Bool
is_char_boundary content index = elim (get_elem? content index) [
  | none ↦ index == 0 || index == length content
  | some byte ↦ index == 0 || (ltb byte 128 || leb 192 byte)
]

-- The loop ends at 0, which is a boundary.
unfoldable pub floor_char_boundary : Bytes → ℕ → ℕ
unfolding is_char_boundary
floor_char_boundary content zero = zero
floor_char_boundary content (suc index) =
    let lower = floor_char_boundary content index in
    if is_char_boundary content (suc index) then suc index else lower

pub record IncrementalStopDetector : Type 0 where
  pub max_stop_len : ℕ
  pub previous_len : ℕ

unfoldable pub new_detector : List Bytes → IncrementalStopDetector
unfolding max_stop_sequence_len
new_detector stop = record { max_stop_len = max_stop_sequence_len stop; previous_len = 0 }

-- `stop.iter().any(String::is_empty)`
unfoldable pub any_empty : List Bytes → Bool
any_empty [] = false
any_empty (sequence ∷ stop) = is_empty sequence || any_empty stop

-- The search of `observe` from where the earlier one left off.
unfoldable pub find_from : ℕ → Bytes → List Bytes → Option ℕ
unfolding find
find_from search_start content [] = none
find_from search_start content (sequence ∷ stop) =
    min_option (shift search_start (find (drop search_start content) sequence))
      (find_from search_start content stop)

unfoldable pub search_start : IncrementalStopDetector → Bytes → ℕ
unfolding floor_char_boundary
search_start d content =
    let overlap = saturating_sub d.max_stop_len 1 in
    floor_char_boundary content (saturating_sub d.previous_len overlap)

unfoldable pub observe :
    IncrementalStopDetector → Bytes → List Bytes → Option ℕ × IncrementalStopDetector
unfolding any_empty find_from search_start
observe d content stop =
    let d' = record d { previous_len = length content } in
    if is_empty stop
    then (none, d')
    else (if any_empty stop
        then (some 0, d')
        else (find_from (search_start d content) content stop, d'))

unfoldable pub safe_stream_emit_len : Bytes → ℕ → ℕ
unfolding floor_char_boundary
safe_stream_emit_len content max_stop_len =
    if leb max_stop_len 1
    then length content
    else floor_char_boundary content (saturating_sub (length content) (max_stop_len - 1))
