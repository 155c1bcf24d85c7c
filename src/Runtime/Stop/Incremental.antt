-- ===== src/Runtime/Stop/Incremental.antt =====
-- crates/llm-runtime/src/stop.rs: the incremental search against the search of the whole text.
use kir_ai.Prelude.{
  ℕ, ◌+◌, ◌-◌, ◌≤◌, ◌≡◌, refl, ◌⊎◌, ◌∙◌, sym, ap, true, false, Option, none, some, List, [], ◌∷◌,
  ◌++◌, length, length-append, drop, arith, Bool-cases, Option-cases, inl, inr,
}
use kir_ai.Runtime.Stop.{
  Bytes, starts_with, shift, find, min_option, earliest_stop_index, max_stop_sequence_len,
  IncrementalStopDetector, new_detector, any_empty, find_from, search_start, observe,
}
use kir_ai.Runtime.Stop.Find.{
  starts_with-append, drop-append, length-drop, find-none-starts_with, find-drop,
  floor_char_boundary-le,
}

-- A sequence that is not in `content` starts in no place of a longer text that leaves room for it
-- within `content`, so a search may begin after those.
find-overlap :
    (content chunk pattern : Bytes) (k longest : ℕ)
    → find content pattern ≡ none
    → length pattern ≤ longest
    → k ≤ length content - (longest - 1)
    → find (content ++ chunk) pattern ≡ shift k (find (drop k (content ++ chunk)) pattern)
find-overlap content chunk pattern k longest h short le =
    find-drop k (content ++ chunk) pattern (omega (arith, length-append content chunk)) (λ i lt.
      let room : i + length pattern ≤ length content = omega (arith, lt, le, short) in
      let inside : i ≤ length content = omega (arith, room) in
      rw (drop-append i content chunk inside) (
        starts_with-append (drop i content) chunk pattern
          (omega (arith, room, length-drop i content))
        ∙ find-none-starts_with content pattern i h))

min_option-none : (a b : Option ℕ) → min_option a b ≡ none → (a ≡ none) × (b ≡ none)
min_option-none none b h = (refl, h)
min_option-none (some a) none h = absurd (ground arith)
min_option-none (some a) (some b) h = absurd (ground arith)

-- The same for every sequence of a list, none of which is longer than `longest`.
pub find_from-earliest_stop_index :
    (content chunk : Bytes) (stop : List Bytes) (k longest : ℕ)
    → earliest_stop_index content stop ≡ none
    → max_stop_sequence_len stop ≤ longest
    → k ≤ length content - (longest - 1)
    → find_from k (content ++ chunk) stop ≡ earliest_stop_index (content ++ chunk) stop
unfolding find_from earliest_stop_index max_stop_sequence_len
find_from-earliest_stop_index content chunk [] k longest h short le = refl
find_from-earliest_stop_index content chunk (sequence ∷ stop) k longest h short le =
    let (here, later) =
      min_option-none (find content sequence) (earliest_stop_index content stop) h in
    rw (← (find-overlap content chunk sequence k longest here (omega (arith, short)) le)) (
      ap (min_option (find (content ++ chunk) sequence)) (
        find_from-earliest_stop_index content chunk stop k longest later (omega (arith, short)) le))

-- With an empty sequence the index is 0, whatever the text.
any_empty-earliest_stop_index :
    (content : Bytes) (stop : List Bytes)
    → any_empty stop ≡ true
    → earliest_stop_index content stop ≡ some 0
unfolding any_empty earliest_stop_index find starts_with
any_empty-earliest_stop_index content [] h = absurd (ground arith)
any_empty-earliest_stop_index [] ([] ∷ stop) h = elim (Option-cases (earliest_stop_index [] stop)) [
  | inl n ↦ rw n refl
  | inr (i, e) ↦ rw e (ap some (omega arith))
]
any_empty-earliest_stop_index (c ∷ content) ([] ∷ stop) h =
    elim (Option-cases (earliest_stop_index (c ∷ content) stop)) [
      | inl n ↦ rw n refl
      | inr (i, e) ↦ rw e (ap some (omega arith))
    ]
any_empty-earliest_stop_index content ((b ∷ sequence) ∷ stop) h =
    rw (any_empty-earliest_stop_index content stop h)
      (elim (Option-cases (find content (b ∷ sequence))) [
        | inl n ↦ rw n refl
        | inr (i, e) ↦ rw e (ap some (omega arith))
      ])

-- Nothing is found in a text without bytes.
pub earliest_stop_index-nil :
    (stop : List Bytes) → any_empty stop ≡ false → earliest_stop_index [] stop ≡ none
unfolding any_empty earliest_stop_index find starts_with
earliest_stop_index-nil [] h = refl
earliest_stop_index-nil ([] ∷ stop) h = absurd (ground arith)
earliest_stop_index-nil ((b ∷ sequence) ∷ stop) h = earliest_stop_index-nil stop h

-- The detector has seen the content, which has no stop sequence unless one of them is empty.
pub HasSeen : List Bytes → IncrementalStopDetector → Bytes → Type 0
HasSeen stop d content =
    (d.max_stop_len ≡ max_stop_sequence_len stop)
    × (d.previous_len ≡ length content)
    × ((any_empty stop ≡ true) ⊎ (earliest_stop_index content stop ≡ none))

pub new_detector-HasSeen : (stop : List Bytes) → HasSeen stop (new_detector stop) []
unfolding new_detector HasSeen
new_detector-HasSeen stop = (
  refl,
  refl,
  elim (Bool-cases (any_empty stop)) [
    | inl t ↦ inl t
    | inr f ↦ inr (earliest_stop_index-nil stop f)
  ],
)

search_start-le :
    (d : IncrementalStopDetector) (text : Bytes)
    → search_start d text ≤ d.previous_len - (d.max_stop_len - 1)
unfolding search_start
search_start-le d text = floor_char_boundary-le text (d.previous_len - (d.max_stop_len - 1))

-- One more chunk: the incremental search finds what the search of the whole text does.
pub observe-earliest_stop_index :
    (stop : List Bytes) (d : IncrementalStopDetector) (content chunk : Bytes)
    → HasSeen stop d content
    → (observe d (content ++ chunk) stop).0 ≡ earliest_stop_index (content ++ chunk) stop
unfolding HasSeen observe
observe-earliest_stop_index [] d content chunk h = unfold earliest_stop_index in refl
observe-earliest_stop_index (sequence ∷ stop) d content chunk (longest, seen, found) =
    elim (Bool-cases (any_empty (sequence ∷ stop))) [
      | inl t ↦
          rw (t, observe)
            (sym (any_empty-earliest_stop_index (content ++ chunk) (sequence ∷ stop) t))
      | inr f ↦
          let clean : earliest_stop_index content (sequence ∷ stop) ≡ none = elim found [
            | inl t ↦ absurd (ground arith)
            | inr e ↦ e
          ] in
          rw (f, observe)
            (find_from-earliest_stop_index content chunk (sequence ∷ stop)
              (search_start d (content ++ chunk)) d.max_stop_len clean (omega (arith, longest))
              (omega (arith, seen, search_start-le d (content ++ chunk))))
    ]

observe_detector :
    (stop : List Bytes) (d : IncrementalStopDetector) (text : Bytes)
    → (observe d text stop).1 ≡ record d { previous_len = length text }
unfolding observe
observe_detector [] d text = refl
observe_detector (sequence ∷ stop) d text = elim (Bool-cases (any_empty (sequence ∷ stop))) [
  | inl t ↦ rw (t, observe) refl
  | inr f ↦ rw (f, observe) refl
]

-- Where nothing is found, the detector has seen the longer text.
pub observe-HasSeen :
    (stop : List Bytes) (d : IncrementalStopDetector) (content chunk : Bytes)
    → HasSeen stop d content
    → earliest_stop_index (content ++ chunk) stop ≡ none
    → HasSeen stop (observe d (content ++ chunk) stop).1 (content ++ chunk)
unfolding HasSeen
observe-HasSeen stop d content chunk (longest, seen, found) e =
    rw (observe_detector stop d (content ++ chunk)) (longest, refl, inr e)

-- What a detector finds in a text that comes in chunks, up to the first find.
unfoldable pub observe_chunks : List Bytes → IncrementalStopDetector → Bytes → List Bytes → Option ℕ
unfolding observe
observe_chunks stop d content [] = none
observe_chunks stop d content (chunk ∷ chunks) =
    let (stop_at, d') = observe d (content ++ chunk) stop in
    elim stop_at [
      | some index ↦ some index
      | none ↦ observe_chunks stop d' (content ++ chunk) chunks
    ]

-- The same with a search of the whole text after each chunk.
unfoldable pub search_chunks : List Bytes → Bytes → List Bytes → Option ℕ
unfolding earliest_stop_index
search_chunks stop content [] = none
search_chunks stop content (chunk ∷ chunks) = elim (earliest_stop_index (content ++ chunk) stop) [
  | some index ↦ some index
  | none ↦ search_chunks stop (content ++ chunk) chunks
]

observe_chunks_from :
    (stop : List Bytes) (d : IncrementalStopDetector) (content : Bytes) (chunks : List Bytes)
    → HasSeen stop d content
    → observe_chunks stop d content chunks ≡ search_chunks stop content chunks
unfolding observe_chunks search_chunks
observe_chunks_from stop d content [] h = refl
observe_chunks_from stop d content (chunk ∷ chunks) h =
    let same = observe-earliest_stop_index stop d content chunk h in
    elim (Option-cases (earliest_stop_index (content ++ chunk) stop)) [
      | inr (index, e) ↦ rw (e, search_chunks) (rw (same ∙ e, observe_chunks) refl)
      | inl n ↦
          rw (n, search_chunks)
            (rw (same ∙ n, observe_chunks)
              (observe_chunks_from stop (observe d (content ++ chunk) stop).1 (content ++ chunk)
                chunks (observe-HasSeen stop d content chunk h n)))
    ]

-- A new detector that observes a text in chunks, however it is cut, finds at each chunk exactly what
-- a search of the whole text so far finds: the same earliest index of a stop sequence, at the same
-- chunk, and nothing before that; this also where sequences are empty or cross the chunks.
pub observe_chunks-search_chunks :
    (stop chunks : List Bytes)
    → observe_chunks stop (new_detector stop) [] chunks ≡ search_chunks stop [] chunks
observe_chunks-search_chunks stop chunks =
    observe_chunks_from stop (new_detector stop) [] chunks (new_detector-HasSeen stop)
