-- ===== src/Runtime/Completion/Collect.antt =====
-- What a client reads off the events of a streamed completion.
use mathlib.Core.List.{append_assoc, append-nil}
use kir_ai.Prelude.{
  ℕ, ◌-◌, ◌≤◌, ◌≡◌, refl, sym, ap, ◌∙◌, Option, none, some, List, [], ◌∷◌, ◌++◌, length, take, drop,
  ltb, Bool-cases, Option-cases, inl, inr, zero, suc, arith,
}
use kir_ai.Runtime.Stop.{Bytes}
use kir_ai.Runtime.Usage.{Usage, FinishReason}
use kir_ai.Runtime.Completion.{
  RuntimeError, Answer, answered, refused, CompletionChoice, CompletionStreamEvent, chunk, progress,
  complete, emit_to, after_events,
}

abbrev pub or_else {ℓ} : {A : Type ℓ} → Option A → Option A → Option A
or_else none b = b
or_else (some a) b = some a

or_else_assoc {ℓ} :
    {A : Type ℓ} (a b c : Option A) → or_else (or_else a b) c ≡ or_else a (or_else b c)
or_else_assoc none b c = refl
or_else_assoc (some a) b c = refl

unfoldable pub choices_text : List CompletionChoice → Bytes
choices_text [] = []
choices_text (c ∷ choices) = c.text ++ choices_text choices

unfoldable pub choices_reason : List CompletionChoice → Option FinishReason
choices_reason [] = none
choices_reason (c ∷ choices) = or_else (choices_reason choices) c.finish_reason

module _ {P : Type 0} where
  -- The texts of all chunks.
  unfoldable pub event_text : List (CompletionStreamEvent P) → Bytes
  unfolding choices_text
  event_text [] = []
  event_text (chunk r ∷ events) = choices_text r.choices ++ event_text events
  event_text (progress p ∷ events) = event_text events
  event_text (complete u ∷ events) = event_text events

  -- The last reason of a chunk.
  unfoldable pub event_reason : List (CompletionStreamEvent P) → Option FinishReason
  unfolding choices_reason
  event_reason [] = none
  event_reason (chunk r ∷ events) = or_else (event_reason events) (choices_reason r.choices)
  event_reason (progress p ∷ events) = event_reason events
  event_reason (complete u ∷ events) = event_reason events

  unfoldable pub event_usage : List (CompletionStreamEvent P) → Option Usage
  event_usage [] = none
  event_usage (chunk r ∷ events) = event_usage events
  event_usage (progress p ∷ events) = event_usage events
  event_usage (complete u ∷ events) = or_else (event_usage events) (some u)

  event_text-append :
      (xs ys : List (CompletionStreamEvent P))
      → event_text (xs ++ ys) ≡ event_text xs ++ event_text ys
  unfolding event_text
  event_text-append [] ys = refl
  event_text-append (chunk r ∷ xs) ys =
      ap (λ t. choices_text r.choices ++ t) (event_text-append xs ys)
      ∙ sym (append_assoc (choices_text r.choices) (event_text xs) (event_text ys))
  event_text-append (progress p ∷ xs) ys = event_text-append xs ys
  event_text-append (complete u ∷ xs) ys = event_text-append xs ys

  event_reason-append :
      (xs ys : List (CompletionStreamEvent P))
      → event_reason (xs ++ ys) ≡ or_else (event_reason ys) (event_reason xs)
  unfolding event_reason
  event_reason-append [] ys = elim (Option-cases (event_reason ys)) [
    | inl e ↦ rw e refl
    | inr (r, e) ↦ rw e refl
  ]
  event_reason-append (chunk r ∷ xs) ys =
      rw (event_reason-append xs ys)
        (or_else_assoc (event_reason ys) (event_reason xs) (choices_reason r.choices))
  event_reason-append (progress p ∷ xs) ys = event_reason-append xs ys
  event_reason-append (complete u ∷ xs) ys = event_reason-append xs ys

  event_usage-append :
      (xs ys : List (CompletionStreamEvent P))
      → event_usage (xs ++ ys) ≡ or_else (event_usage ys) (event_usage xs)
  unfolding event_usage
  event_usage-append [] ys = elim (Option-cases (event_usage ys)) [
    | inl e ↦ rw e refl
    | inr (u, e) ↦ rw e refl
  ]
  event_usage-append (chunk r ∷ xs) ys = event_usage-append xs ys
  event_usage-append (progress p ∷ xs) ys = event_usage-append xs ys
  event_usage-append (complete u ∷ xs) ys =
      rw (event_usage-append xs ys) (or_else_assoc (event_usage ys) (event_usage xs) (some u))

abbrev pub answer_of : {E : Type 0} → Bytes → Option FinishReason → Option Usage → Option (Answer E)
answer_of text none usage = none
answer_of text (some reason) none = none
answer_of text (some reason) (some usage) =
    some (answered (record { text = text; finish_reason = reason; usage = usage }))

-- The answer that the events make after `text` was read, or the error that ends them; `none` where
-- they lack a reason or a usage.
unfoldable pub collect_from :
    {E P : Type 0}
    → Bytes
    → List (CompletionStreamEvent P) × Option (RuntimeError E)
    → Option (Answer E)
unfolding event_text event_reason event_usage
collect_from text (events, some error) = some (refused error)
collect_from text (events, none) =
    answer_of (text ++ event_text events) (event_reason events) (event_usage events)

unfoldable pub collect :
    {E P : Type 0} → List (CompletionStreamEvent P) × Option (RuntimeError E) → Option (Answer E)
unfolding collect_from
collect answer = collect_from [] answer

or_else-none {ℓ} : {A : Type ℓ} (a : Option A) → or_else a none ≡ a
or_else-none none = refl
or_else-none (some a) = refl

-- Events that are read before others, where they have neither a reason nor a usage.
pub collect_from-after_events :
    {E P : Type 0} (text : Bytes) (events : List (CompletionStreamEvent P))
    (rest : List (CompletionStreamEvent P) × Option (RuntimeError E))
    → event_reason events ≡ none
    → event_usage events ≡ none
    → collect_from text (after_events events rest) ≡ collect_from (text ++ event_text events) rest
unfolding collect_from after_events
collect_from-after_events text events (later, some error) r u = refl
collect_from-after_events text events (later, none) r u =
    rw
      (
        event_text-append events later,
        event_reason-append events later,
        event_usage-append events later,
        r,
        u,
      )
      (rw (append_assoc text (event_text events) (event_text later))
        (rw (or_else-none (event_reason later), or_else-none (event_usage later)) refl))

take-nil : (n : ℕ) → take {A = ℕ} n [] ≡ []
take-nil zero = refl
take-nil (suc n) = refl

take-take-drop : (e i : ℕ) (xs : Bytes) → e ≤ i → take e xs ++ take (i - e) (drop e xs) ≡ take i xs
take-take-drop zero i xs h = ap (λ n. take n xs) (omega arith)
take-take-drop (suc e) i [] h = take-nil (i - suc e) ∙ sym (take-nil i)
take-take-drop (suc e) zero (x ∷ xs) h = absurd (omega arith)
take-take-drop (suc e) (suc i) (x ∷ xs) h =
    let less : suc i - suc e ≡ i - e = omega arith in
    rw less (ap (λ ys. x ∷ ys) (take-take-drop e i xs (omega arith)))

pub take-append : (e : ℕ) (xs ys : Bytes) → e ≤ length xs → take e (xs ++ ys) ≡ take e xs
take-append zero xs ys h = refl
take-append (suc e) [] ys h = absurd (omega arith)
take-append (suc e) (x ∷ xs) ys h = ap (λ zs. x ∷ zs) (take-append e xs ys (omega arith))

pub take_all : (n : ℕ) (xs : Bytes) → length xs ≤ n → take n xs ≡ xs
take_all zero [] h = refl
take_all zero (x ∷ xs) h = absurd (omega arith)
take_all (suc n) [] h = refl
take_all (suc n) (x ∷ xs) h = ap (λ ys. x ∷ ys) (take_all n xs (omega arith))

-- What is emitted continues what was.
pub event_text-emit_to :
    (P : Type 0) (text : Bytes) (e i : ℕ)
    → e ≤ i
    → take e text ++ event_text (emit_to {P = P} text e i) ≡ take i text
unfolding event_text emit_to choices_text
event_text-emit_to P text e i h = elim (Bool-cases (ltb e i)) [
  | inl t ↦
      rw (t, emit_to)
        (rw (append-nil (take (i - e) (drop e text)), append-nil (take (i - e) (drop e text)))
          (take-take-drop e i text h))
  | inr f ↦
      let same : e ≡ i = ground arith in
      rw (f, emit_to) (append-nil (take e text) ∙ ap (λ n. take n text) same)
]

pub event_reason-emit_to :
    (P : Type 0) (text : Bytes) (e i : ℕ) → event_reason (emit_to {P = P} text e i) ≡ none
unfolding event_reason emit_to
event_reason-emit_to P text e i = elim (Bool-cases (ltb e i)) [
  | inl t ↦ rw (t, emit_to) refl
  | inr f ↦ rw (f, emit_to) refl
]

pub event_usage-emit_to :
    (P : Type 0) (text : Bytes) (e i : ℕ) → event_usage (emit_to {P = P} text e i) ≡ none
unfolding event_usage emit_to
event_usage-emit_to P text e i = elim (Bool-cases (ltb e i)) [
  | inl t ↦ rw (t, emit_to) refl
  | inr f ↦ rw (f, emit_to) refl
]
