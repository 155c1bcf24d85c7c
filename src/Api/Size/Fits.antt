-- ===== src/Api/Size/Fits.antt =====
-- crates/llm-api/src/validation/helpers.rs: bytes that are added to a counter, and whether they fit.
use kir_ai.Prelude.{
  ℕ, suc, ◌+◌, ◌≤◌, ◌<◌, ◌≡◌, refl, sym, ◌∙◌, true, false, Option, none, some, List, [], ◌∷◌, ◌++◌,
  length, length-append, ltb, leb, if◌then◌else◌, u64_max, saturating_add, Bool-cases, inl, inr,
  arith,
}
use kir_ai.Json.{Text}
use kir_ai.Api.Size.{
  JsonByteCounter, exceeded, add, and_then, char_bytes, add_characters, add_json_string,
  JsonByteFrame, pushes, count_frame, Counted, limit_exceeded, count_loop,
}
use kir_ai.Api.Size.Print.{print_char, print_characters, print_string, length-print_char}

-- The counter after so many bytes, where they fit.
abbrev pub plus : ℕ → JsonByteCounter → JsonByteCounter
plus b c = record c { written = c.written + b }

unfoldable pub fits : ℕ → JsonByteCounter → Option JsonByteCounter
fits b c = if leb (c.written + b) c.max then some (plus b c) else none

assoc : (a b c : ℕ) → a + (b + c) ≡ a + b + c
assoc a b c = omega arith

pub add-fits : (b : ℕ) (c : JsonByteCounter) → c.max < u64_max → add b c ≡ fits b c
unfolding add exceeded fits
add-fits b c small = elim (Bool-cases (leb (c.written + b) c.max)) [
  | inl t ↦
      let same : saturating_add c.written b ≡ c.written + b = ground (arith, t, small) in
      let under : ltb c.max (c.written + b) ≡ false = ground (arith, t) in rw (t, same, under) refl
  | inr f ↦
      let over : ltb c.max (saturating_add c.written b) ≡ true = ground (arith, f, small) in
      rw (f, over) refl
]

-- What the loop keeps true.
pub record IsCounting (c : JsonByteCounter) : Type 0 where
  pub within : c.written ≤ c.max
  pub small : c.max < u64_max

fits_zero : (c : JsonByteCounter) → IsCounting c → fits 0 c ≡ some c
unfolding fits
fits_zero c h =
    let same : c.written + 0 ≡ c.written = omega arith in
    let t : leb c.written c.max ≡ true = ground (arith, h.within) in rw (same, t) refl

-- What follows a part that fits takes what both need.
pub fits_then :
    (a b : ℕ) (c : JsonByteCounter) (k : JsonByteCounter → Option JsonByteCounter)
    → IsCounting c
    → ((c' : JsonByteCounter) → IsCounting c' → k c' ≡ fits b c')
    → and_then (fits a c) k ≡ fits (a + b) c
unfolding fits
fits_then a b c k h next = elim (Bool-cases (leb (c.written + a) c.max)) [
  | inl t ↦ rw t (
      next (plus a c) (record { within = ground (arith, t); small = h.small })
      ∙ rw (assoc c.written a b) refl)
  | inr f ↦
      let over : leb (c.written + (a + b)) c.max ≡ false = ground (arith, f) in rw (f, over) refl
]

-- The same where the loop follows.
abbrev pub resume : Option JsonByteCounter → (JsonByteCounter → Counted) → Counted
resume none k = limit_exceeded
resume (some c) k = k c

pub resume_then :
    (a b : ℕ) (c : JsonByteCounter) (k l : JsonByteCounter → Counted)
    → IsCounting c
    → ((c' : JsonByteCounter) → IsCounting c' → k c' ≡ resume (fits b c') l)
    → resume (fits a c) k ≡ resume (fits (a + b) c) l
unfolding fits
resume_then a b c k l h next = elim (Bool-cases (leb (c.written + a) c.max)) [
  | inl t ↦ rw t (
      next (plus a c) (record { within = ground (arith, t); small = h.small })
      ∙ rw (assoc c.written a b) refl)
  | inr f ↦
      let over : leb (c.written + (a + b)) c.max ≡ false = ground (arith, f) in rw (f, over) refl
]

add_characters-fits :
    (text : Text) (c : JsonByteCounter)
    → IsCounting c
    → add_characters text c ≡ fits (length (print_characters text)) c
unfolding add_characters print_characters
add_characters-fits [] c h = sym (fits_zero c h)
add_characters-fits (ch ∷ chars) c h =
    let whole : length (print_char ch ++ print_characters chars)
        ≡ char_bytes ch + length (print_characters chars) =
      omega (arith, length-append (print_char ch) (print_characters chars), length-print_char ch) in
    rw (add-fits (char_bytes ch) c h.small, whole)
      (fits_then (char_bytes ch) (length (print_characters chars)) c (add_characters chars) h
        (add_characters-fits chars))

pub add_json_string-fits :
    (text : Text) (c : JsonByteCounter)
    → IsCounting c
    → add_json_string text c ≡ fits (length (print_string text)) c
unfolding add_json_string print_string
add_json_string-fits text c h =
    let whole : suc (length (print_characters text ++ 34 ∷ []))
        ≡ 2 + length (print_characters text) =
      omega (arith, length-append (print_characters text) (34 ∷ [])) in
    rw (add-fits 2 c h.small, whole)
      (fits_then 2 (length (print_characters text)) c (add_characters text) h
        (add_characters-fits text))

-- A round.
pub count_loop-pushes :
    (n : ℕ) (frame : JsonByteFrame) (stack pushed : List JsonByteFrame) (c : JsonByteCounter)
    (o : Option JsonByteCounter)
    → count_frame frame c ≡ pushes pushed o
    → count_loop (suc n) (frame ∷ stack) c ≡ resume o (count_loop n (pushed ++ stack))
unfolding count_loop
count_loop-pushes n frame stack pushed c none e = rw (e, count_loop) refl
count_loop-pushes n frame stack pushed c (some c') e = rw (e, count_loop) refl
