-- ===== src/Runtime/Stop/Find.antt =====
-- crates/llm-runtime/src/stop.rs: where a sequence is found in a text that grows.
use kir_ai.Prelude.{
  ℕ, zero, suc, ◌+◌, ◌≤◌, ◌<◌, ◌≡◌, refl, ◌∙◌, sym, ap, false, ◌&&◌, Option, none, some, [], ◌∷◌,
  ◌++◌, length, drop, ◌==◌, arith,
}
use kir_ai.Runtime.Stop.{Bytes, starts_with, shift, find, floor_char_boundary}

-- A text that starts with a sequence does so whatever follows the length of the sequence.
pub starts_with-append :
    (content chunk pattern : Bytes)
    → length pattern ≤ length content
    → starts_with (content ++ chunk) pattern ≡ starts_with content pattern
unfolding starts_with
starts_with-append content chunk [] h = refl
starts_with-append [] chunk (p ∷ pattern) h = absurd (omega arith)
starts_with-append (c ∷ content) chunk (p ∷ pattern) h =
    ap (λ b. c == p && b) (starts_with-append content chunk pattern (omega arith))

pub drop-append :
    (i : ℕ) (content chunk : Bytes)
    → i ≤ length content
    → drop i (content ++ chunk) ≡ drop i content ++ chunk
drop-append zero content chunk h = refl
drop-append (suc i) [] chunk h = absurd (omega arith)
drop-append (suc i) (c ∷ content) chunk h = drop-append i content chunk (omega arith)

pub length-drop :
    (i : ℕ) (content : Bytes) → i ≤ length content → length (drop i content) + i ≡ length content
length-drop zero content h = omega arith
length-drop (suc i) [] h = absurd (omega arith)
length-drop (suc i) (c ∷ content) h = omega (arith, length-drop i content)

shift_zero : (o : Option ℕ) → shift 0 o ≡ o
shift_zero none = refl
shift_zero (some i) = ap some (omega arith)

shift-suc : (n : ℕ) (o : Option ℕ) → shift 1 (shift n o) ≡ shift (suc n) o
shift-suc n none = refl
shift-suc n (some i) = ap some (omega arith)

-- Where a sequence is not found, it starts nowhere.
pub find-none-starts_with :
    (content pattern : Bytes) (i : ℕ)
    → find content pattern ≡ none
    → starts_with (drop i content) pattern ≡ false
unfolding find starts_with
find-none-starts_with [] pattern zero h = ground arith
find-none-starts_with [] pattern (suc i) h = ground arith
find-none-starts_with (c ∷ content) pattern zero h = ground arith
find-none-starts_with (c ∷ content) pattern (suc i) h =
    ground (arith, find-none-starts_with content pattern i)

-- A search may begin after places where the sequence does not start.
pub find-drop :
    (k : ℕ) (content pattern : Bytes)
    → k ≤ length content
    → ((i : ℕ) → i < k → starts_with (drop i content) pattern ≡ false)
    → find content pattern ≡ shift k (find (drop k content) pattern)
unfolding find
find-drop zero content pattern h none_before = sym (shift_zero (find content pattern))
find-drop (suc k) [] pattern h none_before = absurd (omega arith)
find-drop (suc k) (c ∷ content) pattern h none_before = rw (none_before 0 (omega arith)) (
    ap (shift 1)
      (find-drop k content pattern (omega arith) (λ i lt. none_before (suc i) (omega arith)))
    ∙ shift-suc k (find (drop k content) pattern))

pub floor_char_boundary-le : (content : Bytes) (i : ℕ) → floor_char_boundary content i ≤ i
unfolding floor_char_boundary
floor_char_boundary-le content zero = omega arith
floor_char_boundary-le content (suc i) = ground (arith, floor_char_boundary-le content i)
