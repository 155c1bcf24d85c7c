-- ===== src/Api/Size.antt =====
-- crates/llm-api/src/validation/helpers.rs: `JsonByteCounter`, which counts the bytes of a JSON value
-- up to a maximum, with a stack of its own.
pub mod Print
pub mod Fits
pub mod Frames
pub mod Exact
use kir_ai.Prelude.{
  ℕ, zero, suc, ◌+◌, Bool, true, false, ◌||◌, Option, none, some, List, [], ◌∷◌, ◌++◌, ltb, leb,
  ◌==◌, if◌then◌else◌, saturating_add,
}
use kir_ai.Json.{
  Text, len_utf8, str_len, Number, Value, Values, no_values, add_value, Fields, no_fields,
  add_field,
}

pub record JsonByteCounter : Type 0 where
  pub written : ℕ
  pub max : ℕ

abbrev pub new_counter : ℕ → JsonByteCounter
new_counter max = record { written = 0; max = max }

unfoldable pub exceeded : JsonByteCounter → Bool
exceeded c = ltb c.max c.written

-- `none` is `JsonByteLimitExceeded`.
unfoldable pub add : ℕ → JsonByteCounter → Option JsonByteCounter
unfolding exceeded
add bytes c =
    let c' = record c { written = saturating_add c.written bytes } in
    if exceeded c' then none else some c'

-- The `?` of Rust.
abbrev pub and_then {ℓ} : {A B : Type ℓ} → Option A → (A → Option B) → Option B
and_then none k = none
and_then (some a) k = k a

-- The bytes of a character in a JSON string.
unfoldable pub char_bytes : ℕ → ℕ
unfolding len_utf8
char_bytes c =
    if (c == 34 || (c == 92 || (c == 8 || (c == 9 || (c == 10 || (c == 12 || c == 13))))))
    then 2
    else (if ltb c 32 then 6 else len_utf8 c)

unfoldable pub add_characters : Text → JsonByteCounter → Option JsonByteCounter
add_characters [] c = some c
add_characters (ch ∷ chars) c = and_then (add (char_bytes ch) c) (add_characters chars)

unfoldable pub add_json_string : Text → JsonByteCounter → Option JsonByteCounter
add_json_string value c = and_then (add 2 c) (add_characters value)

-- A frame with an iterator holds what is left of it, and whether nothing came before.
pub data JsonByteFrame : Type 0 where
  value_frame : Value → JsonByteFrame
  array_frame : Values → Bool → JsonByteFrame
  object_frame : Fields → Bool → JsonByteFrame

-- The frames that are pushed, the last one first, and the counter.
abbrev pub pushes :
    List JsonByteFrame → Option JsonByteCounter → Option (List JsonByteFrame × JsonByteCounter)
pushes frames none = none
pushes frames (some c) = some (frames, c)

-- `if !first { self.add(1)? }`
unfoldable pub add_comma : Bool → JsonByteCounter → Option JsonByteCounter
add_comma first c = if first then some c else add 1 c

-- The body of the loop of `count_value`.
unfoldable pub count_frame :
    JsonByteFrame → JsonByteCounter → Option (List JsonByteFrame × JsonByteCounter)
count_frame (value_frame Value.null) c = pushes [] (add 4 c)
count_frame (value_frame (Value.bool true)) c = pushes [] (add 4 c)
count_frame (value_frame (Value.bool false)) c = pushes [] (add 5 c)
count_frame (value_frame (Value.number n)) c = pushes [] (add (str_len n.printed) c)
count_frame (value_frame (Value.string text)) c = pushes [] (add_json_string text c)
count_frame (value_frame (Value.array no_values)) c = pushes [] (and_then (add 1 c) (add 1))
count_frame (value_frame (Value.array (add_value v values))) c =
    pushes (array_frame (add_value v values) true ∷ []) (add 1 c)
count_frame (value_frame (Value.object no_fields)) c = pushes [] (and_then (add 1 c) (add 1))
count_frame (value_frame (Value.object (add_field key v fields))) c =
    pushes (object_frame (add_field key v fields) true ∷ []) (add 1 c)
count_frame (array_frame no_values first) c = pushes [] (add 1 c)
count_frame (array_frame (add_value v values) first) c =
    pushes (value_frame v ∷ array_frame values false ∷ []) (add_comma first c)
count_frame (object_frame no_fields first) c = pushes [] (add 1 c)
count_frame (object_frame (add_field key v fields) first) c =
    pushes (value_frame v ∷ object_frame fields false ∷ [])
      (and_then (and_then (add_comma first c) (add_json_string key)) (add 1))

pub data Counted : Type 0 where
  counted : JsonByteCounter → Counted
  limit_exceeded : Counted
  out_of_fuel : Counted

-- The loop of `count_value` on fuel.
unfoldable pub count_loop : ℕ → List JsonByteFrame → JsonByteCounter → Counted
count_loop n [] c = counted c
count_loop zero (frame ∷ stack) c = out_of_fuel
count_loop (suc n) (frame ∷ stack) c = elim (count_frame frame c) [
  | none ↦ limit_exceeded
  | some (pushed, c') ↦ count_loop n (pushed ++ stack) c'
]

-- The rounds that the loop takes.
unfoldable mutual
  pub rounds : Value → ℕ
  rounds Value.null = 1
  rounds (Value.bool b) = 1
  rounds (Value.number n) = 1
  rounds (Value.string text) = 1
  rounds (Value.array no_values) = 1
  rounds (Value.array (add_value v values)) = suc (values_rounds (add_value v values))
  rounds (Value.object no_fields) = 1
  rounds (Value.object (add_field key v fields)) = suc (fields_rounds (add_field key v fields))

  pub values_rounds : Values → ℕ
  values_rounds no_values = 1
  values_rounds (add_value v values) = suc (rounds v + values_rounds values)

  pub fields_rounds : Fields → ℕ
  fields_rounds no_fields = 1
  fields_rounds (add_field key v fields) = suc (rounds v + fields_rounds fields)

-- `JsonByteCounter::new` and `count_value`
unfoldable pub count_value : ℕ → Value → Counted
count_value max value = count_loop (rounds value) (value_frame value ∷ []) (new_counter max)
