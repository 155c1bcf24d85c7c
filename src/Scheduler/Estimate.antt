-- ===== src/Scheduler/Estimate.antt =====
-- crates/llm-server/src/engine/scheduler.rs: the estimate of the tokens of a prompt, by which a
-- request is classified.
use kir_ai.Json.{
  Text, is_whitespace, len_utf8, Number, Value, Values, no_values, add_value, Fields, no_fields,
  add_field,
}
use kir_ai.Prelude.{
  ℕ, zero, suc, ◌+◌, ◌/◌, max, Bool, true, false, none, some, [], ◌∷◌, ltb, leb, if◌then◌else◌,
  u64_max, saturating_add, saturating_sub,
}

-- `div_ceil(4)`
unfoldable pub div_ceil4 : ℕ → ℕ
div_ceil4 n = (n + 3) / 4

-- `split_whitespace().count()`, after a character that is in a word or not.
unfoldable pub count_words : Bool → Text → ℕ
unfolding is_whitespace
count_words in_word [] = 0
count_words in_word (c ∷ cs) =
    let outside = count_words false cs in
    let inside = count_words true cs in
    if is_whitespace c then outside else (if in_word then inside else inside + 1)

-- The loop of `estimated_text_tokens`: the ASCII bytes and the other tokens.
unfoldable pub count_characters : Text → ℕ → ℕ → ℕ × ℕ
unfolding len_utf8
count_characters [] ascii_bytes non_ascii_tokens = (ascii_bytes, non_ascii_tokens)
count_characters (c ∷ cs) ascii_bytes non_ascii_tokens =
    let ascii = count_characters cs (saturating_add ascii_bytes 1) non_ascii_tokens in
    let other =
      count_characters cs ascii_bytes
        (saturating_add non_ascii_tokens (max (saturating_sub (len_utf8 c) 1) 1)) in
    if ltb c 128 then ascii else other

unfoldable pub estimated_text_tokens : Text → ℕ
unfolding count_characters count_words div_ceil4
estimated_text_tokens text =
    let (ascii_bytes, non_ascii_tokens) = count_characters text 0 0 in
    max (saturating_add (div_ceil4 ascii_bytes) non_ascii_tokens) (count_words false text)

-- The loop of `decimal_digits` on fuel.
unfoldable pub digits_loop : ℕ → ℕ → ℕ → ℕ
digits_loop zero value digits = digits
digits_loop (suc fuel) value digits =
    let rest = digits_loop fuel (value / 10) (digits + 1) in if leb 10 value then rest else digits

-- A word has at most 20 digits, 19 rounds of the loop.
unfoldable pub decimal_digits : ℕ → ℕ
unfolding digits_loop
decimal_digits value = digits_loop 19 value 1

unfoldable pub estimated_json_string_tokens : Text → ℕ
unfolding estimated_text_tokens
estimated_json_string_tokens text = saturating_add (estimated_text_tokens text) 1

unfoldable pub estimated_json_number_tokens : Number → ℕ
unfolding decimal_digits div_ceil4
estimated_json_number_tokens n = elim n.as_u64 [
  | some value ↦ div_ceil4 (decimal_digits value)
  | none ↦ elim n.as_i64 [
    | some (is_negative, unsigned_abs) ↦
        div_ceil4 (saturating_add (if is_negative then 1 else 0) (decimal_digits unsigned_abs))
    | none ↦ if n.has_f64 then 8 else u64_max / 2
  ]
]

-- The tokens and whether there is a field, after one more.
unfoldable pub add_json_object_field_tokens : ℕ × Bool → Text → ℕ → ℕ × Bool
unfolding estimated_json_string_tokens
add_json_object_field_tokens (tokens, has_field) key value_tokens = (
  saturating_add
      (saturating_add
        (saturating_add (if has_field then saturating_add tokens 1 else tokens)
          (estimated_json_string_tokens key))
        1)
      value_tokens,
  true,
)

-- The tokens of an array and whether it has an item, after one more.
unfoldable pub add_item_tokens : ℕ × Bool → ℕ → ℕ × Bool
add_item_tokens (tokens, has_item) item_tokens =
    (saturating_add (if has_item then saturating_add tokens 1 else tokens) item_tokens, true)

unfoldable mutual
  unfolding estimated_json_number_tokens estimated_json_string_tokens add_item_tokens
      add_json_object_field_tokens

  pub estimated_json_value_tokens : Value → ℕ
  estimated_json_value_tokens Value.null = 1
  estimated_json_value_tokens (Value.bool b) = 1
  estimated_json_value_tokens (Value.number n) = estimated_json_number_tokens n
  estimated_json_value_tokens (Value.string text) = estimated_json_string_tokens text
  estimated_json_value_tokens (Value.array values) = (item_tokens (1, false) values).0
  estimated_json_value_tokens (Value.object fields) = (field_tokens (1, false) fields).0

  pub item_tokens : ℕ × Bool → Values → ℕ × Bool
  item_tokens so_far no_values = so_far
  item_tokens so_far (add_value v values) =
      item_tokens (add_item_tokens so_far (estimated_json_value_tokens v)) values

  pub field_tokens : ℕ × Bool → Fields → ℕ × Bool
  field_tokens so_far no_fields = so_far
  field_tokens so_far (add_field key v fields) =
      field_tokens (add_json_object_field_tokens so_far key (estimated_json_value_tokens v)) fields
