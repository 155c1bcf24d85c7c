-- ===== src/Scheduler/Volume.antt =====
-- crates/llm-server/src/engine/scheduler.rs: the estimate of a text and of a JSON value against its
-- characters.
pub mod Chat
use kir_ai.Prelude.{
  ℕ, suc, ◌+◌, ◌/◌, ◌*◌, ◌^◌, ◌≤◌, ◌≡◌, ◌⊎◌, refl, sym, subst, max, Bool, true, false, Option, none,
  some, List, [], ◌∷◌, length, ltb, if◌then◌else◌, u64_max, saturating_add, saturating_sub, inl,
  inr, Bool-cases, arith,
}
use kir_ai.Json.{Text, len_utf8, Value, Values, no_values, add_value, Fields, no_fields, add_field}
use kir_ai.Api.Types.{FunctionDefinition, ToolDefinition, ChatMessage, ChatCompletionRequest}
use kir_ai.Scheduler.State.{SchedulerClass, ModelSchedulerOptions}
use kir_ai.Scheduler.Admission.{classify_estimated_tokens}
use kir_ai.Scheduler.Estimate.{
  div_ceil4, count_words, count_characters, estimated_text_tokens, estimated_json_string_tokens,
  estimated_json_number_tokens, add_json_object_field_tokens, add_item_tokens,
  estimated_json_value_tokens, item_tokens, field_tokens,
}
use kir_ai.Scheduler.Prompt.{
  name_key, type_key, function_key, description_key, parameters_key,
  estimated_tool_call_type_tokens, estimated_function_definition_tokens, add_description,
  estimated_tool_definition_tokens, contents, add_messages, add_tools, estimated_chat_tokens,
  classify_chat,
}

-- The estimate has a token for each four characters, up to 2 ^ 62 tokens.
abbrev pub IsEnough : ℕ → ℕ → Type 0
IsEnough tokens characters = (characters ≤ 4 * tokens) ⊎ (4611686018427387904 ≤ tokens)

covers_more : (t t' n : ℕ) → t ≤ t' → IsEnough t n → IsEnough t' n
covers_more t t' n le (inl h) = inl (omega (arith, le, h))
covers_more t t' n le (inr h) = inr (omega (arith, le, h))

pub covers_add : (a b m n : ℕ) → IsEnough a m → IsEnough b n → IsEnough (saturating_add a b) (m + n)
covers_add a b m n (inl h) (inl g) = elim (Bool-cases (ltb (a + b) u64_max)) [
  | inl t ↦ inl (ground (arith, t, h, g))
  | inr t ↦ inr (ground (arith, t))
]
covers_add a b m n (inl h) (inr g) = inr (omega (arith, g))
covers_add a b m n (inr h) g = inr (omega (arith, h))

pub covers_word : (a : ℕ) → IsEnough a 0
covers_word a = inl (omega arith)

-- So many characters are counted, each ASCII one as a byte and each other one as a token at least, or a
-- sum is at its end.
abbrev IsCounted : ℕ → ℕ × ℕ → Type 0
IsCounted characters (ascii, other) =
    (characters ≤ ascii + 4 * other) ⊎ ((u64_max ≤ ascii) ⊎ (u64_max ≤ other))

counts_ascii : (k a n : ℕ) → IsCounted k (a, n) → IsCounted (suc k) (saturating_add a 1, n)
counts_ascii k a n (inl h) = elim (Bool-cases (ltb (a + 1) u64_max)) [
  | inl t ↦ inl (ground (arith, t, h))
  | inr t ↦ inr (inl (ground (arith, t)))
]
counts_ascii k a n (inr (inl h)) = inr (inl (omega (arith, h)))
counts_ascii k a n (inr (inr h)) = inr (inr h)

counts_other :
    (k a n w : ℕ) → 1 ≤ w → IsCounted k (a, n) → IsCounted (suc k) (a, saturating_add n w)
counts_other k a n w le (inl h) = elim (Bool-cases (ltb (n + w) u64_max)) [
  | inl t ↦ inl (ground (arith, t, h, le))
  | inr t ↦ inr (inr (ground (arith, t)))
]
counts_other k a n w le (inr (inl h)) = inr (inl h)
counts_other k a n w le (inr (inr h)) = inr (inr (omega (arith, h)))

counts_text :
    (cs : Text) (k a n : ℕ)
    → IsCounted k (a, n)
    → IsCounted (length cs + k) (count_characters cs a n)
unfolding count_characters
counts_text [] k a n h =
    let same : 0 + k ≡ k = omega arith in subst (λ m. IsCounted m (a, n)) (sym same) h
counts_text (c ∷ cs) k a n h =
    let w = max (saturating_sub (len_utf8 c) 1) 1 in
    let moved : length cs + suc k ≡ suc (length cs) + k = omega arith in
    let Chosen : Bool → Type 0 = λ b. IsCounted (suc (length cs) + k) (
      if b
      then count_characters cs (saturating_add a 1) n
      else count_characters cs a (saturating_add n w)) in
    elim (Bool-cases (ltb c 128)) [
      | inl t ↦ subst Chosen (sym t) (
          subst (λ m. IsCounted m (count_characters cs (saturating_add a 1) n)) moved
            (counts_text cs (suc k) (saturating_add a 1) n (counts_ascii k a n h)))
      | inr t ↦ subst Chosen (sym t) (
          subst (λ m. IsCounted m (count_characters cs a (saturating_add n w))) moved
            (counts_text cs (suc k) a (saturating_add n w) (counts_other k a n w (omega arith) h)))
    ]

counts-IsEnough :
    (k a n words : ℕ) → IsCounted k (a, n) → IsEnough (max (saturating_add (div_ceil4 a) n) words) k
unfolding div_ceil4
counts-IsEnough k a n words (inl h) = elim (Bool-cases (ltb ((a + 3) / 4 + n) u64_max)) [
  | inl t ↦ inl (ground (arith, t, h))
  | inr t ↦ inr (ground (arith, t))
]
counts-IsEnough k a n words (inr (inl h)) = inr (omega (arith, h))
counts-IsEnough k a n words (inr (inr h)) = inr (omega (arith, h))

pub covers_text : (text : Text) → IsEnough (estimated_text_tokens text) (length text)
unfolding estimated_text_tokens
covers_text text =
    let all : length text + 0 ≡ length text = omega arith in
    counts-IsEnough (length text) (count_characters text 0 0).0 (count_characters text 0 0).1
      (count_words false text)
      (subst (λ k. IsCounted k (count_characters text 0 0)) all
        (counts_text text 0 0 0 (inl (omega arith))))

pub covers_zero : (a b m : ℕ) → IsEnough a m → IsEnough (saturating_add a b) m
covers_zero a b m h =
    let same : m + 0 ≡ m = omega arith in
    subst (IsEnough (saturating_add a b)) same (covers_add a b m 0 h (covers_word b))

covers_comma :
    (has : Bool) (a m : ℕ) → IsEnough a m → IsEnough (if has then saturating_add a 1 else a) m
covers_comma true a m h = covers_zero a 1 m h
covers_comma false a m h = h

pub covers_string : (text : Text) → IsEnough (estimated_json_string_tokens text) (length text)
unfolding estimated_json_string_tokens
covers_string text = covers_zero (estimated_text_tokens text) 1 (length text) (covers_text text)

covers_item :
    (a : ℕ) (has : Bool) (b m n : ℕ)
    → IsEnough a m
    → IsEnough b n
    → IsEnough (add_item_tokens (a, has) b).0 (m + n)
unfolding add_item_tokens
covers_item a has b m n h g = covers_add _ b m n (covers_comma has a m h) g

pub covers_field :
    (a : ℕ) (has : Bool) (key : Text) (b m n : ℕ)
    → IsEnough a m
    → IsEnough b n
    → IsEnough (add_json_object_field_tokens (a, has) key b).0 (m + (length key + n))
unfolding add_json_object_field_tokens
covers_field a has key b m n h g =
    let keyed = covers_zero _ 1 (m + length key) (
      covers_add _ (estimated_json_string_tokens key) m (length key) (covers_comma has a m h)
        (covers_string key)) in
    let same : (m + length key) + n ≡ m + (length key + n) = omega arith in
    subst (IsEnough (add_json_object_field_tokens (a, has) key b).0) same
      (covers_add _ b (m + length key) n keyed g)

-- The characters of the texts and keys of a JSON value.
unfoldable mutual
  pub characters : Value → ℕ
  characters Value.null = 0
  characters (Value.bool b) = 0
  characters (Value.number n) = 0
  characters (Value.string text) = length text
  characters (Value.array values) = values_characters values
  characters (Value.object fields) = fields_characters fields

  pub values_characters : Values → ℕ
  values_characters no_values = 0
  values_characters (add_value v values) = characters v + values_characters values

  pub fields_characters : Fields → ℕ
  fields_characters no_fields = 0
  fields_characters (add_field key v fields) = length key + characters v + fields_characters fields

mutual
  unfolding estimated_json_value_tokens item_tokens field_tokens characters values_characters
      fields_characters add_item_tokens add_json_object_field_tokens

  pub covers_value : (v : Value) → IsEnough (estimated_json_value_tokens v) (characters v)
  covers_value Value.null = inl (omega arith)
  covers_value (Value.bool b) = inl (omega arith)
  covers_value (Value.number n) = covers_word (estimated_json_number_tokens n)
  covers_value (Value.string text) = covers_string text
  covers_value (Value.array values) =
      subst (IsEnough (item_tokens (1, false) values).0) (omega arith)
        (covers_items values 1 false 0 (covers_word 1))
  covers_value (Value.object fields) =
      subst (IsEnough (field_tokens (1, false) fields).0) (omega arith)
        (covers_fields fields 1 false 0 (covers_word 1))

  covers_items :
      (values : Values) (a : ℕ) (has : Bool) (m : ℕ)
      → IsEnough a m
      → IsEnough (item_tokens (a, has) values).0 (m + values_characters values)
  covers_items no_values a has m h = subst (IsEnough a) (omega arith) h
  covers_items (add_value v values) a has m h =
      subst (IsEnough (item_tokens (a, has) (add_value v values)).0) (omega arith) (
        covers_items values (add_item_tokens (a, has) (estimated_json_value_tokens v)).0 true
          (m + characters v)
          (covers_item a has (estimated_json_value_tokens v) m (characters v) h (covers_value v)))

  covers_fields :
      (fields : Fields) (a : ℕ) (has : Bool) (m : ℕ)
      → IsEnough a m
      → IsEnough (field_tokens (a, has) fields).0 (m + fields_characters fields)
  covers_fields no_fields a has m h = subst (IsEnough a) (omega arith) h
  covers_fields (add_field key v fields) a has m h =
      subst (IsEnough (field_tokens (a, has) (add_field key v fields)).0) (omega arith) (
        covers_fields fields
          (add_json_object_field_tokens (a, has) key (estimated_json_value_tokens v)).0 true
          (m + (length key + characters v))
          (covers_field a has key (estimated_json_value_tokens v) m (characters v) h
            (covers_value v)))
