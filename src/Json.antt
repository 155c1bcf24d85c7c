-- ===== src/Json.antt =====
-- JSON values as serde_json holds them, and texts. A text is the list of its characters, each its code
-- point. A JSON number is what serde_json answers of it.
use kir_ai.Prelude.{ℕ, ◌+◌, Bool, ◌&&◌, ◌||◌, Option, List, [], ◌∷◌, ltb, leb, ◌==◌, if◌then◌else◌}

abbrev pub Text : Type 0
Text = List ℕ

-- `as_u64`, `as_i64` by its sign and its `unsigned_abs`, whether `as_f64` answers, and `to_string`.
pub record Number : Type 0 where
  pub as_u64 : Option ℕ
  pub as_i64 : Option (Bool × ℕ)
  pub has_f64 : Bool
  pub printed : Text

mutual
  pub data Value : Type 0 where
    null : Value
    bool : Bool → Value
    number : Number → Value
    string : Text → Value
    array : Values → Value
    object : Fields → Value

  pub data Values : Type 0 where
    no_values : Values
    add_value : Value → Values → Values

  pub data Fields : Type 0 where
    no_fields : Fields
    add_field : Text → Value → Fields → Fields

-- `char::is_whitespace`, the White_Space of Unicode
unfoldable pub is_whitespace : ℕ → Bool
is_whitespace c =
    (leb 9 c && leb c 13)
    || (c == 32
        || (c == 133
            || (c == 160
                || (c == 5760
                    || ((leb 8192 c && leb c 8202)
                        || (c == 8232
                            || (c == 8233 || (c == 8239 || (c == 8287 || c == 12288)))))))))

-- `char::len_utf8`
unfoldable pub len_utf8 : ℕ → ℕ
len_utf8 c = if ltb c 128 then 1 else (if ltb c 2048 then 2 else (if ltb c 65536 then 3 else 4))

-- `str::len`, the number of bytes
unfoldable pub str_len : Text → ℕ
unfolding len_utf8
str_len [] = 0
str_len (c ∷ cs) = len_utf8 c + str_len cs
