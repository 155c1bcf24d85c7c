-- ===== src/Api/Size/Print.antt =====
-- The compact form of a JSON value, as bytes.
use kir_ai.Prelude.{
  ℕ, ◌+◌, ◌/◌, ◌%◌, ◌≡◌, refl, true, false, List, [], ◌∷◌, ◌++◌, length, length-append, ltb, ◌==◌,
  if◌then◌else◌, arith,
}
use kir_ai.Json.{
  Text, len_utf8, str_len, Value, Values, no_values, add_value, Fields, no_fields, add_field,
}
use kir_ai.Api.Size.{char_bytes}

-- UTF-8
unfoldable pub utf8 : ℕ → List ℕ
utf8 c =
    if ltb c 128
    then c ∷ []
    else (if ltb c 2048
        then (192 + c / 64) ∷ (128 + c % 64) ∷ []
        else (if ltb c 65536
            then (224 + c / 4096) ∷ (128 + (c / 64) % 64) ∷ (128 + c % 64) ∷ []
            else (240 + c / 262144)
              ∷ (128 + (c / 4096) % 64)
              ∷ (128 + (c / 64) % 64)
              ∷ (128 + c % 64)
              ∷ []))

unfoldable pub print_text : Text → List ℕ
unfolding utf8
print_text [] = []
print_text (c ∷ cs) = utf8 c ++ print_text cs

unfoldable pub hex_digit : ℕ → ℕ
hex_digit n = if ltb n 10 then 48 + n else 87 + n

-- A character in a string: a backslash before a letter, `\u00` and two digits, or itself.
unfoldable pub print_char : ℕ → List ℕ
unfolding utf8 hex_digit
print_char c =
    if c == 34
    then 92 ∷ 34 ∷ []
    else (if c == 92
        then 92 ∷ 92 ∷ []
        else (if c == 8
            then 92 ∷ 98 ∷ []
            else (if c == 9
                then 92 ∷ 116 ∷ []
                else (if c == 10
                    then 92 ∷ 110 ∷ []
                    else (if c == 12
                        then 92 ∷ 102 ∷ []
                        else (if c == 13
                            then 92 ∷ 114 ∷ []
                            else (if ltb c 32
                                then 92
                                  ∷ 117
                                  ∷ 48
                                  ∷ 48
                                  ∷ hex_digit (c / 16)
                                  ∷ hex_digit (c % 16)
                                  ∷ []
                                else utf8 c)))))))

unfoldable pub print_characters : Text → List ℕ
unfolding print_char
print_characters [] = []
print_characters (c ∷ cs) = print_char c ++ print_characters cs

unfoldable pub print_string : Text → List ℕ
unfolding print_characters
print_string text = 34 ∷ (print_characters text ++ 34 ∷ [])

unfoldable mutual
  unfolding print_text print_string

  pub print : Value → List ℕ
  print Value.null = 110 ∷ 117 ∷ 108 ∷ 108 ∷ []
  print (Value.bool true) = 116 ∷ 114 ∷ 117 ∷ 101 ∷ []
  print (Value.bool false) = 102 ∷ 97 ∷ 108 ∷ 115 ∷ 101 ∷ []
  print (Value.number n) = print_text n.printed
  print (Value.string text) = print_string text
  print (Value.array no_values) = 91 ∷ 93 ∷ []
  print (Value.array (add_value v values)) = 91 ∷ (print v ++ print_values values)
  print (Value.object no_fields) = 123 ∷ 125 ∷ []
  print (Value.object (add_field key v fields)) =
      123 ∷ (print_string key ++ (58 ∷ (print v ++ print_fields fields)))

  -- What follows an item.
  pub print_values : Values → List ℕ
  print_values no_values = 93 ∷ []
  print_values (add_value v values) = 44 ∷ (print v ++ print_values values)

  pub print_fields : Fields → List ℕ
  print_fields no_fields = 125 ∷ []
  print_fields (add_field key v fields) =
      44 ∷ (print_string key ++ (58 ∷ (print v ++ print_fields fields)))

pub length-utf8 : (c : ℕ) → length (utf8 c) ≡ len_utf8 c
unfolding utf8 len_utf8
length-utf8 c = ground arith

pub length-print_text : (t : Text) → length (print_text t) ≡ str_len t
unfolding print_text str_len
length-print_text [] = refl
length-print_text (c ∷ cs) =
    omega (arith, length-append (utf8 c) (print_text cs), length-utf8 c, length-print_text cs)

pub length-print_char : (c : ℕ) → length (print_char c) ≡ char_bytes c
unfolding print_char char_bytes
length-print_char c = ground (arith, length-utf8 c)
