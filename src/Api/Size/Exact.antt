-- ===== src/Api/Size/Exact.antt =====
-- crates/llm-api/src/validation/helpers.rs: the count of a JSON value against its compact form.
use kir_ai.Prelude.{
  ℕ, suc, ◌+◌, ◌<◌, ◌≡◌, refl, ◌∙◌, true, false, some, List, [], ◌∷◌, ◌++◌, length, length-append,
  leb, if◌then◌else◌, u64_max, Bool-cases, inl, inr, arith,
}
use kir_ai.Json.{Value, Values, no_values, add_value, Fields, no_fields, add_field}
use kir_ai.Api.Size.{
  JsonByteCounter, new_counter, JsonByteFrame, value_frame, array_frame, object_frame, pushes,
  count_frame, Counted, counted, limit_exceeded, count_loop, rounds, values_rounds, fields_rounds,
  count_value,
}
use kir_ai.Api.Size.Print.{print_text, print_string, print, print_values, print_fields}
use kir_ai.Api.Size.Fits.{fits, IsCounting, resume, resume_then, count_loop-pushes}
use kir_ai.Api.Size.Frames.{
  null_frame, bool_frame, number_frame, string_frame, empty_array_frame, empty_object_frame,
  open_array_frame, open_object_frame, close_array_frame, close_object_frame, first_item_frame,
  next_item_frame, first_field_frame, next_field_frame,
}

-- A frame whose part is added at once.
one_round :
    (b n : ℕ) (frame : JsonByteFrame) (stack : List JsonByteFrame) (c : JsonByteCounter)
    → count_frame frame c ≡ pushes [] (fits b c)
    → count_loop (1 + n) (frame ∷ stack) c ≡ resume (fits b c) (count_loop n stack)
one_round b n frame stack c e =
    let round : 1 + n ≡ suc n = omega arith in
    rw round (count_loop-pushes n frame stack [] c (fits b c) e)

-- One part of the loop after another.
parts :
    (a b : ℕ) (k l m : JsonByteCounter → Counted)
    → ((c : JsonByteCounter) → IsCounting c → k c ≡ resume (fits a c) l)
    → ((c : JsonByteCounter) → IsCounting c → l c ≡ resume (fits b c) m)
    → (c : JsonByteCounter) → IsCounting c
    → k c ≡ resume (fits (a + b) c) m
parts a b k l m first second c h = first c h ∙ resume_then a b c l m h second

mutual
  unfolding rounds print

  value_loop :
      (v : Value) (n : ℕ) (stack : List JsonByteFrame) (c : JsonByteCounter)
      → IsCounting c
      → count_loop (rounds v + n) (value_frame v ∷ stack) c
        ≡ resume (fits (length (print v)) c) (count_loop n stack)
  value_loop Value.null n stack c h =
      one_round 4 n (value_frame Value.null) stack c (null_frame c h)
  value_loop (Value.bool true) n stack c h =
      one_round 4 n (value_frame (Value.bool true)) stack c (bool_frame c h true)
  value_loop (Value.bool false) n stack c h =
      one_round 5 n (value_frame (Value.bool false)) stack c (bool_frame c h false)
  value_loop (Value.number m) n stack c h =
      one_round (length (print_text m.printed)) n (value_frame (Value.number m)) stack c
        (number_frame c h m)
  value_loop (Value.string text) n stack c h =
      one_round (length (print_string text)) n (value_frame (Value.string text)) stack c
        (string_frame c h text)
  value_loop (Value.array no_values) n stack c h =
      one_round 2 n (value_frame (Value.array no_values)) stack c (empty_array_frame c h)
  value_loop (Value.array (add_value v vs)) n stack c h =
      let fuel : suc (suc (rounds v + values_rounds vs)) + n
          ≡ suc (suc (rounds v + (values_rounds vs + n))) =
        omega arith in
      let whole : suc (length (print v ++ print_values vs))
          ≡ 1 + (length (print v) + length (print_values vs)) =
        omega (arith, length-append (print v) (print_values vs)) in
      rw (fuel, whole)
        (parts 1 (length (print v) + length (print_values vs)) _ _ (count_loop n stack)
          (λ c' h'.
            count_loop-pushes (suc (rounds v + (values_rounds vs + n)))
              (value_frame (Value.array (add_value v vs))) stack _ c' (fits 1 c')
              (open_array_frame c' h' v vs))
          (λ c' h'.
            count_loop-pushes (rounds v + (values_rounds vs + n))
              (array_frame (add_value v vs) true) stack _ c' (some c') (first_item_frame c' h' v vs)
            ∙ parts (length (print v)) (length (print_values vs)) _ _ (count_loop n stack)
                (value_loop v (values_rounds vs + n) (array_frame vs false ∷ stack))
                (values_loop vs n stack) c' h')
          c h)
  value_loop (Value.object no_fields) n stack c h =
      one_round 2 n (value_frame (Value.object no_fields)) stack c (empty_object_frame c h)
  value_loop (Value.object (add_field key v fs)) n stack c h =
      let fuel : suc (suc (rounds v + fields_rounds fs)) + n
          ≡ suc (suc (rounds v + (fields_rounds fs + n))) =
        omega arith in
      let whole : suc (length (print_string key ++ 58 ∷ (print v ++ print_fields fs)))
          ≡ 1 + (length (print_string key) + 1 + (length (print v) + length (print_fields fs))) =
        omega (
          arith,
          length-append (print_string key) (58 ∷ (print v ++ print_fields fs)),
          length-append (print v) (print_fields fs),
        ) in
      rw (fuel, whole)
        (parts 1 (length (print_string key) + 1 + (length (print v) + length (print_fields fs))) _ _
          (count_loop n stack)
          (λ c' h'.
            count_loop-pushes (suc (rounds v + (fields_rounds fs + n)))
              (value_frame (Value.object (add_field key v fs))) stack _ c' (fits 1 c')
              (open_object_frame c' h' key v fs))
          (parts (length (print_string key) + 1) (length (print v) + length (print_fields fs)) _ _
            (count_loop n stack)
            (λ c' h'.
              count_loop-pushes (rounds v + (fields_rounds fs + n))
                (object_frame (add_field key v fs) true) stack _ c'
                (fits (length (print_string key) + 1) c') (first_field_frame c' h' key v fs))
            (parts (length (print v)) (length (print_fields fs)) _ _ (count_loop n stack)
              (value_loop v (fields_rounds fs + n) (object_frame fs false ∷ stack))
              (fields_loop fs n stack)))
          c h)

  values_loop :
      (vs : Values) (n : ℕ) (stack : List JsonByteFrame) (c : JsonByteCounter)
      → IsCounting c
      → count_loop (values_rounds vs + n) (array_frame vs false ∷ stack) c
        ≡ resume (fits (length (print_values vs)) c) (count_loop n stack)
  values_loop no_values n stack c h =
      one_round 1 n (array_frame no_values false) stack c (close_array_frame c h)
  values_loop (add_value v vs) n stack c h =
      let fuel : suc (rounds v + values_rounds vs) + n ≡ suc (rounds v + (values_rounds vs + n)) =
        omega arith in
      let whole : suc (length (print v ++ print_values vs))
          ≡ 1 + (length (print v) + length (print_values vs)) =
        omega (arith, length-append (print v) (print_values vs)) in
      rw (fuel, whole)
        (parts 1 (length (print v) + length (print_values vs))
          (count_loop (suc (rounds v + (values_rounds vs + n)))
            (array_frame (add_value v vs) false ∷ stack))
          (count_loop (rounds v + (values_rounds vs + n))
            (value_frame v ∷ array_frame vs false ∷ stack))
          (count_loop n stack)
          (λ c' h'.
            count_loop-pushes (rounds v + (values_rounds vs + n))
              (array_frame (add_value v vs) false) stack _ c' (fits 1 c')
              (next_item_frame c' h' v vs))
          (parts (length (print v)) (length (print_values vs)) _ _ (count_loop n stack)
            (value_loop v (values_rounds vs + n) (array_frame vs false ∷ stack))
            (values_loop vs n stack))
          c h)

  fields_loop :
      (fs : Fields) (n : ℕ) (stack : List JsonByteFrame) (c : JsonByteCounter)
      → IsCounting c
      → count_loop (fields_rounds fs + n) (object_frame fs false ∷ stack) c
        ≡ resume (fits (length (print_fields fs)) c) (count_loop n stack)
  fields_loop no_fields n stack c h =
      one_round 1 n (object_frame no_fields false) stack c (close_object_frame c h)
  fields_loop (add_field key v fs) n stack c h =
      let fuel : suc (rounds v + fields_rounds fs) + n ≡ suc (rounds v + (fields_rounds fs + n)) =
        omega arith in
      let whole : suc (length (print_string key ++ 58 ∷ (print v ++ print_fields fs)))
          ≡ 1 + length (print_string key) + 1 + (length (print v) + length (print_fields fs)) =
        omega (
          arith,
          length-append (print_string key) (58 ∷ (print v ++ print_fields fs)),
          length-append (print v) (print_fields fs),
        ) in
      rw (fuel, whole)
        (parts (1 + length (print_string key) + 1) (length (print v) + length (print_fields fs)) _ _
          (count_loop n stack)
          (λ c' h'.
            count_loop-pushes (rounds v + (fields_rounds fs + n))
              (object_frame (add_field key v fs) false) stack _ c'
              (fits (1 + length (print_string key) + 1) c') (next_field_frame c' h' key v fs))
          (parts (length (print v)) (length (print_fields fs)) _ _ (count_loop n stack)
            (value_loop v (fields_rounds fs + n) (object_frame fs false ∷ stack))
            (fields_loop fs n stack))
          c h)

resume-counted :
    (b max : ℕ)
    → resume (fits b (new_counter max)) (count_loop 0 [])
      ≡ (if leb b max then counted (record { written = b; max = max }) else limit_exceeded)
unfolding fits count_loop
resume-counted b max =
    let same : 0 + b ≡ b = omega arith in
    rw same (elim (Bool-cases (leb b max)) [ inl t ↦ rw t refl | inr f ↦ rw f refl ])

-- With a maximum below 2 ^ 64 - 1, the counter accepts a JSON value exactly when its compact form has
-- at most so many bytes, and has then counted them all; else it reports that the limit is exceeded.
-- The rounds given to its loop are enough.
pub count_value-print :
    (max : ℕ) (value : Value)
    → max < u64_max
    → count_value max value ≡ (
        if leb (length (print value)) max
        then counted (record { written = length (print value); max = max })
        else limit_exceeded)
unfolding count_value
count_value-print max value small =
    let enough : rounds value ≡ rounds value + 0 = omega arith in
    rw enough (
      value_loop value 0 [] (new_counter max) (record { within = omega arith; small = small })
      ∙ resume-counted (length (print value)) max)
