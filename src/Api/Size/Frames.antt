-- ===== src/Api/Size/Frames.antt =====
-- crates/llm-api/src/validation/helpers.rs: what each frame of the stack adds.
use kir_ai.Prelude.{◌+◌, ◌≡◌, refl, ap, Bool, true, false, some, [], ◌∷◌, length}
use kir_ai.Json.{
  Text, str_len, Number, Value, Values, no_values, add_value, Fields, no_fields, add_field,
}
use kir_ai.Api.Size.{
  JsonByteCounter, add, and_then, add_json_string, value_frame, array_frame, object_frame, pushes,
  add_comma, count_frame,
}
use kir_ai.Api.Size.Print.{print_text, print_string, print, length-print_text}
use kir_ai.Api.Size.Fits.{fits, add-fits, IsCounting, fits_then, add_json_string-fits}

-- The frames of a value that add their part at once.
module _ (c : JsonByteCounter) (h : IsCounting c) where
  pub null_frame : count_frame (value_frame Value.null) c ≡ pushes [] (fits 4 c)
  unfolding count_frame
  null_frame = ap (pushes []) (add-fits 4 c h.small)

  pub bool_frame :
      (b : Bool)
      → count_frame (value_frame (Value.bool b)) c
        ≡ pushes [] (fits (length (print (Value.bool b))) c)
  unfolding count_frame print
  bool_frame true = ap (pushes []) (add-fits 4 c h.small)
  bool_frame false = ap (pushes []) (add-fits 5 c h.small)

  pub number_frame :
      (n : Number)
      → count_frame (value_frame (Value.number n)) c
        ≡ pushes [] (fits (length (print_text n.printed)) c)
  unfolding count_frame
  number_frame n =
      rw (length-print_text n.printed) (ap (pushes []) (add-fits (str_len n.printed) c h.small))

  pub string_frame :
      (text : Text)
      → count_frame (value_frame (Value.string text)) c
        ≡ pushes [] (fits (length (print_string text)) c)
  unfolding count_frame
  string_frame text = ap (pushes []) (add_json_string-fits text c h)

  two_more : and_then (add 1 c) (add 1) ≡ fits 2 c
  two_more = rw (add-fits 1 c h.small) (fits_then 1 1 c (add 1) h (λ c' h'. add-fits 1 c' h'.small))

  pub empty_array_frame : count_frame (value_frame (Value.array no_values)) c ≡ pushes [] (fits 2 c)
  unfolding count_frame
  empty_array_frame = ap (pushes []) two_more

  pub empty_object_frame :
      count_frame (value_frame (Value.object no_fields)) c ≡ pushes [] (fits 2 c)
  unfolding count_frame
  empty_object_frame = ap (pushes []) two_more

  pub open_array_frame :
      (v : Value) (vs : Values)
      → count_frame (value_frame (Value.array (add_value v vs))) c
        ≡ pushes (array_frame (add_value v vs) true ∷ []) (fits 1 c)
  unfolding count_frame
  open_array_frame v vs = ap (pushes _) (add-fits 1 c h.small)

  pub open_object_frame :
      (key : Text) (v : Value) (fs : Fields)
      → count_frame (value_frame (Value.object (add_field key v fs))) c
        ≡ pushes (object_frame (add_field key v fs) true ∷ []) (fits 1 c)
  unfolding count_frame
  open_object_frame key v fs = ap (pushes _) (add-fits 1 c h.small)

  pub close_array_frame : count_frame (array_frame no_values false) c ≡ pushes [] (fits 1 c)
  unfolding count_frame
  close_array_frame = ap (pushes []) (add-fits 1 c h.small)

  pub close_object_frame : count_frame (object_frame no_fields false) c ≡ pushes [] (fits 1 c)
  unfolding count_frame
  close_object_frame = ap (pushes []) (add-fits 1 c h.small)

  pub first_item_frame :
      (v : Value) (vs : Values)
      → count_frame (array_frame (add_value v vs) true) c
        ≡ pushes (value_frame v ∷ array_frame vs false ∷ []) (some c)
  unfolding count_frame add_comma
  first_item_frame v vs = refl

  pub next_item_frame :
      (v : Value) (vs : Values)
      → count_frame (array_frame (add_value v vs) false) c
        ≡ pushes (value_frame v ∷ array_frame vs false ∷ []) (fits 1 c)
  unfolding count_frame add_comma
  next_item_frame v vs = ap (pushes _) (add-fits 1 c h.small)

  pub first_field_frame :
      (key : Text) (v : Value) (fs : Fields)
      → count_frame (object_frame (add_field key v fs) true) c
        ≡ pushes
            (value_frame v ∷ object_frame fs false ∷ [])
            (fits (length (print_string key) + 1) c)
  unfolding count_frame add_comma
  first_field_frame key v fs = ap (pushes _) (
      rw (add_json_string-fits key c h)
        (fits_then (length (print_string key)) 1 c (add 1) h (λ c' h'. add-fits 1 c' h'.small)))

  pub next_field_frame :
      (key : Text) (v : Value) (fs : Fields)
      → count_frame (object_frame (add_field key v fs) false) c
        ≡ pushes
            (value_frame v ∷ object_frame fs false ∷ [])
            (fits (1 + length (print_string key) + 1) c)
  unfolding count_frame add_comma
  next_field_frame key v fs = ap (pushes _) (
      rw (add-fits 1 c h.small) (
        rw
          (fits_then 1 (length (print_string key)) c (add_json_string key) h
            (add_json_string-fits key))
          (fits_then (1 + length (print_string key)) 1 c (add 1) h
            (λ c' h'. add-fits 1 c' h'.small))))
