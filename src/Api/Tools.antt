-- ===== src/Api/Tools.antt =====
-- crates/llm-api/src/validation/helpers.rs and validation.rs: the checks of tools and of the choice of
-- one. A schema is nested no deeper than the limit, so that the fuel of the limit and one is enough.
pub mod Depth
use kir_ai.Prelude.{
  ℕ, zero, suc, ◌+◌, Bool, true, false, ◌&&◌, ◌||◌, not, Option, none, some, List, [], ◌∷◌, length,
  is_empty, ltb, if◌then◌else◌, saturating_add, map,
}
use kir_ai.Json.{Text, Value, Values, no_values, add_value, Fields, no_fields, add_field}
use kir_ai.Api.Error.{
  Label, tools, tool_choice, at, member, function_name, function_description, function_parameters,
  schema_type, required, enum, properties, property, items, Message, must_be_object, must_be_array,
  must_be_array_of_strings, must_contain_only_strings, schema_too_deep, enum_too_long,
  must_contain_a_type, must_be_string_or_strings, unsupported_schema_type, required_needs_a_tool,
  tool_not_declared, duplicate_tool_name, Result, ok, err, done, ◌>>◌, reject, reject_if,
}
use kir_ai.Api.Types.{
  FunctionDefinition, ToolDefinition, ToolChoice, choose_auto, choose_none, choose_required,
  choose_function,
}
use kir_ai.Api.Checks.{
  RequestLimits, max_name_bytes, max_tool_description_bytes, max_tool_schema_bytes,
  validate_string_bytes, validate_non_empty_string, validate_json_bytes_at_most,
}
use kir_ai.Api.Messages.{same_text, contains, bytes_if_any}

-- `Map::get`
unfoldable pub get : Text → Fields → Option Value
unfolding same_text
get key no_fields = none
get key (add_field k v rest) = let later = get key rest in if same_text key k then some v else later

unfoldable pub count_values : Values → ℕ
count_values no_values = 0
count_values (add_value v rest) = 1 + count_values rest

abbrev pub is_string : Value → Bool
is_string (Value.string text) = true
is_string _ = false

-- `iter().all(Value::is_string)`
unfoldable pub all_strings : Values → Bool
all_strings no_values = true
all_strings (add_value v rest) = is_string v && all_strings rest

-- "array", "boolean", "integer", "null", "number", "object", "string"
abbrev pub supported_json_schema_types : List Text
supported_json_schema_types =
    (97 ∷ 114 ∷ 114 ∷ 97 ∷ 121 ∷ [])
    ∷ (98 ∷ 111 ∷ 111 ∷ 108 ∷ 101 ∷ 97 ∷ 110 ∷ [])
    ∷ (105 ∷ 110 ∷ 116 ∷ 101 ∷ 103 ∷ 101 ∷ 114 ∷ [])
    ∷ (110 ∷ 117 ∷ 108 ∷ 108 ∷ [])
    ∷ (110 ∷ 117 ∷ 109 ∷ 98 ∷ 101 ∷ 114 ∷ [])
    ∷ (111 ∷ 98 ∷ 106 ∷ 101 ∷ 99 ∷ 116 ∷ [])
    ∷ (115 ∷ 116 ∷ 114 ∷ 105 ∷ 110 ∷ 103 ∷ [])
    ∷ []

-- "type", "required", "enum", "properties", "items"
abbrev pub type_name : Text
type_name = 116 ∷ 121 ∷ 112 ∷ 101 ∷ []

abbrev pub required_name : Text
required_name = 114 ∷ 101 ∷ 113 ∷ 117 ∷ 105 ∷ 114 ∷ 101 ∷ 100 ∷ []

abbrev pub enum_name : Text
enum_name = 101 ∷ 110 ∷ 117 ∷ 109 ∷ []

abbrev pub properties_name : Text
properties_name = 112 ∷ 114 ∷ 111 ∷ 112 ∷ 101 ∷ 114 ∷ 116 ∷ 105 ∷ 101 ∷ 115 ∷ []

abbrev pub items_name : Text
items_name = 105 ∷ 116 ∷ 101 ∷ 109 ∷ 115 ∷ []

unfoldable pub validate_schema_type_name : Label → Text → Result (Unit {0})
unfolding contains
validate_schema_type_name label name =
    reject_if (not (contains name supported_json_schema_types)) (unsupported_schema_type label name)

-- The loop over the types of an array, from some type on.
unfoldable pub validate_schema_types : Label → ℕ → Values → Result (Unit {0})
unfolding validate_schema_type_name
validate_schema_types label index no_values = done
validate_schema_types label index (add_value (Value.string name) rest) =
    validate_schema_type_name (at label index) name >> validate_schema_types label (index + 1) rest
validate_schema_types label index (add_value _ rest) = reject (must_be_string_or_strings label)

unfoldable pub validate_schema_type : Label → Value → Result (Unit {0})
unfolding validate_schema_types validate_schema_type_name
validate_schema_type label (Value.string name) = validate_schema_type_name label name
validate_schema_type label (Value.array no_values) = reject (must_contain_a_type label)
validate_schema_type label (Value.array (add_value v rest)) =
    validate_schema_types label 0 (add_value v rest)
validate_schema_type label _ = reject (must_be_string_or_strings label)

unfoldable pub check_type : Label → Option Value → Result (Unit {0})
unfolding validate_schema_type
check_type label none = done
check_type label (some v) = validate_schema_type (member label schema_type) v

unfoldable pub check_required : Label → Option Value → Result (Unit {0})
unfolding all_strings
check_required label none = done
check_required label (some (Value.array vs)) =
    reject_if (not (all_strings vs)) (must_contain_only_strings (member label required))
check_required label (some _) = reject (must_be_array_of_strings (member label required))

unfoldable pub check_enum : Label → ℕ → Option Value → Result (Unit {0})
unfolding count_values
check_enum label max_enum_values none = done
check_enum label max_enum_values (some (Value.array vs)) =
    reject_if (ltb max_enum_values (count_values vs))
      (enum_too_long (member label enum) (count_values vs) max_enum_values)
check_enum label max_enum_values (some _) = reject (must_be_array (member label enum))

-- `validate_nested_schema_object`, with the check of the object.
unfoldable pub nested : (Label → Fields → Result (Unit {0})) → Label → Value → Result (Unit {0})
nested check label (Value.object schema) = check label schema
nested check label _ = reject (must_be_object label)

unfoldable pub check_each :
    (Label → Fields → Result (Unit {0})) → Label → Fields → Result (Unit {0})
unfolding nested
check_each check label no_fields = done
check_each check label (add_field name v rest) =
    nested check (member label (property name)) v >> check_each check label rest

unfoldable pub check_properties :
    (Label → Fields → Result (Unit {0})) → Label → Option Value → Result (Unit {0})
unfolding check_each
check_properties check label none = done
check_properties check label (some (Value.object fields)) = check_each check label fields
check_properties check label (some _) = reject (must_be_object (member label properties))

unfoldable pub check_items :
    (Label → Fields → Result (Unit {0})) → Label → Option Value → Result (Unit {0})
unfolding nested
check_items check label none = done
check_items check label (some v) = nested check (member label items) v

-- The body of `validate_schema_object`, with the check of the objects one level deeper.
unfoldable pub schema_level :
    (Label → Fields → Result (Unit {0})) → ℕ → ℕ → ℕ → Label → Fields → Result (Unit {0})
unfolding check_type check_required check_enum check_properties check_items get
schema_level deeper depth max_depth max_enum_values label schema =
    reject_if (ltb max_depth depth) (schema_too_deep label depth max_depth)
    >> (check_type label (get type_name schema)
        >> (check_required label (get required_name schema)
            >> (check_enum label max_enum_values (get enum_name schema)
                >> (check_properties deeper label (get properties_name schema)
                    >> check_items deeper label (get items_name schema)))))

-- On fuel: a schema with no fuel left is too deep.
unfoldable pub validate_schema_object : ℕ → ℕ → ℕ → ℕ → Label → Fields → Result (Unit {0})
validate_schema_object zero depth max_depth max_enum_values label schema =
    reject (schema_too_deep label depth max_depth)
validate_schema_object (suc fuel) depth max_depth max_enum_values label schema =
    schema_level (validate_schema_object fuel (saturating_add depth 1) max_depth max_enum_values)
      depth max_depth max_enum_values label schema

unfoldable pub validate_tool_schema_shape : Label → Value → ℕ → ℕ → Result (Unit {0})
unfolding nested validate_schema_object
validate_tool_schema_shape label value max_depth max_enum_values =
    nested (validate_schema_object (max_depth + 1) 0 max_depth max_enum_values) label value

-- The body of the loop of `validate_tools`.
unfoldable pub validate_tool : RequestLimits → ℕ → FunctionDefinition → Result (Unit {0})
unfolding validate_non_empty_string validate_string_bytes bytes_if_any validate_tool_schema_shape
    validate_json_bytes_at_most
validate_tool limits index f =
    validate_non_empty_string (member (at tools index) function_name) f.name
    >> (validate_string_bytes (member (at tools index) function_name) f.name max_name_bytes
        >> (bytes_if_any (member (at tools index) function_description) f.description
              max_tool_description_bytes
            >> (validate_tool_schema_shape (member (at tools index) function_parameters)
                  f.parameters limits.tool_schema_depth limits.tool_schema_enum_values
                >> validate_json_bytes_at_most (member (at tools index) function_parameters)
                    f.parameters max_tool_schema_bytes)))

unfoldable pub validate_tools_from : RequestLimits → ℕ → List ToolDefinition → Result (Unit {0})
unfolding validate_tool
validate_tools_from limits index [] = done
validate_tools_from limits index (t ∷ rest) =
    validate_tool limits index t.function >> validate_tools_from limits (index + 1) rest

unfoldable pub validate_tools : List ToolDefinition → RequestLimits → Result (Unit {0})
unfolding validate_tools_from
validate_tools ts limits = validate_tools_from limits 0 ts

abbrev pub tool_names : List ToolDefinition → List Text
tool_names ts = map (λ t. t.function.name) ts

-- The loop of `validate_unique_tool_names`, from some tool on.
unfoldable pub unique_names_from : ℕ → List ToolDefinition → List Text → Result (Unit {0})
unfolding contains
unique_names_from index [] seen = done
unique_names_from index (t ∷ rest) seen =
    reject_if (contains t.function.name seen) (duplicate_tool_name t.function.name index)
    >> unique_names_from (index + 1) rest (t.function.name ∷ seen)

unfoldable pub validate_unique_tool_names : List ToolDefinition → Result (Unit {0})
unfolding unique_names_from
validate_unique_tool_names ts = unique_names_from 0 ts []

unfoldable pub validate_tool_choice : List ToolDefinition → Option ToolChoice → Result (Unit {0})
unfolding validate_unique_tool_names validate_non_empty_string contains
validate_tool_choice ts none = done
validate_tool_choice ts (some choose_auto) = done
validate_tool_choice ts (some choose_none) = done
validate_tool_choice ts (some choose_required) =
    reject_if (is_empty ts) required_needs_a_tool >> validate_unique_tool_names ts
validate_tool_choice ts (some (choose_function name)) =
    validate_non_empty_string (member tool_choice function_name) name
    >> (validate_unique_tool_names ts
        >> reject_if (not (contains name (tool_names ts))) (tool_not_declared name))
