-- ===== src/Api/Messages.antt =====
-- crates/llm-api/src/validation/helpers.rs: the checks of the messages of a chat. The set of pending
-- identifiers is a list of them.
pub mod Dialogue
pub mod Steps
pub mod Pending
pub mod Orders
pub mod Sound
pub mod Removal
pub mod Sized
pub mod Complete
use kir_ai.Prelude.{
  ℕ, ◌+◌, Bool, true, false, ◌&&◌, not, Option, none, some, List, [], ◌∷◌, length, is_empty, ◌==◌,
  if◌then◌else◌,
}
use kir_ai.Json.{Text, str_len}
use kir_ai.Api.Error.{
  ChatRole, system, user, assistant, tool, Label, messages, at, member, role, content, name,
  tool_call_id, tool_calls, id, function_name, function_arguments, Message, is_required_for,
  is_required_without_tool_calls, is_only_allowed_for, system_messages_first, tools_pending,
  duplicate_call_id, must_follow_tool_calls, no_pending_call, must_be_followed_by_tools, Result, ok,
  err, done, ◌>>◌, ◌>>=◌, reject, reject_if,
}
use kir_ai.Api.Types.{ToolCallFunction, ToolCall, ChatMessage}
use kir_ai.Api.Checks.{
  RequestLimits, max_name_bytes, max_tool_calls_per_message, max_tool_argument_bytes,
  validate_len_at_most, validate_string_bytes, validate_non_empty_string,
  validate_json_bytes_at_most,
}

abbrev pub is_some {ℓ} : {A : Type ℓ} → Option A → Bool
is_some none = false
is_some (some a) = true

unfoldable pub reject_tool_call_id_for_non_tool_message : ℕ → ChatMessage → Result (Unit {0})
reject_tool_call_id_for_non_tool_message index m =
    reject_if (is_some m.tool_call_id)
      (is_only_allowed_for (member (at messages index) tool_call_id) tool)

unfoldable pub reject_tool_calls_for_non_assistant_message : ℕ → ChatMessage → Result (Unit {0})
reject_tool_calls_for_non_assistant_message index m =
    reject_if (not (is_empty m.tool_calls))
      (is_only_allowed_for (member (at messages index) tool_calls) assistant)

-- The fields of a message by its role.
unfoldable pub role_fields : ChatRole → ℕ → ChatMessage → Result (Unit {0})
unfolding reject_tool_call_id_for_non_tool_message reject_tool_calls_for_non_assistant_message
role_fields system index m =
    reject_if (not (is_some m.content))
      (is_required_for (member (at messages index) content) system)
    >> (reject_tool_call_id_for_non_tool_message index m
        >> reject_tool_calls_for_non_assistant_message index m)
role_fields user index m =
    reject_if (not (is_some m.content)) (is_required_for (member (at messages index) content) user)
    >> (reject_tool_call_id_for_non_tool_message index m
        >> reject_tool_calls_for_non_assistant_message index m)
role_fields assistant index m =
    reject_if (not (is_some m.content) && is_empty m.tool_calls)
      (is_required_without_tool_calls (member (at messages index) content))
    >> reject_tool_call_id_for_non_tool_message index m
role_fields tool index m =
    reject_if (not (is_some m.content)) (is_required_for (member (at messages index) content) tool)
    >> (reject_if (not (is_some m.tool_call_id))
          (is_required_for (member (at messages index) tool_call_id) tool)
        >> reject_tool_calls_for_non_assistant_message index m)

unfoldable pub validate_chat_message_role_fields : ℕ → ChatMessage → Result (Unit {0})
unfolding role_fields
validate_chat_message_role_fields index m = role_fields m.role index m

-- The variables of `validate_chat_messages`.
pub record Order : Type 0 where
  pub seen_conversation_message : Bool
  pub pending_tool_call_ids : List Text
  pub pending_tool_call_message : Option ℕ

abbrev pub new_order : Order
new_order = record {
  seen_conversation_message = false;
  pending_tool_call_ids = [];
  pending_tool_call_message = none;
}

unfoldable pub same_text : Text → Text → Bool
same_text [] [] = true
same_text [] (b ∷ bs) = false
same_text (a ∷ rest) [] = false
same_text (a ∷ rest) (b ∷ bs) = (a == b) && same_text rest bs

-- `BTreeSet::contains`
unfoldable pub contains : Text → List Text → Bool
unfolding same_text
contains key [] = false
contains key (k ∷ keys) = if same_text key k then true else contains key keys

-- `BTreeSet::remove`; `none` where it answers false.
unfoldable pub remove : Text → List Text → Option (List Text)
unfolding same_text
remove key [] = none
remove key (k ∷ keys) =
    let rest = remove key keys in
    if same_text key k then some keys else elim rest [ none ↦ none | some left ↦ some (k ∷ left) ]

unfoldable pub reject_non_tool_message_while_tool_calls_pending : ℕ → Order → Result (Unit {0})
reject_non_tool_message_while_tool_calls_pending index o =
    reject_if (not (is_empty o.pending_tool_call_ids))
      (tools_pending (member (at messages index) role) o.pending_tool_call_message)

-- The loop that inserts the identifiers of an assistant's calls, from some call on.
unfoldable pub insert_calls : ℕ → ℕ → List ToolCall → List Text → Result (List Text)
unfolding contains
insert_calls index call_index [] ids = ok ids
insert_calls index call_index (call ∷ calls) ids =
    reject_if (contains call.id ids)
      (duplicate_call_id (member (at (member (at messages index) tool_calls) call_index) id))
    >> insert_calls index (call_index + 1) calls (call.id ∷ ids)

-- What is left pending after an answer.
unfoldable pub leave_pending : ℕ → Text → Order → Option (List Text) → Result Order
leave_pending index key o none =
    reject (no_pending_call (member (at messages index) tool_call_id) key)
leave_pending index key o (some ids) = ok (record {
  seen_conversation_message = true;
  pending_tool_call_ids = ids;
  pending_tool_call_message = if is_empty ids then none else o.pending_tool_call_message;
})

-- A tool's answer to a call, by its identifier.
unfoldable pub answer_call : ℕ → Option Text → Order → Result Order
unfolding remove leave_pending
answer_call index none o = reject (is_required_for (member (at messages index) tool_call_id) tool)
answer_call index (some key) o =
    reject_if (is_empty o.pending_tool_call_ids)
      (must_follow_tool_calls (member (at messages index) role))
    >> leave_pending index key o (remove key o.pending_tool_call_ids)

unfoldable pub order_step : ChatRole → ℕ → ChatMessage → Order → Result Order
unfolding reject_non_tool_message_while_tool_calls_pending insert_calls answer_call
order_step system index m o =
    reject_if o.seen_conversation_message (system_messages_first (member (at messages index) role))
    >> ok o
order_step user index m o =
    reject_non_tool_message_while_tool_calls_pending index o
    >> ok (record o { seen_conversation_message = true })
order_step assistant index m o =
    reject_non_tool_message_while_tool_calls_pending index o
    >> (insert_calls index 0 m.tool_calls [] >>= λ ids. ok (record {
      seen_conversation_message = true;
      pending_tool_call_ids = ids;
      pending_tool_call_message = if is_empty ids then none else some index;
    }))
order_step tool index m o = answer_call index m.tool_call_id o

unfoldable pub validate_chat_message_order : ℕ → ChatMessage → Order → Result Order
unfolding order_step
validate_chat_message_order index m o = order_step m.role index m o

-- The loop over the calls of a message, from some call on.
unfoldable pub validate_tool_calls : Label → ℕ → List ToolCall → Result (Unit {0})
unfolding validate_string_bytes validate_non_empty_string validate_json_bytes_at_most
validate_tool_calls label call_index [] = done
validate_tool_calls label call_index (call ∷ calls) =
    validate_string_bytes (member (at label call_index) id) call.id max_name_bytes
    >> (validate_non_empty_string (member (at label call_index) function_name) call.function.name
        >> (validate_string_bytes (member (at label call_index) function_name) call.function.name
              max_name_bytes
            >> (validate_json_bytes_at_most (member (at label call_index) function_arguments)
                  call.function.arguments max_tool_argument_bytes
                >> validate_tool_calls label (call_index + 1) calls)))

unfoldable pub bytes_if_any : Label → Option Text → ℕ → Result (Unit {0})
unfolding validate_string_bytes
bytes_if_any label none max = done
bytes_if_any label (some value) max = validate_string_bytes label value max

unfoldable pub non_empty_for_tool : ChatRole → Label → Option Text → Result (Unit {0})
unfolding validate_non_empty_string
non_empty_for_tool tool label (some key) = validate_non_empty_string label key
non_empty_for_tool _ label key = done

-- The checks of a message after its order: the sizes of its fields, and that the identifier that a tool
-- answers and the names of the called functions are not blank.
unfoldable pub validate_message_sizes : RequestLimits → ℕ → ChatMessage → Result (Unit {0})
unfolding bytes_if_any non_empty_for_tool validate_len_at_most validate_tool_calls
validate_message_sizes limits index m =
    bytes_if_any (member (at messages index) content) m.content limits.message_content_bytes
    >> (bytes_if_any (member (at messages index) name) m.name max_name_bytes
        >> (non_empty_for_tool m.role (member (at messages index) tool_call_id) m.tool_call_id
            >> (bytes_if_any (member (at messages index) tool_call_id) m.tool_call_id max_name_bytes
                >> (validate_len_at_most (member (at messages index) tool_calls)
                      (length m.tool_calls) max_tool_calls_per_message
                    >> validate_tool_calls (member (at messages index) tool_calls) 0
                        m.tool_calls))))

-- After the loop.
unfoldable pub reject_pending : Option ℕ → Result (Unit {0})
reject_pending none = done
reject_pending (some index) =
    reject (must_be_followed_by_tools (member (at messages index) tool_calls))

-- The loop of `validate_chat_messages`, from some message on.
unfoldable pub validate_messages_from :
    RequestLimits → ℕ → List ChatMessage → Order → Result (Unit {0})
unfolding validate_chat_message_role_fields validate_chat_message_order validate_message_sizes
    reject_pending
validate_messages_from limits index [] o = reject_pending o.pending_tool_call_message
validate_messages_from limits index (m ∷ rest) o =
    validate_chat_message_role_fields index m
    >> (validate_chat_message_order index m o >>= λ o'.
        validate_message_sizes limits index m >> validate_messages_from limits (index + 1) rest o')

unfoldable pub validate_chat_messages : List ChatMessage → RequestLimits → Result (Unit {0})
unfolding validate_messages_from
validate_chat_messages ms limits = validate_messages_from limits 0 ms new_order
