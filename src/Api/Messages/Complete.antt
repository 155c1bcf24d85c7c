-- ===== src/Api/Messages/Complete.antt =====
-- crates/llm-api/src/validation/helpers.rs: a dialogue whose sizes fit passes the check.
use mathlib.Core.List.{Perm, append-nil}
use mathlib.Core.List.Perm
use kir_ai.Prelude.{
  ℕ, ◌+◌, ◌≡◌, refl, ◌∙◌, subst, inl, inr, true, false, ◌&&◌, not, Option, none, some, List, [],
  ◌∷◌, ◌++◌, is_empty, if◌then◌else◌, All, arith,
}
use kir_ai.Json.{Text}
use kir_ai.Api.Error.{Result, ok, done, ◌>>◌}
use kir_ai.Api.Types.{ChatMessage}
use kir_ai.Api.Checks.{RequestLimits}
use kir_ai.Api.Messages.{
  is_some, reject_tool_call_id_for_non_tool_message, reject_tool_calls_for_non_assistant_message,
  role_fields, validate_chat_message_role_fields, Order, new_order, remove,
  reject_non_tool_message_while_tool_calls_pending, insert_calls, leave_pending, answer_call,
  order_step, validate_chat_message_order, validate_message_sizes, reject_pending,
  validate_messages_from, validate_chat_messages,
}
use kir_ai.Api.Messages.Dialogue.{
  IsSystem, IsUser, IsAssistant, IsAnswer, Answers, no_answer, answer, call_ids, IsConversation,
  ended, user_turn, assistant_turn, IsDialogue, conversation, system_first,
}
use kir_ai.Api.Messages.Sized.{IsSized, IsSized-validate_message_sizes}
use kir_ai.Api.Messages.Steps.{check-done, is_some-none}
use kir_ai.Api.Messages.Removal.{remove-first, insert_distinct, IsFresh-nil, remove-filled}
use kir_ai.Api.Messages.Pending.{insert_calls-call_ids}

-- The second half of the loop: the sizes of all messages.
unfoldable validate_sizes_from : RequestLimits → ℕ → List ChatMessage → Result (Unit {0})
unfolding validate_message_sizes
validate_sizes_from limits index [] = done
validate_sizes_from limits index (m ∷ rest) =
    validate_message_sizes limits index m >> validate_sizes_from limits (index + 1) rest

-- The fields of a message of each role pass.
module _ (index : ℕ) (m : ChatMessage) where
  fields_of_system : IsSystem m → role_fields m.role index m ≡ done
  unfolding role_fields reject_tool_call_id_for_non_tool_message
      reject_tool_calls_for_non_assistant_message
  fields_of_system h = rw h.role (rw (h.content, h.no_call_id, h.no_calls) refl)

  fields_of_user : IsUser m → role_fields m.role index m ≡ done
  unfolding role_fields reject_tool_call_id_for_non_tool_message
      reject_tool_calls_for_non_assistant_message
  fields_of_user h = rw h.role (rw (h.content, h.no_call_id, h.no_calls) refl)

  fields_of_assistant : IsAssistant m → role_fields m.role index m ≡ done
  unfolding role_fields reject_tool_call_id_for_non_tool_message
  fields_of_assistant h =
      let enough : not (is_some m.content) && is_empty m.tool_calls ≡ false = elim h.content [
        | inl c ↦ ground (arith, c)
        | inr c ↦ ground (arith, c)
      ] in
      rw h.role (rw (enough, h.no_call_id) refl)

  fields_of_answer : (key : Text) → IsAnswer m key → role_fields m.role index m ≡ done
  unfolding role_fields reject_tool_calls_for_non_assistant_message
  fields_of_answer key h = rw h.role (rw (h.content, h.call_id, h.no_calls) refl)

-- A message that passes each check, and the messages after it.
module _ (limits : RequestLimits) (index : ℕ) (m : ChatMessage) (rest : List ChatMessage)
    (o o' : Order) where
  first_passes :
      role_fields m.role index m ≡ done
      → order_step m.role index m o ≡ ok o'
      → validate_sizes_from limits index (m ∷ rest) ≡ done
      → (validate_sizes_from limits (index + 1) rest ≡ done
          → validate_messages_from limits (index + 1) rest o' ≡ done)
      → validate_messages_from limits index (m ∷ rest) o ≡ done
  unfolding validate_messages_from validate_chat_message_role_fields validate_chat_message_order
      validate_sizes_from
  first_passes f s z later =
      let (here, others) =
        check-done (validate_message_sizes limits index m)
          (validate_sizes_from limits (index + 1) rest) tt z in
      rw (f, s, here) (later others)

-- The variables after an answer.
abbrev after_answer : Order → List Text → Order
after_answer o left = record {
  seen_conversation_message = true;
  pending_tool_call_ids = left;
  pending_tool_call_message = if is_empty left then none else o.pending_tool_call_message;
}

answer_passes :
    (index : ℕ) (m : ChatMessage) (key : Text) (o : Order) (left : List Text)
    → IsAnswer m key
    → remove key o.pending_tool_call_ids ≡ some left
    → order_step m.role index m o ≡ ok (after_answer o left)
unfolding order_step answer_call leave_pending
answer_passes index m key o left a e =
    rw a.role (rw a.call_id (rw (remove-filled key o.pending_tool_call_ids left e) (rw e refl)))

-- The answers to what is pending pass, and leave the conversation that follows.
Answers-validate_messages_from :
    (limits : RequestLimits) (index : ℕ) (answers rest : List ChatMessage) (keys ids : List Text)
    (message : Option ℕ)
    → Answers answers keys
    → Perm keys ids
    → is_some message ≡ not (is_empty ids)
    → ((index' : ℕ) (o : Order)
        → o.pending_tool_call_ids ≡ []
        → o.pending_tool_call_message ≡ none
        → validate_sizes_from limits index' rest ≡ done
        → validate_messages_from limits index' rest o ≡ done)
    → validate_sizes_from limits index (answers ++ rest) ≡ done
    → validate_messages_from limits index (answers ++ rest) (record {
      seen_conversation_message = true;
      pending_tool_call_ids = ids;
      pending_tool_call_message = message;
    })
      ≡ done
Answers-validate_messages_from limits index [] rest [] ids message no_answer p named later z =
    let nothing : ids ≡ [] = Perm.eq-nil (Perm.symm p) in
    later index _ nothing (is_some-none message (named ∙ rw nothing refl)) z
Answers-validate_messages_from limits index [] rest (key ∷ keys) ids message x p named later z =
    elim x [ ]
Answers-validate_messages_from limits index (m ∷ answers) rest [] ids message x p named later z =
    elim x [ ]
Answers-validate_messages_from limits index (m ∷ answers) rest (key ∷ keys) ids message
      (answer a others) p named later z =
    let (left, e, q) = remove-first key keys ids p in
    let o : Order = record {
      seen_conversation_message = true;
      pending_tool_call_ids = ids;
      pending_tool_call_message = message;
    } in
    first_passes limits index m (answers ++ rest) _ _ (fields_of_answer index m key a)
      (answer_passes index m key o left a e) z
      (Answers-validate_messages_from limits (index + 1) answers rest keys left
        (if is_empty left then none else message) others q
        (ground (arith, named, remove-filled key ids left e)) later)

user_passes :
    (index : ℕ) (m : ChatMessage) (o : Order)
    → IsUser m
    → o.pending_tool_call_ids ≡ []
    → order_step m.role index m o ≡ ok (record o { seen_conversation_message = true })
unfolding order_step reject_non_tool_message_while_tool_calls_pending
user_passes index m o u e = rw u.role (rw e refl)

assistant_passes :
    (index : ℕ) (m : ChatMessage) (o : Order) (ids : List Text)
    → IsAssistant m
    → o.pending_tool_call_ids ≡ []
    → insert_calls index 0 m.tool_calls [] ≡ ok ids
    → order_step m.role index m o
      ≡ ok (record {
        seen_conversation_message = true;
        pending_tool_call_ids = ids;
        pending_tool_call_message = if is_empty ids then none else some index;
      })
unfolding order_step reject_non_tool_message_while_tool_calls_pending
assistant_passes index m o ids a e i = rw a.role (rw e (rw i refl))

conversation_passes :
    (limits : RequestLimits) (ms : List ChatMessage) (index : ℕ) (o : Order)
    → IsConversation ms
    → o.pending_tool_call_ids ≡ []
    → o.pending_tool_call_message ≡ none
    → validate_sizes_from limits index ms ≡ done
    → validate_messages_from limits index ms o ≡ done
conversation_passes limits _ index o ended e n z =
    unfold validate_messages_from in unfold reject_pending in rw n refl
conversation_passes limits _ index o (user_turn {m} {rest} u c) e n z =
    first_passes limits index m rest o (record o { seen_conversation_message = true })
      (fields_of_user index m u) (user_passes index m o u e) z
      (conversation_passes limits rest (index + 1) (record o { seen_conversation_message = true }) c
        e n)
conversation_passes limits _ index o (assistant_turn {m} {keys} {answers} {rest} a d ans p c) e n
      z =
    let (ids, i) =
      insert_distinct index 0 m.tool_calls [] d (IsFresh-nil (call_ids m.tool_calls)) in
    let perm =
      subst (λ l. Perm ids l) (append-nil (call_ids m.tool_calls))
        (insert_calls-call_ids index 0 m.tool_calls [] ids i).1 in
    first_passes limits index m (answers ++ rest) o _ (fields_of_assistant index m a)
      (assistant_passes index m o ids a e i) z
      (Answers-validate_messages_from limits (index + 1) answers rest keys ids
        (if is_empty ids then none else some index) ans (Perm.trans p (Perm.symm perm))
        (ground arith) (λ index' o' e' n'. conversation_passes limits rest index' o' c e' n'))

dialogue_passes :
    (limits : RequestLimits) (ms : List ChatMessage) (index : ℕ)
    → IsDialogue ms
    → validate_sizes_from limits index ms ≡ done
    → validate_messages_from limits index ms new_order ≡ done
dialogue_passes limits ms index (conversation c) z =
    conversation_passes limits ms index new_order c refl refl z
dialogue_passes limits _ index (system_first {m} {rest} s d) z =
    first_passes limits index m rest new_order new_order (fields_of_system index m s)
      (unfold order_step in rw s.role refl) z (dialogue_passes limits rest (index + 1) d)

sizes_pass :
    (limits : RequestLimits) (index : ℕ) (ms : List ChatMessage)
    → All (IsSized limits) ms
    → validate_sizes_from limits index ms ≡ done
unfolding validate_sizes_from
sizes_pass limits index [] h = refl
sizes_pass limits index (m ∷ ms) h =
    rw (IsSized-validate_message_sizes limits index m h.0) (sizes_pass limits (index + 1) ms h.1)

-- A dialogue passes the check if of each message the content has at most as many bytes as the limits say,
-- the name and the identifier of the answered call at most 1024, the identifier in a tool's message is
-- not blank, the calls are at most 128, and of each call the identifier and the function's name have
-- at most 1024 bytes, the name is not blank, and the arguments have at most 1048576 bytes in compact
-- form. Nothing else is refused.
pub IsDialogue-validate_chat_messages :
    (ms : List ChatMessage) (limits : RequestLimits)
    → IsDialogue ms
    → All (IsSized limits) ms
    → validate_chat_messages ms limits ≡ done
unfolding validate_chat_messages
IsDialogue-validate_chat_messages ms limits d z =
    dialogue_passes limits ms 0 d (sizes_pass limits 0 ms z)
