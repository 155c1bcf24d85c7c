-- ===== src/Api/Messages/Sound.antt =====
-- crates/llm-api/src/validation/helpers.rs: messages that pass the check have the form of a dialogue.
use mathlib.Core.List.{Perm, append-nil}
use mathlib.Core.List.Perm
use kir_ai.Prelude.{
  ℕ, ◌+◌, ◌≡◌, refl, sym, ap, ◌∙◌, subst, inl, inr, true, false, List, [], ◌∷◌, ◌++◌, Option-cases,
  arith,
}
use kir_ai.Json.{Text}
use kir_ai.Api.Error.{ChatRole, system, user, assistant, tool, ok, done}
use kir_ai.Api.Types.{ChatMessage}
use kir_ai.Api.Checks.{RequestLimits}
use kir_ai.Api.Messages.{
  role_fields, validate_chat_message_role_fields, Order, new_order, order_step,
  validate_chat_message_order, reject_pending, validate_messages_from, validate_chat_messages,
}
use kir_ai.Api.Messages.Dialogue.{
  IsSystem, Answers, no_answer, answer, call_ids, IsConversation, ended, user_turn, assistant_turn,
  IsDialogue, conversation, system_first,
}
use kir_ai.Api.Messages.Steps.{
  check-done, bind-ok, is_empty-nil, role_fields-IsSystem, role_fields-IsUser,
  role_fields-IsAssistant, role_fields-IsAnswer,
}
use kir_ai.Api.Messages.Orders.{
  IsNamed, system_step, user_step, assistant_step, answer_call-IsAnswered,
}
use kir_ai.Api.Messages.Pending.{remove-Perm, insert_calls-call_ids}

-- The first messages answer what is pending, and a conversation follows.
record Splits (pending : List Text) (ms : List ChatMessage) : Type 0 where
  answers : List ChatMessage
  rest : List ChatMessage
  keys : List Text
  split : answers ++ rest ≡ ms
  answered : Answers answers keys
  perm : Perm keys pending
  after : IsConversation rest

Answers-nil :
    {answers : List ChatMessage} {keys : List Text}
    → Answers answers keys
    → keys ≡ []
    → answers ≡ []
Answers-nil no_answer e = refl
Answers-nil (answer a as_well) e = absurd (ground arith)

Splits-IsConversation :
    (pending : List Text) (ms : List ChatMessage)
    → Splits pending ms
    → pending ≡ []
    → IsConversation ms
Splits-IsConversation pending ms s e =
    let none_left : s.keys ≡ [] = Perm.eq-nil (subst (λ p. Perm s.keys p) e s.perm) in
    let same : s.rest ≡ ms =
      ap (λ xs. xs ++ s.rest) (sym (Answers-nil s.answered none_left)) ∙ s.split in
    subst IsConversation same s.after

Splits-first :
    (pending : List Text) (m : ChatMessage) (rest : List ChatMessage)
    → pending ≡ []
    → IsConversation (m ∷ rest)
    → Splits pending (m ∷ rest)
Splits-first pending m rest e c = record {
  answers = [];
  rest = m ∷ rest;
  keys = [];
  split = refl;
  answered = no_answer;
  perm = rw e (Perm.refl []);
  after = c;
}

-- A message that passes is a system message before the others, or takes the conversation on.
data Step (m : ChatMessage) (rest : List ChatMessage) (o o' : Order) : Type 0 where
  starts : IsSystem m → o.seen_conversation_message ≡ false → o' ≡ o → Step m rest o o'
  goes_on :
      o'.seen_conversation_message ≡ true
      → (IsNamed o → IsNamed o')
      → (Splits o'.pending_tool_call_ids rest → Splits o.pending_tool_call_ids (m ∷ rest))
      → Step m rest o o'

step :
    (index : ℕ) (m : ChatMessage) (rest : List ChatMessage) (o o' : Order) (r : ChatRole)
    → m.role ≡ r
    → role_fields r index m ≡ done
    → order_step r index m o ≡ ok o'
    → Step m rest o o'
unfolding order_step IsNamed
step index m rest o o' system e f h =
    let (unseen, same) = system_step index m o o' h in
    starts (role_fields-IsSystem index m e f) unseen same
step index m rest o o' user e f h =
    let (nothing, same) = user_step index m o o' h in
    goes_on (rw same refl) (λ n. rw same n)
      (λ s. Splits-first o.pending_tool_call_ids m rest nothing (
        user_turn (role_fields-IsUser index m e f) (
          Splits-IsConversation o'.pending_tool_call_ids rest s
            (ap (λ x. x.pending_tool_call_ids) same ∙ nothing))))
step index m rest o o' assistant e f h =
    let (nothing, seen, named, inserted) = assistant_step index m o o' h in
    let (distinct, perm, fresh) =
      insert_calls-call_ids index 0 m.tool_calls [] o'.pending_tool_call_ids inserted in
    goes_on seen (λ n. named)
      (λ s. Splits-first o.pending_tool_call_ids m rest nothing (
        subst (λ l. IsConversation (m ∷ l)) s.split
          (assistant_turn (role_fields-IsAssistant index m e f) distinct s.answered
            (Perm.trans s.perm (
              subst (λ l. Perm o'.pending_tool_call_ids l) (append-nil (call_ids m.tool_calls))
                perm))
            s.after)))
step index m rest o o' tool e f h =
    let a = answer_call-IsAnswered index m.tool_call_id o o' h in
    goes_on a.seen a.named (λ s. record {
      answers = m ∷ s.answers;
      rest = s.rest;
      keys = a.call_id ∷ s.keys;
      split = ap (λ l. m ∷ l) s.split;
      answered = answer (role_fields-IsAnswer index m a.call_id e a.same f) s.answered;
      perm =
          Perm.trans (Perm.cons a.call_id s.perm)
            (remove-Perm a.call_id o.pending_tool_call_ids o'.pending_tool_call_ids a.removed);
      after = s.after;
    })

-- What a message that passes leaves to the others.
module _ (limits : RequestLimits) (index : ℕ) (m : ChatMessage) (rest : List ChatMessage)
    (o : Order) where
  first_step :
      validate_messages_from limits index (m ∷ rest) o ≡ done
      → (o' : Order) × Step m rest o o' × (validate_messages_from limits (index + 1) rest o' ≡ done)
  unfolding validate_messages_from validate_chat_message_role_fields validate_chat_message_order
  first_step h =
      let (f, a) = check-done _ _ tt h in
      let (o', b, c) = bind-ok _ _ tt a in
      let (sizes, d) = check-done _ _ tt c in (o', step index m rest o o' m.role refl f b, d)

nothing_left :
    (limits : RequestLimits) (index : ℕ) (o : Order)
    → IsNamed o
    → validate_messages_from limits index [] o ≡ done
    → o.pending_tool_call_ids ≡ []
unfolding validate_messages_from reject_pending IsNamed
nothing_left limits index o named h = elim (Option-cases o.pending_tool_call_message) [
  | inl n ↦ is_empty-nil o.pending_tool_call_ids (ground (arith, n, named))
  | inr (i, e) ↦ absurd (ground (arith, e, h))
]

turns :
    (limits : RequestLimits) (index : ℕ) (ms : List ChatMessage) (o : Order)
    → o.seen_conversation_message ≡ true
    → IsNamed o
    → validate_messages_from limits index ms o ≡ done
    → Splits o.pending_tool_call_ids ms
turns limits index [] o seen named h = record {
  answers = [];
  rest = [];
  keys = [];
  split = refl;
  answered = no_answer;
  perm = rw (nothing_left limits index o named h) (Perm.refl []);
  after = ended;
}
turns limits index (m ∷ rest) o seen named h =
    let (o', s, later) = first_step limits index m rest o h in
    elim s [
      | starts is_system unseen same ↦ absurd (ground (arith, seen, unseen))
      | goes_on seen' keeps splits ↦
          splits (turns limits (index + 1) rest o' seen' (keeps named) later)
    ]

dialogue :
    (limits : RequestLimits) (index : ℕ) (ms : List ChatMessage) (o : Order)
    → o.pending_tool_call_ids ≡ []
    → IsNamed o
    → validate_messages_from limits index ms o ≡ done
    → IsDialogue ms
dialogue limits index [] o nothing named h = conversation ended
dialogue limits index (m ∷ rest) o nothing named h =
    let (o', s, later) = first_step limits index m rest o h in
    elim s [
      | starts is_system unseen same ↦
          system_first is_system
            (dialogue limits (index + 1) rest o' (rw same nothing) (rw same named) later)
      | goes_on seen keeps splits ↦ conversation (
          Splits-IsConversation o.pending_tool_call_ids (m ∷ rest)
            (splits (turns limits (index + 1) rest o' seen (keeps named) later)) nothing)
    ]

-- Messages that pass the check, whatever the limits, are a dialogue: system messages first, then turns
-- of the user and the assistant, each message with the fields of its role. The calls of an assistant's
-- message have different identifiers, and the tool messages that follow it at once answer each of them
-- exactly once, in any order.
pub validate_chat_messages-IsDialogue :
    (ms : List ChatMessage) (limits : RequestLimits)
    → validate_chat_messages ms limits ≡ done
    → IsDialogue ms
unfolding validate_chat_messages IsNamed
validate_chat_messages-IsDialogue ms limits h = dialogue limits 0 ms new_order refl refl h
