-- ===== src/Api/Messages/Orders.antt =====
-- crates/llm-api/src/validation/helpers.rs: what the order of a message that passes is like.

use kir_ai.Prelude.{
  ℕ, ◌≡◌, refl, sym, true, false, not, Option, none, some, List, [], is_empty, if◌then◌else◌, arith,
}
use kir_ai.Json.{Text}
use kir_ai.Api.Error.{system, user, assistant, ok, done}
use kir_ai.Api.Types.{ChatMessage}
use kir_ai.Api.Messages.{
  is_some, Order, remove, reject_non_tool_message_while_tool_calls_pending, insert_calls,
  answer_call, order_step, leave_pending,
}
use kir_ai.Api.Messages.Steps.{
  check-done, bind-ok, reject_if-done, ok-injective, not-false, is_empty-nil,
}

-- The message that is named has calls that are pending.
unfoldable pub IsNamed : Order → Type 0
IsNamed o = is_some o.pending_tool_call_message ≡ not (is_empty o.pending_tool_call_ids)

nothing_pending :
    (index : ℕ) (o : Order)
    → reject_non_tool_message_while_tool_calls_pending index o ≡ done
    → o.pending_tool_call_ids ≡ []
unfolding reject_non_tool_message_while_tool_calls_pending
nothing_pending index o h =
    is_empty-nil o.pending_tool_call_ids
      (not-false (is_empty o.pending_tool_call_ids) (reject_if-done _ _ h))

-- What the order of a message of each role is like, and the variables after it.
module _ (index : ℕ) (m : ChatMessage) (o o' : Order) where
  pub system_step :
      order_step system index m o ≡ ok o' → (o.seen_conversation_message ≡ false) × (o' ≡ o)
  unfolding order_step
  system_step h =
      let (a, b) = check-done _ _ o' h in (reject_if-done _ _ a, sym (ok-injective o o' b))

  pub user_step :
      order_step user index m o ≡ ok o'
      → (o.pending_tool_call_ids ≡ []) × (o' ≡ record o { seen_conversation_message = true })
  unfolding order_step
  user_step h =
      let (a, b) = check-done _ _ o' h in (nothing_pending index o a, sym (ok-injective _ o' b))

  pub assistant_step :
      order_step assistant index m o ≡ ok o'
      → (o.pending_tool_call_ids ≡ [])
        × (o'.seen_conversation_message ≡ true)
        × IsNamed o'
        × (insert_calls index 0 m.tool_calls [] ≡ ok o'.pending_tool_call_ids)
  unfolding order_step IsNamed
  assistant_step h =
      let (a, b) = check-done _ _ o' h in
      let (ids, c, d) = bind-ok _ _ o' b in
      let same = ok-injective _ o' d in
      let named : is_some (if is_empty ids then none else some index) ≡ not (is_empty ids) =
        ground arith in
      (nothing_pending index o a, rw (← same) refl, rw (← same) named, rw (← same) c)

pub record IsAnswered (key : Option Text) (o o' : Order) : Type 0 where
  pub call_id : Text
  pub same : key ≡ some call_id
  pub removed : remove call_id o.pending_tool_call_ids ≡ some o'.pending_tool_call_ids
  pub pending : is_empty o.pending_tool_call_ids ≡ false
  pub seen : o'.seen_conversation_message ≡ true
  pub named : IsNamed o → IsNamed o'

leave_pending-IsAnswered :
    (index : ℕ) (key : Text) (o o' : Order) (left : Option (List Text))
    → is_empty o.pending_tool_call_ids ≡ false
    → remove key o.pending_tool_call_ids ≡ left
    → leave_pending index key o left ≡ ok o'
    → IsAnswered (some key) o o'
unfolding leave_pending IsNamed
leave_pending-IsAnswered index key o o' none some_pending r h = absurd (ground arith)
leave_pending-IsAnswered index key o o' (some ids) some_pending r h =
    let same = ok-injective _ o' h in
    record {
      call_id = key;
      same = refl;
      removed = rw (← same) r;
      pending = some_pending;
      seen = rw (← same) refl;
      named = λ n. rw (← same) (ground (arith, n, some_pending));
    }

pub answer_call-IsAnswered :
    (index : ℕ) (key : Option Text) (o o' : Order)
    → answer_call index key o ≡ ok o'
    → IsAnswered key o o'
unfolding answer_call
answer_call-IsAnswered index none o o' h = absurd (ground arith)
answer_call-IsAnswered index (some key) o o' h =
    let (a, b) = check-done _ _ o' h in
    leave_pending-IsAnswered index key o o' (remove key o.pending_tool_call_ids)
      (reject_if-done _ _ a) refl b
