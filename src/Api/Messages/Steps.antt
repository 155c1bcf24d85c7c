-- ===== src/Api/Messages/Steps.antt =====
-- crates/llm-api/src/validation/helpers.rs: what a message that passes a check is like.
use kir_ai.Prelude.{
  ℕ, ◌≡◌, refl, ap, inl, inr, Bool, true, false, ◌&&◌, not, Option, none, some, List, [], ◌∷◌,
  is_empty, Bool-cases, arith,
}
use kir_ai.Json.{Text}
use kir_ai.Api.Error.{
  system, user, assistant, tool, Message, Result, ok, err, done, ◌>>◌, ◌>>=◌, reject_if,
}
use kir_ai.Api.Types.{ChatMessage}
use kir_ai.Api.Messages.{
  is_some, reject_tool_call_id_for_non_tool_message, reject_tool_calls_for_non_assistant_message,
  role_fields,
}
use kir_ai.Api.Messages.Dialogue.{IsSystem, IsUser, IsAssistant, IsAnswer}

pub check-done :
    {B : Type 0} (a : Result (Unit {0})) (b : Result B) (x : B)
    → (a >> b) ≡ ok x
    → (a ≡ done) × (b ≡ ok x)
check-done (ok tt) b x h = (refl, h)
check-done (err e) b x h = absurd (ground arith)

pub bind-ok :
    {A B : Type 0} (a : Result A) (k : A → Result B) (x : B)
    → (a >>= k) ≡ ok x
    → (v : A) × (a ≡ ok v) × (k v ≡ ok x)
bind-ok (ok v) k x h = (v, refl, h)
bind-ok (err e) k x h = absurd (ground arith)

pub reject_if-done : (b : Bool) (m : Message) → reject_if b m ≡ done → b ≡ false
reject_if-done true m h = absurd (ground arith)
reject_if-done false m h = refl

pub ok-injective : {A : Type 0} (a b : A) → ok a ≡ ok b → a ≡ b
ok-injective a b h = ap (λ r. elim r [ ok x ↦ x | err e ↦ a ]) h

pub is_empty-nil : {A : Type 0} (xs : List A) → is_empty xs ≡ true → xs ≡ []
is_empty-nil [] h = refl
is_empty-nil (x ∷ xs) h = absurd (ground arith)

pub not-false : (b : Bool) → not b ≡ false → b ≡ true
not-false true h = refl
not-false false h = absurd (ground arith)

pub is_some-none : {A : Type 0} (o : Option A) → is_some o ≡ false → o ≡ none
is_some-none none h = refl
is_some-none (some a) h = absurd (ground arith)

module _ (index : ℕ) (m : ChatMessage) where
  no_call_id_of : reject_tool_call_id_for_non_tool_message index m ≡ done → m.tool_call_id ≡ none
  unfolding reject_tool_call_id_for_non_tool_message
  no_call_id_of h = is_some-none m.tool_call_id (reject_if-done _ _ h)

  no_calls_of : reject_tool_calls_for_non_assistant_message index m ≡ done → m.tool_calls ≡ []
  unfolding reject_tool_calls_for_non_assistant_message
  no_calls_of h =
      is_empty-nil m.tool_calls (not-false (is_empty m.tool_calls) (reject_if-done _ _ h))

  pub role_fields-IsSystem : m.role ≡ system → role_fields system index m ≡ done → IsSystem m
  unfolding role_fields
  role_fields-IsSystem r h =
      let (a, b) = check-done _ _ tt h in
      let (c, d) = check-done _ _ tt b in
      record {
        role = r;
        content = not-false (is_some m.content) (reject_if-done _ _ a);
        no_call_id = no_call_id_of c;
        no_calls = no_calls_of d;
      }

  pub role_fields-IsUser : m.role ≡ user → role_fields user index m ≡ done → IsUser m
  unfolding role_fields
  role_fields-IsUser r h =
      let (a, b) = check-done _ _ tt h in
      let (c, d) = check-done _ _ tt b in
      record {
        role = r;
        content = not-false (is_some m.content) (reject_if-done _ _ a);
        no_call_id = no_call_id_of c;
        no_calls = no_calls_of d;
      }

  pub role_fields-IsAssistant :
      m.role ≡ assistant → role_fields assistant index m ≡ done → IsAssistant m
  unfolding role_fields
  role_fields-IsAssistant r h =
      let (a, b) = check-done _ _ tt h in
      let some_part : not (is_some m.content) && is_empty m.tool_calls ≡ false =
        reject_if-done _ _ a in
      record {
        role = r;
        content = elim (Bool-cases (is_some m.content)) [
          | inl t ↦ inl t
          | inr f ↦ inr (ground (arith, f, some_part))
        ];
        no_call_id = no_call_id_of b;
      }

  pub role_fields-IsAnswer :
      (key : Text)
      → m.role ≡ tool
      → m.tool_call_id ≡ some key
      → role_fields tool index m ≡ done
      → IsAnswer m key
  unfolding role_fields
  role_fields-IsAnswer key r k h =
      let (a, b) = check-done _ _ tt h in
      let (c, d) = check-done _ _ tt b in
      record {
        role = r;
        content = not-false (is_some m.content) (reject_if-done _ _ a);
        call_id = k;
        no_calls = no_calls_of d;
      }
