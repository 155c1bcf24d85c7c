-- ===== src/Api/Messages/Pending.antt =====
-- crates/llm-api/src/validation/helpers.rs: the identifiers of the calls that are pending.
use mathlib.Core.List.{Perm, perm_middle}
use mathlib.Core.List.Perm
use kir_ai.Prelude.{
  ℕ, ◌+◌, ◌≡◌, refl, ap, subst, inl, inr, true, false, none, some, List, [], ◌∷◌, ◌++◌, All,
  Bool-cases, Option-cases, arith,
}
use kir_ai.Json.{Text}
use kir_ai.Api.Error.{ok}
use kir_ai.Api.Types.{ToolCall}
use kir_ai.Api.Messages.{same_text, contains, remove, insert_calls}
use kir_ai.Api.Messages.Dialogue.{IsDistinct, call_ids}
use kir_ai.Api.Messages.Steps.{check-done, reject_if-done, ok-injective}

same_text-eq : (a b : Text) → same_text a b ≡ true → a ≡ b
unfolding same_text
same_text-eq [] [] h = refl
same_text-eq [] (y ∷ b) h = absurd (ground arith)
same_text-eq (x ∷ a) [] h = absurd (ground arith)
same_text-eq (x ∷ a) (y ∷ b) h =
    let first : x ≡ y = ground (arith, h) in
    let rest : same_text a b ≡ true = ground (arith, h) in
    rw first (ap (λ t. y ∷ t) (same_text-eq a b rest))

pub same_text_comm : (a b : Text) → same_text a b ≡ same_text b a
unfolding same_text
same_text_comm [] [] = refl
same_text_comm [] (y ∷ b) = refl
same_text_comm (x ∷ a) [] = refl
same_text_comm (x ∷ a) (y ∷ b) = ground (arith, same_text_comm a b)

some-injective : {A : Type 0} (a b : A) → some a ≡ some b → a ≡ b
some-injective a b h = ap (λ o. elim o [ some x ↦ x | none ↦ a ]) h

pub remove-Perm :
    (key : Text) (ids left : List Text) → remove key ids ≡ some left → Perm (key ∷ left) ids
unfolding remove
remove-Perm key [] left h = absurd (ground arith)
remove-Perm key (k ∷ ids) left h = elim (Bool-cases (same_text key k)) [
  | inl t ↦
      let same : some ids ≡ some left = rw (← h) (unfold remove in rw t refl) in
      let rest : ids ≡ left = some-injective ids left same in
      rw (same_text-eq key k t, rest) (Perm.refl (k ∷ left))
  | inr f ↦ elim (Option-cases (remove key ids)) [
    | inl n ↦ absurd (ground (arith, f, n, h))
    | inr (l, e) ↦
        let same : some (k ∷ l) ≡ some left = rw (← h) (unfold remove in rw (f, e) refl) in
        let rest : k ∷ l ≡ left = some-injective (k ∷ l) left same in
        rw (← rest) (Perm.trans (Perm.swap k key l) (Perm.cons k (remove-Perm key ids l e)))
  ]
]

-- No key of the first list is in the second.
unfoldable pub IsFresh : List Text → List Text → Type 0
IsFresh keys ids = All (λ k. contains k ids ≡ false) keys

IsFresh-contains :
    (key : Text) (keys ids : List Text)
    → IsFresh keys (key ∷ ids)
    → (contains key keys ≡ false) × IsFresh keys ids
unfolding IsFresh contains
IsFresh-contains key [] ids h = (refl, tt)
IsFresh-contains key (k ∷ keys) ids h =
    let rest = IsFresh-contains key keys ids h.1 in
    let apart : same_text k key ≡ false = ground (arith, h.0) in
    let fresh : contains k ids ≡ false = ground (arith, h.0) in
    (ground (arith, same_text_comm key k, apart, rest.0), (fresh, rest.1))

pub insert_calls-call_ids :
    (index call_index : ℕ) (calls : List ToolCall) (ids ids' : List Text)
    → insert_calls index call_index calls ids ≡ ok ids'
    → IsDistinct (call_ids calls) × Perm ids' (call_ids calls ++ ids) × IsFresh (call_ids calls) ids
unfolding insert_calls IsDistinct IsFresh
insert_calls-call_ids index call_index [] ids ids' h =
    (tt, subst (λ l. Perm l ids) (ok-injective ids ids' h) (Perm.refl ids), tt)
insert_calls-call_ids index call_index (call ∷ calls) ids ids' h =
    let (a, b) = check-done _ _ ids' h in
    let (distinct, perm, fresh) =
      insert_calls-call_ids index (call_index + 1) calls (call.id ∷ ids) ids' b in
    let (new, old) = IsFresh-contains call.id (call_ids calls) ids fresh in
    (
      (new, distinct),
      Perm.trans perm (perm_middle (call_ids calls) ids),
      (reject_if-done _ _ a, old),
    )
