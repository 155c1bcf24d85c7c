-- ===== src/Api/Messages/Removal.antt =====
-- crates/llm-api/src/validation/helpers.rs: when an identifier can be inserted, or taken away.
use mathlib.Core.List.{Perm, Mem, not-mem-nil, mem-cons_self, eq-or-mem_of_mem-cons}
use mathlib.Core.List.Perm
use mathlib.Core.Logic.Or
use mathlib.Core.Bool.{Bool-set}
use kir_ai.Prelude.{
  ℕ, ◌+◌, ◌≡◌, refl, ◌∙◌, subst, inl, inr, true, false, some, List, [], ◌∷◌, is_empty, Bool-cases,
  ==-refl, arith,
}
use kir_ai.Json.{Text}
use kir_ai.Api.Error.{ok}
use kir_ai.Api.Types.{ToolCall}
use kir_ai.Api.Messages.{same_text, contains, remove, insert_calls}
use kir_ai.Api.Messages.Dialogue.{call_ids, IsDistinct}
use kir_ai.Api.Messages.Pending.{same_text_comm, remove-Perm, IsFresh}

same_text_refl : (a : Text) → same_text a a ≡ true
unfolding same_text
same_text_refl [] = refl
same_text_refl (x ∷ a) = rw (==-refl x) (same_text_refl a)

Mem-contains : (key : Text) (ids : List Text) → Mem key ids → contains key ids ≡ true
unfolding contains
Mem-contains key [] h = absurd (not-mem-nil h)
Mem-contains key (k ∷ ids) h =
    Or.elim (Bool-set _ _) (eq-or-mem_of_mem-cons h)
      (λ e. subst (λ j. contains key (j ∷ ids) ≡ true) e (rw (same_text_refl key) refl))
      (λ m. ground (arith, Mem-contains key ids m))

contains-remove :
    (key : Text) (ids : List Text)
    → contains key ids ≡ true
    → (left : List Text) × (remove key ids ≡ some left)
unfolding contains remove
contains-remove key [] h = absurd (ground arith)
contains-remove key (k ∷ ids) h = elim (Bool-cases (same_text key k)) [
  | inl t ↦ (ids, rw t refl)
  | inr f ↦
      let inside : contains key ids ≡ true = ground (arith, f, h) in
      let (left, e) = contains-remove key ids inside in (k ∷ left, rw (f, e) refl)
]

-- An identifier that is pending can be taken away.
pub remove-first :
    (key : Text) (keys ids : List Text)
    → Perm (key ∷ keys) ids
    → (left : List Text) × (remove key ids ≡ some left) × Perm keys left
remove-first key keys ids p =
    let (left, e) =
      contains-remove key ids (Mem-contains key ids ((Perm.mem_iff p).0 mem-cons_self)) in
    (left, e, Perm.cons_inv (Perm.trans p (Perm.symm (remove-Perm key ids left e))))

IsFresh-more :
    (key : Text) (keys ids : List Text)
    → contains key keys ≡ false
    → IsFresh keys ids
    → IsFresh keys (key ∷ ids)
unfolding contains IsFresh
IsFresh-more key [] ids c h = tt
IsFresh-more key (k ∷ keys) ids c h =
    let apart : same_text key k ≡ false = ground (arith, c) in
    let later : contains key keys ≡ false = ground (arith, c) in
    (rw (same_text_comm k key ∙ apart) h.0, IsFresh-more key keys ids later h.1)

pub insert_distinct :
    (index call_index : ℕ) (calls : List ToolCall) (ids : List Text)
    → IsDistinct (call_ids calls)
    → IsFresh (call_ids calls) ids
    → (ids' : List Text) × (insert_calls index call_index calls ids ≡ ok ids')
unfolding insert_calls IsDistinct IsFresh
insert_distinct index call_index [] ids d h = (ids, refl)
insert_distinct index call_index (call ∷ calls) ids d h =
    let (ids', e) =
      insert_distinct index (call_index + 1) calls (call.id ∷ ids) d.1
        (IsFresh-more call.id (call_ids calls) ids d.0 h.1) in
    (ids', rw h.0 e)

pub IsFresh-nil : (keys : List Text) → IsFresh keys []
unfolding IsFresh contains
IsFresh-nil [] = tt
IsFresh-nil (key ∷ keys) = (refl, IsFresh-nil keys)

pub remove-filled :
    (key : Text) (ids left : List Text) → remove key ids ≡ some left → is_empty ids ≡ false
unfolding remove
remove-filled key [] left e = absurd (ground arith)
remove-filled key (k ∷ ids) left e = refl
