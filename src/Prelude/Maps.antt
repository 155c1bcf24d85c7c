-- ===== src/Prelude/Maps.antt =====
-- `HashMap`s whose keys are numbers, as association lists: `get`, `insert`, `remove`.
use Prim.Native.Nat.{ℕ, suc, ◌≤◌}
use mathlib.Core.Path.{◌≡◌, refl}
use mathlib.Core.Option.{Option, none, some}
use mathlib.Core.List.{List, [], ◌∷◌}
use mathlib.Core.Logic.{inl, inr}
use native.Mathlib.Omega.{arith}
use kir_ai.Prelude.Tests.{◌==◌, if◌then◌else◌, Bool-cases}
use kir_ai.Prelude.Lists.{length}

abbrev pub Map {ℓ} : Type ℓ → Type ℓ
Map V = List (ℕ × V)

module _ {ℓ} {V : Type ℓ} where
  unfoldable pub get : ℕ → Map V → Option V
  get key [] = none
  get key ((k, v) ∷ m) = if k == key then some v else get key m

  -- A write to a key, which is new or there.
  unfoldable pub insert : ℕ → V → Map V → Map V
  insert key v [] = (key, v) ∷ []
  insert key v ((k, old) ∷ m) =
      let others = insert key v m in if k == key then (k, v) ∷ m else (k, old) ∷ others

  unfoldable pub remove : ℕ → Map V → Map V
  remove key [] = []
  remove key ((k, v) ∷ m) =
      let others = remove key m in if k == key then others else (k, v) ∷ others

  pub get-insert :
      (key j : ℕ) (v : V) (m : Map V)
      → get j (insert key v m) ≡ (if key == j then some v else get j m)
  unfolding get insert
  get-insert key j v [] = refl
  get-insert key j v ((k, old) ∷ m) = ground (arith, get-insert key j v m)

  pub get-remove :
      (key j : ℕ) (m : Map V) → get j (remove key m) ≡ (if key == j then none else get j m)
  unfolding get remove
  get-remove key j [] = ground arith
  get-remove key j ((k, v) ∷ m) = ground (arith, get-remove key j m)

  pub length-remove-le : (key : ℕ) (m : Map V) → length (remove key m) ≤ length m
  unfolding remove
  length-remove-le key [] = omega arith
  length-remove-le key ((k, v) ∷ m) = ground (arith, length-remove-le key m)

  pub length-remove :
      (key : ℕ) (m : Map V) (v : V) → get key m ≡ some v → suc (length (remove key m)) ≤ length m
  unfolding get remove
  length-remove key [] v e = absurd (ground arith)
  length-remove key ((k, old) ∷ m) v e = elim (Bool-cases (k == key)) [
    | inl h ↦ rw h (omega (arith, length-remove-le key m))
    | inr h ↦
        let e' : get key m ≡ some v = ground arith in rw h (omega (arith, length-remove key m v e'))
  ]
