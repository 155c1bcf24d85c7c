-- ===== src/Scheduler/Digits.antt =====
-- crates/llm-server/src/engine/scheduler.rs: `decimal_digits` against powers of ten.
use native.Mathlib.Nat.{pow-succ'}
use kir_ai.Prelude.{
  ℕ, zero, suc, ◌+◌, ◌-◌, ◌/◌, ◌^◌, ◌≤◌, ◌<◌, ◌≡◌, refl, sym, subst, ◌⊎◌, inl, inr, true, leb,
  Bool-cases, u64_max, arith,
}
use kir_ai.Scheduler.Estimate.{digits_loop, decimal_digits}

-- The digits that the loop adds to those it starts with.
Digits : ℕ → ℕ → Type 0
Digits value m = (value < 10 ^ suc m) × ((m ≡ 0) ⊎ (10 ^ m ≤ value))

one_more : (value m : ℕ) → leb 10 value ≡ true → Digits (value / 10) m → Digits value (suc m)
unfolding Digits
one_more value m t (below, above) = (
  omega (arith, pow-succ' 10 (suc m), below),
  inr (elim above [
    | inl z ↦ ground (arith, t, z, pow-succ' 10 m)
    | inr le ↦ omega (arith, le, pow-succ' 10 m)
  ]),
)

digits_loop-Digits :
    (fuel value digits : ℕ)
    → value < 10 ^ suc fuel
    → (m : ℕ) × ((digits_loop fuel value digits ≡ digits + m) × Digits value m)
unfolding digits_loop Digits
digits_loop-Digits zero value digits h = (0, (omega arith, (h, inl refl)))
digits_loop-Digits (suc fuel) value digits h = elim (Bool-cases (leb 10 value)) [
  | inr f ↦ (0, (rw (f, digits_loop) (omega arith), (ground (arith, f), inl refl)))
  | inl t ↦
      let (m, (e, d)) =
        digits_loop-Digits fuel (value / 10) (digits + 1)
          (omega (arith, h, pow-succ' 10 (suc fuel))) in
      (suc m, (rw (t, digits_loop) (omega (arith, e)), one_more value m t d))
]

pow-Digits :
    (value m : ℕ)
    → Digits value m
    → (value < 10 ^ (1 + m)) × ((1 + m ≡ 1) ⊎ (10 ^ (1 + m - 1) ≤ value))
unfolding Digits
pow-Digits value m (below, above) =
    let one : 1 + m ≡ suc m = omega arith in
    let back : 1 + m - 1 ≡ m = omega arith in
    (
      subst (λ n. value < 10 ^ n) (sym one) below,
      elim above [
        | inl z ↦ inl (omega (arith, z))
        | inr le ↦ inr (subst (λ n. 10 ^ n ≤ value) (sym back) le)
      ],
    )

-- For every number of a word, the loop ends and its answer is the number of the decimal digits: the
-- number is below ten to that power, and where it has more than one digit, not below ten to the one
-- before.
pub decimal_digits-pow :
    (value : ℕ)
    → value ≤ u64_max
    → (value < 10 ^ decimal_digits value)
      × ((decimal_digits value ≡ 1) ⊎ (10 ^ (decimal_digits value - 1) ≤ value))
unfolding decimal_digits Digits
decimal_digits-pow value word =
    let (m, (e, d)) = digits_loop-Digits 19 value 1 (omega (arith, word)) in
    rw (e, decimal_digits) (pow-Digits value m d)
