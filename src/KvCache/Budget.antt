-- ===== src/KvCache/Budget.antt =====
-- crates/llm-kv-cache/src/lib.rs: `KvCacheBudget`, the tokens that a cache may hold.
use kir_ai.Prelude.{
  ℕ, ◌+◌, ◌-◌, ◌≤◌, ◌<◌, ◌≡◌, refl, ◌⊎◌, List, [], ◌∷◌, inl, inr, ltb, u64_max, if◌then◌else◌,
  Bool-cases, saturating_sub, arith,
}
use kir_ai.KvCache.Block.{KvCacheError, Outcome, ok, err}

pub record KvCacheBudget : Type 0 where
  pub max_tokens : ℕ
  pub used_tokens : ℕ

unfoldable pub new_budget : ℕ → KvCacheBudget
new_budget max_tokens = record { max_tokens = max_tokens; used_tokens = 0 }

-- The subtraction does not pass below 0, as `IsWithin` says.
unfoldable pub remaining_tokens : KvCacheBudget → ℕ
remaining_tokens b = b.max_tokens - b.used_tokens

unfoldable pub reserve : KvCacheBudget → ℕ → Outcome KvCacheBudget
unfolding remaining_tokens
reserve b tokens =
    if ltb u64_max (b.used_tokens + tokens)
    then err (KvCacheError.capacity_exceeded tokens (remaining_tokens b))
    else (if ltb b.max_tokens (b.used_tokens + tokens)
        then err (KvCacheError.capacity_exceeded tokens (remaining_tokens b))
        else ok (record b { used_tokens = b.used_tokens + tokens }))

unfoldable pub release_tokens : KvCacheBudget → ℕ → KvCacheBudget
release_tokens b tokens = record b { used_tokens = saturating_sub b.used_tokens tokens }

-- The use of a budget: a reservation, which an error leaves out, or a release.
pub data BudgetCommand : Type 0 where
  reserving : ℕ → BudgetCommand
  releasing : ℕ → BudgetCommand

unfoldable pub reserved : KvCacheBudget → Outcome KvCacheBudget → KvCacheBudget
reserved b (ok b') = b'
reserved b (err e) = b

unfoldable pub after_all : List BudgetCommand → KvCacheBudget → KvCacheBudget
unfolding reserve reserved release_tokens
after_all [] b = b
after_all (BudgetCommand.reserving tokens ∷ cs) b = after_all cs (reserved b (reserve b tokens))
after_all (BudgetCommand.releasing tokens ∷ cs) b = after_all cs (release_tokens b tokens)

-- The budget is the one that was made, and not overdrawn.
IsWithin : ℕ → KvCacheBudget → Type 0
IsWithin max_tokens b = (b.max_tokens ≡ max_tokens) × (b.used_tokens ≤ b.max_tokens)

reserve-IsWithin :
    (max_tokens tokens : ℕ) (b : KvCacheBudget)
    → IsWithin max_tokens b
    → IsWithin max_tokens (reserved b (reserve b tokens))
unfolding IsWithin reserve reserved remaining_tokens
reserve-IsWithin max_tokens tokens b h = elim (Bool-cases (ltb u64_max (b.used_tokens + tokens))) [
  | inl over ↦ rw (over, reserved, reserve) h
  | inr within ↦ elim (Bool-cases (ltb b.max_tokens (b.used_tokens + tokens))) [
    | inl over ↦ rw (within, reserved, reserve) (rw (over, reserved) h)
    | inr fits ↦ rw (within, reserved, reserve) (rw (fits, reserved) (ground (arith, h, fits)))
  ]
]

release_tokens-IsWithin :
    (max_tokens tokens : ℕ) (b : KvCacheBudget)
    → IsWithin max_tokens b
    → IsWithin max_tokens (release_tokens b tokens)
unfolding IsWithin release_tokens
release_tokens-IsWithin max_tokens tokens b h = ground (arith, h)

after_all-IsWithin :
    (max_tokens : ℕ) (cs : List BudgetCommand) (b : KvCacheBudget)
    → IsWithin max_tokens b
    → IsWithin max_tokens (after_all cs b)
unfolding after_all
after_all-IsWithin max_tokens [] b h = h
after_all-IsWithin max_tokens (BudgetCommand.reserving tokens ∷ cs) b h =
    after_all-IsWithin max_tokens cs (reserved b (reserve b tokens))
      (reserve-IsWithin max_tokens tokens b h)
after_all-IsWithin max_tokens (BudgetCommand.releasing tokens ∷ cs) b h =
    after_all-IsWithin max_tokens cs (release_tokens b tokens)
      (release_tokens-IsWithin max_tokens tokens b h)

reserve_cases :
    (b : KvCacheBudget) (tokens : ℕ)
    → b.max_tokens ≤ u64_max
    → b.used_tokens ≤ b.max_tokens
    → ((tokens ≤ remaining_tokens b)
        × ((b' : KvCacheBudget) × (reserve b tokens ≡ ok b')
            × (remaining_tokens b' + tokens ≡ remaining_tokens b)))
      ⊎ ((remaining_tokens b < tokens)
          × (reserve b tokens ≡ err (KvCacheError.capacity_exceeded tokens (remaining_tokens b))))
unfolding reserve remaining_tokens
reserve_cases b tokens word le = elim (Bool-cases (ltb u64_max (b.used_tokens + tokens))) [
  | inl over ↦ inr (ground (arith, over, word, le), rw (over, reserve) refl)
  | inr within ↦ elim (Bool-cases (ltb b.max_tokens (b.used_tokens + tokens))) [
    | inl over ↦ inr (ground (arith, over, le), rw (within, reserve) (rw (over, reserve) refl))
    | inr fits ↦ inl (
      ground (arith, fits, le),
      (
        record b { used_tokens = b.used_tokens + tokens },
        (rw (within, reserve) (rw (fits, reserve) refl)),
        ground (arith, fits, le),
      ),
    )
  ]
]

-- After any reservations and releases on a new budget of `max_tokens` tokens, a number of a word: a
-- reservation of `tokens` succeeds exactly when they are at most the tokens that remain, and then
-- that many fewer remain; otherwise it fails, with an error that says how many were asked for and
-- how many remain.
pub reserve-remaining_tokens :
    (max_tokens : ℕ) (cs : List BudgetCommand) (tokens : ℕ)
    → max_tokens ≤ u64_max
    → let b = after_all cs (new_budget max_tokens) in
      ((tokens ≤ remaining_tokens b)
        × ((b' : KvCacheBudget) × (reserve b tokens ≡ ok b')
            × (remaining_tokens b' + tokens ≡ remaining_tokens b)))
      ⊎ ((remaining_tokens b < tokens)
          × (reserve b tokens ≡ err (KvCacheError.capacity_exceeded tokens (remaining_tokens b))))
unfolding new_budget IsWithin
reserve-remaining_tokens max_tokens cs tokens word =
    let b = after_all cs (new_budget max_tokens) in
    let h : IsWithin max_tokens b =
      after_all-IsWithin max_tokens cs (new_budget max_tokens) (refl, omega arith) in
    reserve_cases b tokens (omega (arith, word, h.0)) h.1
