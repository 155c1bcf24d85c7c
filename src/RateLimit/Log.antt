-- ===== src/RateLimit/Log.antt =====
-- `ClientRequestLog`: the instants at which a client's requests were accepted, oldest first.
-- Instants and durations are numbers of nanoseconds.
use kir_ai.Prelude.{
  ℕ, ◌-◌, Bool, ◌&&◌, Option, none, some, List, [], ◌∷◌, ◌++◌, leb, if◌then◌else◌, is_empty, front,
  saturating_sub, unwrap_or, ltb,
}

pub record ClientRequestLog : Type 0 where
  pub accepted_at : List ℕ
  pub last_seen : ℕ

-- `ClientRequestLog::new`
abbrev pub new_log : ℕ → ClientRequestLog
new_log now = record { accepted_at = []; last_seen = now }

-- `accepted_at.push_back(now)`
abbrev pub push_back : ℕ → ClientRequestLog → ClientRequestLog
push_back now log = record log { accepted_at = log.accepted_at ++ now ∷ [] }

-- The loop that pops the front while it is as old as the window.
unfoldable pub prune_from : ℕ → ℕ → List ℕ → List ℕ
prune_from now window [] = []
prune_from now window (accepted_at ∷ rest) =
    if leb window (saturating_sub now accepted_at)
    then prune_from now window rest
    else accepted_at ∷ rest

unfoldable pub prune : ℕ → ℕ → ClientRequestLog → ClientRequestLog
prune now window log = record log { accepted_at = prune_from now window log.accepted_at }

-- `Duration::checked_sub`
checked_sub : ℕ → ℕ → Option ℕ
checked_sub a b = if ltb a b then none else some (a - b)

since_front : ℕ → ℕ → Option ℕ → Option ℕ
unfolding checked_sub
since_front now window none = none
since_front now window (some accepted_at) = checked_sub window (saturating_sub now accepted_at)

unfoldable pub reset_after : ℕ → ℕ → ClientRequestLog → ℕ
unfolding since_front
reset_after now window log = unwrap_or (since_front now window (front log.accepted_at)) 0

unfoldable pub is_expired : ℕ → ℕ → ClientRequestLog → Bool
is_expired now ttl log = is_empty log.accepted_at && leb ttl (saturating_sub now log.last_seen)
