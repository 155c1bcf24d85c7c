-- ===== src/Scheduler/Fairness.antt =====
-- Prefill requests overtake a waiting decode request only within the burst.
use kir_ai.Prelude.{
  ℕ, suc, ◌+◌, ◌^◌, ◌≤◌, ◌<◌, ◌≡◌, refl, max, inl, inr, false, List, [], ◌∷◌, arith, length,
  is_empty, subst,
}
use kir_ai.Scheduler.State.{SchedulerClass, ModelSchedulerOptions, ModelSchedulerState}
use kir_ai.Scheduler.World.{World, Event, step, run, start}
use kir_ai.Scheduler.Invariant.Queued.{IsQueued, queued_length}
use kir_ai.Scheduler.Invariant.Events.{step-IsQueued}
use kir_ai.Scheduler.Invariant.Admissions.{Admits}
use kir_ai.Scheduler.Invariant.Tally.{step-Admits}
use kir_ai.Scheduler.Invariant.History.{start-IsQueued}

-- A decode request is in the queue before each of the events.
abbrev pub DecodeWaits : ModelSchedulerOptions → World → List Event → Type 0
DecodeWaits o w [] = Unit
DecodeWaits o w (e ∷ es) = (is_empty w.state.queued_decode ≡ false) × DecodeWaits o (step o w e) es

-- The tallies are far from wrapping around.
record IsSmall (n : ℕ) (s : ModelSchedulerState) : Type 0 where
  prefill : s.admitted_prefill ≤ n
  decode : s.admitted_decode ≤ n
  since : s.prefill_admissions_since_decode ≤ n

Admits-IsSmall :
    (burst n : ℕ) (s t : ModelSchedulerState)
    → n + 1 < 2 ^ 64
    → Admits burst s t
    → IsSmall n s
    → IsSmall (suc n) t
Admits-IsSmall burst n s t few (inl h) k = ground arith
Admits-IsSmall burst n s t few (inr (SchedulerClass.prefill, h)) k = ground arith
Admits-IsSmall burst n s t few (inr (SchedulerClass.decode, h)) k = ground arith

-- What holds after `n` events.
record Holds (o : ModelSchedulerOptions) (n : ℕ) (w : World) : Type 0 where
  queued : IsQueued o n w
  small : IsSmall n w.state

module _ (o : ModelSchedulerOptions) (small : o.queue_limit < 2 ^ 64) where
  Holds-Admits :
      (n : ℕ) (w : World) (e : Event)
      → Holds o n w
      → Admits o.prefill_burst w.state (step o w e).state
  Holds-Admits n w e h =
      step-Admits o w
        (omega (arith, queued_length o.queue_limit n w.waiters w.state h.queued, h.queued.room)) e

  step-Holds :
      (n : ℕ) (w : World) (e : Event) → n + 1 < 2 ^ 64 → Holds o n w → Holds o (suc n) (step o w e)
  step-Holds n w e few h = record {
    queued = step-IsQueued o small n few w h.queued e;
    small = Admits-IsSmall o.prefill_burst n w.state _ few (Holds-Admits n w e h) h.small;
  }

  run-Holds :
      (n : ℕ) (w : World) (es : List Event)
      → n + length es < 2 ^ 64
      → Holds o n w
      → Holds o (n + length es) (run o w es)
  unfolding run
  run-Holds n w [] few h = subst (λ k. Holds o k w) (omega arith) h
  run-Holds n w (e ∷ es) few h =
      subst (λ k. Holds o k (run o (step o w e) es)) (omega arith)
        (run-Holds (suc n) (step o w e) es (omega arith) (step-Holds n w e (omega arith) h))

-- Between two states with a decode request waiting all along.
record Overtakes (burst : ℕ) (s t : ModelSchedulerState) : Type 0 where
  forward : s.admitted_decode ≤ t.admitted_decode
  tally :
      t.admitted_decode ≡ s.admitted_decode
      → t.admitted_prefill + s.prefill_admissions_since_decode
        ≡ s.admitted_prefill + t.prefill_admissions_since_decode
  bound :
      t.admitted_decode ≡ s.admitted_decode
      → t.prefill_admissions_since_decode ≤ max burst s.prefill_admissions_since_decode

step-Overtakes :
    (burst n : ℕ) (s t u : ModelSchedulerState)
    → n + 1 < 2 ^ 64
    → IsSmall n s
    → is_empty s.queued_decode ≡ false
    → Admits burst s t
    → Overtakes burst t u
    → Overtakes burst s u
step-Overtakes burst n s t u few k w (inl h) o = record {
  forward = ground arith;
  tally = λ e. ground (arith, o.tally (ground arith));
  bound = λ e. ground (arith, o.bound (ground arith));
}
step-Overtakes burst n s t u few k w (inr (SchedulerClass.prefill, h)) o = record {
  forward = ground arith;
  tally = λ e. ground (arith, o.tally (ground arith));
  bound = λ e. ground (arith, o.bound (ground arith));
}
step-Overtakes burst n s t u few k w (inr (SchedulerClass.decode, h)) o = record {
  forward = ground arith;
  tally = λ e. absurd (ground arith);
  bound = λ e. absurd (ground arith);
}

run-Overtakes :
    (o : ModelSchedulerOptions)
    → o.queue_limit < 2 ^ 64
    → (n : ℕ) (w : World) (es : List Event) → n + length es < 2 ^ 64
    → Holds o n w
    → DecodeWaits o w es
    → Overtakes o.prefill_burst w.state (run o w es).state
unfolding run
run-Overtakes o small n w [] few h d = record {
  forward = omega arith;
  tally = λ e. refl;
  bound = λ e. omega arith;
}
run-Overtakes o small n w (e ∷ es) few h d =
    step-Overtakes o.prefill_burst n w.state (step o w e).state _ (omega arith) h.small d.0
      (Holds-Admits o small n w e h)
      (run-Overtakes o small (suc n) (step o w e) es (omega arith)
        (step-Holds o small n w e (omega arith) h) d.1)

start-Holds : (o : ModelSchedulerOptions) → Holds o 0 start
start-Holds o = record {
  queued = start-IsQueued o;
  small = record { prefill = omega arith; decode = omega arith; since = omega arith };
}

-- After any history, while a decode request stays in the queue and none is admitted, at most
-- `prefill_burst` prefill requests are admitted. (Fewer than 2^64 events in all.)
pub decode_not_starved :
    (o : ModelSchedulerOptions) (before during : List Event)
    → o.queue_limit < 2 ^ 64
    → length before + length during < 2 ^ 64
    → let w = run o start before in
      let v = run o w during in
      DecodeWaits o w during
      → v.state.admitted_decode ≡ w.state.admitted_decode
      → v.state.admitted_prefill ≤ w.state.admitted_prefill + o.prefill_burst
decode_not_starved o before during small short waits none_admitted =
    let w = run o start before in
    let h = run-Holds o small 0 start before (omega arith) (start-Holds o) in
    let r = run-Overtakes o small (0 + length before) w during (omega arith) h waits in
    omega (arith, r.tally none_admitted, r.bound none_admitted)
