-- ===== src/Scheduler/Invariant/History.antt =====
-- The invariants after a whole history of events.
use kir_ai.Prelude.{ℕ, suc, ◌+◌, ◌^◌, ◌<◌, refl, List, [], ◌∷◌, arith, length}
use kir_ai.Scheduler.State.{ModelSchedulerOptions}
use kir_ai.Scheduler.World.{World, Event, step, run, start}
use kir_ai.Scheduler.Invariant.Tickets.{ids}
use kir_ai.Scheduler.Invariant.Counted.{IsCounted, step-IsCounted}
use kir_ai.Scheduler.Invariant.Queued.{IsQueued}
use kir_ai.Scheduler.Invariant.Events.{step-IsQueued}

start-IsCounted : (o : ModelSchedulerOptions) → IsCounted o start
start-IsCounted o = record {
  counts = record { prefill = refl; decode = refl; bounded = omega arith; reports = tt };
  resting = tt;
}

pub start-IsQueued : (o : ModelSchedulerOptions) → IsQueued o 0 start
unfolding ids
start-IsQueued o = record {
  prefill = refl;
  decode = refl;
  ordered = omega arith;
  room = omega arith;
  issued = omega arith;
  pending = tt;
}

run-IsCounted :
    (o : ModelSchedulerOptions)
    → o.concurrency_limit < 2 ^ 64
    → (w : World) → IsCounted o w
    → (es : List Event) → IsCounted o (run o w es)
unfolding run
run-IsCounted o small w h [] = h
run-IsCounted o small w h (e ∷ es) =
    run-IsCounted o small (step o w e) (step-IsCounted o small w h e) es

run-IsQueued :
    (o : ModelSchedulerOptions)
    → o.queue_limit < 2 ^ 64
    → (n : ℕ) (w : World) → IsQueued o n w
    → (es : List Event) → n + length es < 2 ^ 64
    → IsQueued o (n + length es) (run o w es)
unfolding run
run-IsQueued o small n w q [] short = mathlib.Core.Path.subst (λ k. IsQueued o k w) (omega arith) q
run-IsQueued o small n w q (e ∷ es) short =
    mathlib.Core.Path.subst (λ k. IsQueued o k (run o (step o w e) es)) (omega arith)
      (run-IsQueued o small (suc n) (step o w e) (step-IsQueued o small n (omega arith) w q e) es
        (omega arith))

pub after-IsCounted :
    (o : ModelSchedulerOptions)
    → o.concurrency_limit < 2 ^ 64
    → (es : List Event) → IsCounted o (run o start es)
after-IsCounted o small es = run-IsCounted o small start (start-IsCounted o) es

pub after-IsQueued :
    (o : ModelSchedulerOptions)
    → o.queue_limit < 2 ^ 64
    → (es : List Event) → length es < 2 ^ 64
    → IsQueued o (length es) (run o start es)
after-IsQueued o small es short =
    mathlib.Core.Path.subst (λ k. IsQueued o k (run o start es)) (omega arith)
      (run-IsQueued o small 0 start (start-IsQueued o) es (omega arith))
