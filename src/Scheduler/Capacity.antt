-- ===== src/Scheduler/Capacity.antt =====
-- How many requests run and how many wait, after every history.
use kir_ai.Prelude.{ℕ, ◌+◌, ◌^◌, ◌≤◌, ◌<◌, ◌≡◌, List, [], ◌∷◌, arith, length, total, if◌then◌else◌}
use kir_ai.Scheduler.State.{SchedulerClass, ModelSchedulerOptions, active_total, queued_total}
use kir_ai.Scheduler.Permit.{SchedulerPermit}
use kir_ai.Scheduler.World.{Event, run, start}
use kir_ai.Scheduler.Invariant.Active.{in_prefill, in_decode}
use kir_ai.Scheduler.Invariant.Tickets.{ids}
use kir_ai.Scheduler.Invariant.Queued.{queued_length}
use kir_ai.Scheduler.Invariant.History.{after-IsCounted, after-IsQueued}

-- 1 for a permit that holds one of the model's slots.
abbrev pub in_flight : SchedulerPermit → ℕ
in_flight p = if p.active then 1 else 0

total-in_flight :
    (ps : List SchedulerPermit) → total in_flight ps ≡ total in_prefill ps + total in_decode ps
total-in_flight [] = omega arith
total-in_flight (p ∷ ps) = ground (arith, total-in_flight ps)

-- After any history of requests, polls, wake-ups, cancellations, yields, phase changes and drops, in
-- any order, the scheduler's count of active requests is the number of permits that hold a slot, and
-- it is at most the concurrency limit. (The limit fits a `usize`.)
pub active_total-permits :
    (o : ModelSchedulerOptions) (es : List Event)
    → o.concurrency_limit < 2 ^ 64
    → let w = run o start es in
      (active_total w.state ≡ total in_flight w.permits)
      × (total in_flight w.permits ≤ o.concurrency_limit)
unfolding active_total
active_total-permits o es small =
    let w = run o start es in
    let h = (after-IsCounted o small es).counts in
    let e = total-in_flight w.permits in
    (
      omega (arith, e, h.prefill, h.decode, h.bounded),
      omega (arith, e, h.prefill, h.decode, h.bounded),
    )

-- After any history of fewer than 2^64 events each queue holds exactly the tickets of the calls of
-- `acquire` that wait for its class, in the order in which they came, and the scheduler's count of
-- queued requests is the number of those calls, at most the queue limit. (The limit fits a `usize`.)
pub queue-waiters :
    (o : ModelSchedulerOptions) (es : List Event)
    → o.queue_limit < 2 ^ 64
    → length es < 2 ^ 64
    → let w = run o start es in
      (w.state.queued_prefill ≡ ids SchedulerClass.prefill w.waiters)
      × (w.state.queued_decode ≡ ids SchedulerClass.decode w.waiters)
      × (queued_total w.state ≡ length w.waiters)
      × (length w.waiters ≤ o.queue_limit)
unfolding queued_total
queue-waiters o es small short =
    let w = run o start es in
    let h = after-IsQueued o small es short in
    let e = queued_length o.queue_limit (length es) w.waiters w.state h in
    (h.prefill, h.decode, omega (arith, e, h.room), h.room)
