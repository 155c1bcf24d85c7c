-- ===== src/Tests/SchedulerCases.antt =====
-- The scheduler of crates/llm-server/src/engine/scheduler.rs.
use kir_ai.Prelude.{
  ℕ, ◌+◌, ◌≤◌, ◌≡◌, refl, true, false, none, some, List, [], ◌∷◌, arith, length, total,
}
use kir_ai.Scheduler.State.{
  GenerationPhase, SchedulerClass, ModelSchedulerOptions, active_total, queued_total,
}
use kir_ai.Scheduler.Permit.{drop_permit}
use kir_ai.Scheduler.Ticket.{drop_ticket}
use kir_ai.Scheduler.Admission.{try_admit_queued, try_acquire_immediate, enqueue}
use kir_ai.Scheduler.Acquire.{begin_acquire, poll_acquire, admit_unless_cancelled}
use kir_ai.Scheduler.World.{
  Waiter, Event, requests, polls, finishes, run, start, request, poll, finish, settle,
}
use kir_ai.Scheduler.Invariant.Tickets.{ids}
use kir_ai.Scheduler.Capacity.{in_flight, active_total-permits, queue-waiters}
use kir_ai.Scheduler.Order.{admitted_in_order}
use kir_ai.Scheduler.Fairness.{decode_not_starved}

-- Opens what a run calls.
scheduler : Unit {0}
unfolding run request poll finish begin_acquire poll_acquire try_acquire_immediate try_admit_queued
    enqueue settle drop_permit drop_ticket admit_unless_cancelled
scheduler = tt

abbrev options : ModelSchedulerOptions
options = record {
  concurrency_limit = 1;
  queue_limit = 3;
  queue_timeout = some 50;
  prefill_threshold_chars = 16;
  prefill_burst = 1;
}

abbrev ask : SchedulerClass → GenerationPhase → ℕ → Event
ask class phase now = requests class phase false false now

-- One request runs, and then a decode request and a prefill request wait.
abbrev busy : List Event
busy =
    ask SchedulerClass.prefill GenerationPhase.prefill 0
    ∷ ask SchedulerClass.decode GenerationPhase.decode 1
    ∷ ask SchedulerClass.prefill GenerationPhase.prefill 2
    ∷ []

abbrev freed : List Event
freed =
    ask SchedulerClass.prefill GenerationPhase.prefill 0
    ∷ ask SchedulerClass.decode GenerationPhase.decode 1
    ∷ ask SchedulerClass.prefill GenerationPhase.prefill 2
    ∷ finishes 0
    ∷ []

-- What the calls above leave behind when they wait.
abbrev decode_waiter : ℕ → ℕ → Waiter
decode_waiter id now = record {
  ticket = record {
    id = id;
    class = SchedulerClass.decode;
    admitted = false;
    timeout = false;
    queued_at = now;
    decode_starvation = true;
  };
  deadline = some (now + 50);
  initial_phase = GenerationPhase.decode;
  yielding = none;
}

abbrev two_decodes : List Event
two_decodes =
    ask SchedulerClass.prefill GenerationPhase.prefill 0
    ∷ ask SchedulerClass.decode GenerationPhase.decode 1
    ∷ ask SchedulerClass.decode GenerationPhase.decode 2
    ∷ finishes 0
    ∷ []

abbrev prefill_first : List Event
prefill_first =
    ask SchedulerClass.decode GenerationPhase.decode 0
    ∷ ask SchedulerClass.prefill GenerationPhase.prefill 1
    ∷ ask SchedulerClass.decode GenerationPhase.decode 2
    ∷ []

abbrev overtaking : List Event
overtaking = finishes 0 ∷ polls 0 false false 3 ∷ []

overtaken : (run options (run options start prefill_first) overtaking).state.admitted_prefill ≡ 1
unfolding scheduler
overtaken = refl

busy_waiters : (run options start busy).state.queued_decode ≡ 1 ∷ []
unfolding scheduler
busy_waiters = refl

active_total-permits_example :
    (active_total (run options start busy).state ≡ total in_flight (run options start busy).permits)
    × (total in_flight (run options start busy).permits ≤ 1)
active_total-permits_example = active_total-permits options busy (omega arith)

queue-waiters_example :
    ((run options start busy).state.queued_prefill
      ≡ ids SchedulerClass.prefill (run options start busy).waiters)
    × ((run options start busy).state.queued_decode
        ≡ ids SchedulerClass.decode (run options start busy).waiters)
    × (queued_total (run options start busy).state ≡ length (run options start busy).waiters)
    × (length (run options start busy).waiters ≤ 3)
queue-waiters_example = queue-waiters options busy (omega arith) (omega arith)

admitted_in_order_example : 0 ≤ 1
unfolding scheduler
admitted_in_order_example =
    admitted_in_order options two_decodes 0 1 (decode_waiter 1 1) (decode_waiter 2 2) _
      (omega arith) (omega arith) refl refl refl refl

decode_not_starved_example :
    (run options (run options start prefill_first) overtaking).state.admitted_prefill
    ≤ (run options start prefill_first).state.admitted_prefill + 1
unfolding scheduler
decode_not_starved_example =
    decode_not_starved options prefill_first overtaking (omega arith) (omega arith)
      (refl, (refl, tt)) refl
