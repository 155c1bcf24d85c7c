-- ===== src/Scheduler/Acquire.antt =====
-- `ModelScheduler::acquire`, an async function, cut at the points where it waits: its entry, one
-- round of its loop, and the `select!` that ends a round. The cancellation token is what it says at
-- each of the places where the code reads it. The sections of the lock between two waits are one step,
-- and the notifications are left out.
use kir_ai.Prelude.{ℕ, ◌+◌, Bool, false, Option, none, some, leb, if◌then◌else◌}
use mathlib.Core.Option
use kir_ai.Scheduler.State.{
  GenerationPhase, SchedulerClass, ModelSchedulerOptions, ModelSchedulerState,
  record_decode_starvation_wait,
}
use kir_ai.Scheduler.Permit.{SchedulerPermit, SchedulerAcquireError, mark_cancelled, drop_permit}
use kir_ai.Scheduler.Ticket.{
  QueuedSchedulerTicket, admit, timed_out, decode_starvation_wait, drop_ticket,
}
use kir_ai.Scheduler.Admission.{
  Enqueued, refused, queued, try_acquire_immediate, enqueue, try_admit_queued,
}

-- How far a call of `acquire` has come.
pub data Acquire : Type 0 where
  failed : SchedulerAcquireError → Acquire
  granted : SchedulerPermit → Acquire
  waiting : QueuedSchedulerTicket → Option ℕ → Acquire

-- On an error the permit that was passed in is dropped.
unfoldable pub admit_unless_cancelled :
    SchedulerPermit → Bool → ModelSchedulerState → Acquire × ModelSchedulerState
unfolding mark_cancelled
admit_unless_cancelled permit is_cancelled s =
    if is_cancelled
    then (
      failed SchedulerAcquireError.cancelled_after_admission,
      drop_permit (mark_cancelled permit) s,
    )
    else (granted permit, s)

unfoldable pub start_waiting :
    ModelSchedulerOptions → ℕ → Enqueued → ModelSchedulerState → Acquire × ModelSchedulerState
start_waiting options now (refused err) s = (failed err, s)
start_waiting options now (queued ticket s') s =
    (waiting ticket (Option.map (λ timeout. now + timeout) options.queue_timeout), s')

-- From the entry to the loop.
unfoldable pub begin_acquire :
    ModelSchedulerOptions
    → SchedulerClass
    → GenerationPhase
    → Bool
    → Bool
    → ℕ
    → ModelSchedulerState
    → Acquire × ModelSchedulerState
unfolding start_waiting
begin_acquire options admission_class initial_phase cancelled_first cancelled_then now s =
    if cancelled_first
    then (failed SchedulerAcquireError.cancelled, s)
    else elim (try_acquire_immediate options admission_class initial_phase s) [
      | none ↦ start_waiting options now (enqueue options admission_class now s) s
      | some (permit, s') ↦ admit_unless_cancelled permit cancelled_then s'
    ]

unfoldable pub record_wait : Option ℕ → ModelSchedulerState → ModelSchedulerState
record_wait none s = s
record_wait (some wait) s = record_decode_starvation_wait wait s

-- One round of the loop up to the `select!`. A ticket that is not put back is dropped.
unfoldable pub poll_acquire :
    ModelSchedulerOptions
    → QueuedSchedulerTicket
    → Option ℕ
    → GenerationPhase
    → Bool
    → Bool
    → ℕ
    → ModelSchedulerState
    → Acquire × ModelSchedulerState
unfolding record_wait decode_starvation_wait admit
poll_acquire options ticket deadline initial_phase cancelled_first cancelled_then now s =
    if cancelled_first
    then (failed SchedulerAcquireError.cancelled, drop_ticket ticket s)
    else elim (try_admit_queued options ticket.id ticket.class initial_phase s) [
      | none ↦ (waiting ticket deadline, s)
      | some (permit, s') ↦
          let (result, s'') =
            admit_unless_cancelled permit cancelled_then
              (record_wait (decode_starvation_wait ticket now) s') in
          (result, drop_ticket (admit ticket) s'')
    ]

-- What ends the `select!`: a notification starts the next round.
pub data Wake : Type 0 where
  notified cancelled deadline_reached : Wake

-- The branch for the deadline is there only with a `queue_timeout`, and ready only at the deadline.
unfoldable pub deadline_is_due : Option ℕ → ℕ → Bool
deadline_is_due none now = false
deadline_is_due (some deadline) now = leb deadline now

unfoldable pub wake_acquire :
    QueuedSchedulerTicket
    → Option ℕ
    → Wake
    → ℕ
    → ModelSchedulerState
    → Acquire × ModelSchedulerState
unfolding deadline_is_due timed_out
wake_acquire ticket deadline Wake.notified now s = (waiting ticket deadline, s)
wake_acquire ticket deadline Wake.cancelled now s =
    (failed SchedulerAcquireError.cancelled, drop_ticket ticket s)
wake_acquire ticket deadline Wake.deadline_reached now s =
    if deadline_is_due deadline now
    then (failed SchedulerAcquireError.queue_timed_out, drop_ticket (timed_out ticket) s)
    else (waiting ticket deadline, s)
