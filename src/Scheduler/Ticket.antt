-- ===== src/Scheduler/Ticket.antt =====
-- `QueuedSchedulerTicket`: the place of a waiting request in its queue.
use kir_ai.Prelude.{
  ℕ, zero, suc, ◌-◌, Bool, true, false, Option, none, some, List, [], ◌∷◌, ◌==◌, if◌then◌else◌,
  remove_at, wrapping_add,
}
use mathlib.Core.Option
use kir_ai.Scheduler.State.{SchedulerClass, ModelSchedulerState, queue, set_queue}

pub record QueuedSchedulerTicket : Type 0 where
  pub id : ℕ
  pub class : SchedulerClass
  pub admitted : Bool
  pub timeout : Bool
  pub queued_at : ℕ
  pub decode_starvation : Bool

-- `queue.iter().position(|ticket| *ticket == id)`
unfoldable pub position : ℕ → List ℕ → Option ℕ
position id [] = none
position id (ticket ∷ rest) = if ticket == id then some zero else Option.map suc (position id rest)

unfoldable pub admit : QueuedSchedulerTicket → QueuedSchedulerTicket
admit t = record t { admitted = true }

unfoldable pub timed_out : QueuedSchedulerTicket → QueuedSchedulerTicket
timed_out t = record t { timeout = true }

-- `elapsed()` at the instant `now`.
unfoldable pub decode_starvation_wait : QueuedSchedulerTicket → ℕ → Option ℕ
decode_starvation_wait t now = if t.decode_starvation then some (now - t.queued_at) else none

-- What `drop` counts once the ticket is out of the queue.
unfoldable pub count_left : Bool → ModelSchedulerState → ModelSchedulerState
count_left true s = record s { queue_timeouts = wrapping_add s.queue_timeouts 1 }
count_left false s = record s { queued_cancelled = wrapping_add s.queued_cancelled 1 }

unfoldable pub leave_queue : QueuedSchedulerTicket → ModelSchedulerState → ModelSchedulerState
unfolding queue set_queue position count_left
leave_queue t s = elim (position t.id (queue t.class s)) [
  | none ↦ s
  | some index ↦ count_left t.timeout (set_queue t.class (remove_at (queue t.class s) index) s)
]

-- `impl Drop for QueuedSchedulerTicket`
unfoldable pub drop_ticket : QueuedSchedulerTicket → ModelSchedulerState → ModelSchedulerState
unfolding leave_queue
drop_ticket t s = if t.admitted then s else leave_queue t s
