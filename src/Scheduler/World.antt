-- ===== src/Scheduler/World.antt =====
-- The scheduler with all that uses it: the permits that are held, the calls of `acquire` that wait,
-- and the events that change them in any order. An event names a permit or a call by its position;
-- one that is not there changes nothing. A round of the loop of `acquire` may come at any time, with or
-- without a notification.
use kir_ai.Prelude.{
  ℕ, ◌-◌, Bool, not, ◌||◌, Option, none, some, List, [], ◌∷◌, ◌++◌, if◌then◌else◌, get_elem?, set,
  remove_at,
}
use kir_ai.Scheduler.State.{
  GenerationPhase, SchedulerClass, ModelSchedulerOptions, ModelSchedulerState, initial,
  PrefillYieldRelease, record_prefill_yield_success, record_prefill_chunk_latency,
}
use kir_ai.Scheduler.Permit.{
  SchedulerPermit, is_decode, SchedulerAcquireError, mark_failed, mark_cancelled,
  transition_to_decode, drop_permit, release_for_yield, complete_readmission_error,
}
use kir_ai.Scheduler.Ticket.{QueuedSchedulerTicket, drop_ticket}
use kir_ai.Scheduler.Acquire.{
  Acquire, failed, granted, waiting, begin_acquire, poll_acquire, Wake, wake_acquire,
}

-- The permit that waits in `yield_prefill_chunk`, with what it remembers across the wait.
pub record Yielding : Type 0 where
  pub permit : SchedulerPermit
  pub release : PrefillYieldRelease
  pub wait_started : ℕ

-- A call of `acquire` in its loop: by a new request, or by a permit that yielded.
pub record Waiter : Type 0 where
  pub ticket : QueuedSchedulerTicket
  pub deadline : Option ℕ
  pub initial_phase : GenerationPhase
  pub yielding : Option Yielding

pub record World : Type 0 where
  pub state : ModelSchedulerState
  pub permits : List SchedulerPermit
  pub waiters : List Waiter

abbrev pub start : World
start = record { state = initial; permits = []; waiters = [] }

-- What a yielding permit does with an admission (`*self = permit`; the old one has nothing to drop).
unfoldable pub resume : Option Yielding → ℕ → ModelSchedulerState → ModelSchedulerState
resume none now s = s
resume (some y) now s = record_prefill_yield_success y.release (now - y.wait_started) s

-- And with an error: the old permit comes back, and is its holder's to drop.
unfoldable pub give_back :
    Option Yielding → SchedulerAcquireError → List SchedulerPermit → List SchedulerPermit
give_back none err permits = permits
give_back (some y) err permits = complete_readmission_error err y.permit ∷ permits

-- The result of a step of `acquire`, for a call with this phase and origin: `rest` are the other
-- calls, and `place` puts the call among them if it goes on waiting.
unfoldable pub settle :
    GenerationPhase
    → Option Yielding
    → ℕ
    → List SchedulerPermit
    → List Waiter
    → (Waiter → List Waiter)
    → Acquire
    → ModelSchedulerState
    → World
unfolding resume give_back
settle phase yielding now permits rest place (failed err) s = record {
  state = s;
  permits = give_back yielding err permits;
  waiters = rest;
}
settle phase yielding now permits rest place (granted permit) s = record {
  state = resume yielding now s;
  permits = permit ∷ permits;
  waiters = rest;
}
settle phase yielding now permits rest place (waiting ticket deadline) s = record {
  state = s;
  permits = permits;
  waiters =
      place (record {
        ticket = ticket;
        deadline = deadline;
        initial_phase = phase;
        yielding = yielding;
      });
}

abbrev pub at_end : List Waiter → Waiter → List Waiter
at_end waiters w = waiters ++ w ∷ []

-- A new call of `acquire`.
unfoldable pub request :
    ModelSchedulerOptions → SchedulerClass → GenerationPhase → Bool → Bool → ℕ → World → World
request options class phase cancelled_first cancelled_then now w =
    let (result, s) =
      begin_acquire options class phase cancelled_first cancelled_then now w.state in
    settle phase none now w.permits w.waiters (at_end w.waiters) result s

unfoldable pub poll_waiter :
    ModelSchedulerOptions → ℕ → Option Waiter → Bool → Bool → ℕ → World → World
poll_waiter options i none cancelled_first cancelled_then now w = w
poll_waiter options i (some c) cancelled_first cancelled_then now w =
    let (result, s) =
      poll_acquire options c.ticket c.deadline c.initial_phase cancelled_first cancelled_then now
        w.state in
    settle c.initial_phase c.yielding now w.permits (remove_at w.waiters i) (set w.waiters i) result
      s

-- One round of the loop of the call at position `i`.
unfoldable pub poll : ModelSchedulerOptions → ℕ → Bool → Bool → ℕ → World → World
unfolding poll_waiter
poll options i cancelled_first cancelled_then now w =
    poll_waiter options i (get_elem? w.waiters i) cancelled_first cancelled_then now w

unfoldable pub wake_waiter : ℕ → Option Waiter → Wake → ℕ → World → World
wake_waiter i none event now w = w
wake_waiter i (some c) event now w =
    let (result, s) = wake_acquire c.ticket c.deadline event now w.state in
    settle c.initial_phase c.yielding now w.permits (remove_at w.waiters i) (set w.waiters i) result
      s

-- The end of the `select!` of the call at position `i`.
unfoldable pub wake : ℕ → Wake → ℕ → World → World
unfolding wake_waiter
wake i event now w = wake_waiter i (get_elem? w.waiters i) event now w

unfoldable pub abandon_waiter : ℕ → Option Waiter → World → World
abandon_waiter i none w = w
abandon_waiter i (some c) w = record w {
  state = drop_ticket c.ticket w.state;
  waiters = remove_at w.waiters i;
}

-- The future at position `i` is dropped while it waits. A permit that yielded goes with it, and has
-- nothing to report (`terminal_on_drop` is off).
unfoldable pub abandon : ℕ → World → World
unfolding abandon_waiter
abandon i w = abandon_waiter i (get_elem? w.waiters i) w

-- What it does for an active permit in its prefill.
unfoldable pub yield_active :
    ModelSchedulerOptions → ℕ → SchedulerPermit → Bool → Bool → Bool → ℕ → World → World
yield_active options i permit cancelled cancelled_first cancelled_then now w =
    if cancelled
    then record w { permits = set w.permits i (mark_cancelled permit) }
    else (let (old, release, s) = release_for_yield permit w.state in
        let (result, s') =
          begin_acquire options SchedulerClass.prefill GenerationPhase.prefill cancelled_first
            cancelled_then now s in
        settle GenerationPhase.prefill
          (some (record { permit = old; release = release; wait_started = now })) now
          (remove_at w.permits i) w.waiters (at_end w.waiters) result s')

unfoldable pub yield_permit :
    ModelSchedulerOptions → ℕ → Option SchedulerPermit → Bool → Bool → Bool → ℕ → World → World
unfolding yield_active
yield_permit options i none cancelled cancelled_first cancelled_then now w = w
yield_permit options i (some permit) cancelled cancelled_first cancelled_then now w =
    if is_decode permit.phase || not permit.active
    then w
    else yield_active options i permit cancelled cancelled_first cancelled_then now w

-- `yield_prefill_chunk` of the permit at position `i`.
unfoldable pub yield_prefill_chunk :
    ModelSchedulerOptions → ℕ → Bool → Bool → Bool → ℕ → World → World
unfolding yield_permit
yield_prefill_chunk options i cancelled cancelled_first cancelled_then now w =
    yield_permit options i (get_elem? w.permits i) cancelled cancelled_first cancelled_then now w

unfoldable pub decode_permit : ℕ → Option SchedulerPermit → World → World
decode_permit i none w = w
decode_permit i (some permit) w =
    let (permit', s) = transition_to_decode permit w.state in
    record w { state = s; permits = set w.permits i permit' }

-- `transition_to_decode` of the permit at position `i`.
unfoldable pub begin_decode : ℕ → World → World
unfolding decode_permit
begin_decode i w = decode_permit i (get_elem? w.permits i) w

unfoldable pub mark_permit :
    (SchedulerPermit → SchedulerPermit) → ℕ → Option SchedulerPermit → World → World
mark_permit mark i none w = w
mark_permit mark i (some permit) w = record w { permits = set w.permits i (mark permit) }

unfoldable pub finish_permit : ℕ → Option SchedulerPermit → World → World
finish_permit i none w = w
finish_permit i (some permit) w = record w {
  state = drop_permit permit w.state;
  permits = remove_at w.permits i;
}

-- The permit at position `i` is dropped.
unfoldable pub finish : ℕ → World → World
unfolding finish_permit
finish i w = finish_permit i (get_elem? w.permits i) w

pub data Event : Type 0 where
  requests : SchedulerClass → GenerationPhase → Bool → Bool → ℕ → Event
  polls : ℕ → Bool → Bool → ℕ → Event
  wakes : ℕ → Wake → ℕ → Event
  abandons : ℕ → Event
  yields : ℕ → Bool → Bool → Bool → ℕ → Event
  decodes marks_failed marks_cancelled finishes : ℕ → Event
  records_chunk_latency : ℕ → Event

unfoldable pub step : ModelSchedulerOptions → World → Event → World
unfolding mark_permit
step options w (requests class phase first then_ now) =
    request options class phase first then_ now w
step options w (polls i first then_ now) = poll options i first then_ now w
step options w (wakes i event now) = wake i event now w
step options w (abandons i) = abandon i w
step options w (yields i cancelled first then_ now) =
    yield_prefill_chunk options i cancelled first then_ now w
step options w (decodes i) = begin_decode i w
step options w (marks_failed i) = mark_permit mark_failed i (get_elem? w.permits i) w
step options w (marks_cancelled i) = mark_permit mark_cancelled i (get_elem? w.permits i) w
step options w (finishes i) = finish i w
step options w (records_chunk_latency latency) = record w {
  state = record_prefill_chunk_latency latency w.state;
}

unfoldable pub run : ModelSchedulerOptions → World → List Event → World
unfolding step
run options w [] = w
run options w (e ∷ es) = run options (step options w e) es
