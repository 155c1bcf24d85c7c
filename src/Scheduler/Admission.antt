-- ===== src/Scheduler/Admission.antt =====
-- The methods of `ModelScheduler` that run under one lock of the state.
use kir_ai.Prelude.{
  ℕ, Bool, false, ◌&&◌, ◌||◌, Option, none, some, [], ◌∷◌, ◌++◌, ltb, leb, ◌==◌, if◌then◌else◌,
  front, pop_front, wrapping_add,
}
use kir_ai.Scheduler.State.{
  GenerationPhase, SchedulerClass, class_eq, ModelSchedulerOptions, ModelSchedulerState,
  active_total, queued_total, queue, set_queue, start_active, has_prefill_pressure,
  record_decode_starvation_event, next_admissible_class,
}
use kir_ai.Scheduler.Permit.{SchedulerPermit, new_permit, SchedulerAcquireError}
use kir_ai.Scheduler.Ticket.{QueuedSchedulerTicket}

unfoldable pub classify_estimated_tokens : ModelSchedulerOptions → ℕ → SchedulerClass
classify_estimated_tokens options tokens =
    if leb options.prefill_threshold_chars tokens
    then SchedulerClass.prefill
    else SchedulerClass.decode

unfoldable pub try_acquire_immediate :
    ModelSchedulerOptions
    → SchedulerClass
    → GenerationPhase
    → ModelSchedulerState
    → Option (SchedulerPermit × ModelSchedulerState)
unfolding active_total queued_total start_active
try_acquire_immediate options admission_class initial_phase s =
    if leb options.concurrency_limit (active_total s) || ltb 0 (queued_total s)
    then none
    else some (new_permit initial_phase, start_active admission_class initial_phase s)

-- The starvation that `enqueue` notes before it takes a ticket.
unfoldable pub note_starvation : Bool → ModelSchedulerState → ModelSchedulerState
unfolding record_decode_starvation_event
note_starvation decode_starvation s =
    if decode_starvation then record_decode_starvation_event s else s

-- The ticket number and the `push_back`.
unfoldable pub push_ticket : SchedulerClass → ModelSchedulerState → ℕ × ModelSchedulerState
unfolding queue set_queue
push_ticket class s =
    let id = wrapping_add s.next_ticket 1 in
    (id, set_queue class (queue class s ++ id ∷ []) (record s { next_ticket = id }))

pub data Enqueued : Type 0 where
  refused : SchedulerAcquireError → Enqueued
  queued : QueuedSchedulerTicket → ModelSchedulerState → Enqueued

unfoldable pub enqueue : ModelSchedulerOptions → SchedulerClass → ℕ → ModelSchedulerState → Enqueued
unfolding queued_total has_prefill_pressure note_starvation push_ticket
enqueue options class now s =
    if leb options.queue_limit (queued_total s)
    then refused SchedulerAcquireError.queue_full
    else (let decode_starvation = class_eq class SchedulerClass.decode && has_prefill_pressure s in
        let (id, s') = push_ticket class (note_starvation decode_starvation s) in
        queued
          (record {
            id = id;
            class = class;
            admitted = false;
            timeout = false;
            queued_at = now;
            decode_starvation = decode_starvation;
          })
          s')

-- `front().copied() != Some(ticket)`, negated
abbrev pub at_front : ℕ → Option ℕ → Bool
at_front ticket none = false
at_front ticket (some id) = id == ticket

-- `next_admissible_class(…)? != admission_class`, negated; `?` returns early on `none`.
abbrev pub class_is_next : SchedulerClass → Option SchedulerClass → Bool
class_is_next class none = false
class_is_next class (some next) = class_eq next class

unfoldable pub try_admit_queued :
    ModelSchedulerOptions
    → ℕ
    → SchedulerClass
    → GenerationPhase
    → ModelSchedulerState
    → Option (SchedulerPermit × ModelSchedulerState)
unfolding active_total next_admissible_class queue set_queue start_active
try_admit_queued options ticket admission_class initial_phase s =
    if leb options.concurrency_limit (active_total s)
    then none
    else (if class_is_next admission_class (next_admissible_class options.prefill_burst s)
        then (if at_front ticket (front (queue admission_class s))
            then some (
              new_permit initial_phase,
              start_active admission_class initial_phase
                  (set_queue admission_class (pop_front (queue admission_class s)) s),
            )
            else none)
        else none)
