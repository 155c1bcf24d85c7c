-- ===== src/Scheduler/Invariant/Queues.antt =====
-- What the steps of `acquire` do to the queues.
use kir_ai.Prelude.{
  ℕ, suc, ◌+◌, ◌^◌, ◌<◌, ◌≡◌, refl, Bool, true, false, Option, none, some, [], ◌∷◌, ◌++◌, arith,
  if◌then◌else◌, length, Option-cases, inl, inr, Bool-cases, pop_front,
}
use mathlib.Core.List.{append-nil}
use kir_ai.Scheduler.State.{
  GenerationPhase, SchedulerClass, class_eq, ModelSchedulerOptions, ModelSchedulerState, queue,
  set_queue, start_active, record_decode_starvation_wait,
}
use kir_ai.Scheduler.Permit.{SchedulerPermit, drop_permit, mark_cancelled}
use kir_ai.Scheduler.Ticket.{
  QueuedSchedulerTicket, drop_ticket, decode_starvation_wait, timed_out, admit,
}
use kir_ai.Scheduler.Admission.{
  try_acquire_immediate, try_admit_queued, enqueue, Enqueued, refused, queued,
}
use kir_ai.Scheduler.Acquire.{
  Acquire, failed, granted, waiting, begin_acquire, poll_acquire, wake_acquire, Wake,
  admit_unless_cancelled, start_waiting, record_wait, deadline_is_due,
}
use kir_ai.Scheduler.Invariant.Tickets.{
  without, remove_position, remove_position-without, without-front,
}

pub record SameQueues (s t : ModelSchedulerState) : Type 0 where
  pub prefill : t.queued_prefill ≡ s.queued_prefill
  pub decode : t.queued_decode ≡ s.queued_decode
  pub next : t.next_ticket ≡ s.next_ticket

-- The ticket was added at the end of its queue.
pub record Joined (limit : ℕ) (k : QueuedSchedulerTicket) (s t : ModelSchedulerState) : Type 0 where
  pub prefill :
      t.queued_prefill
      ≡ s.queued_prefill ++ (if class_eq k.class SchedulerClass.prefill then k.id ∷ [] else [])
  pub decode :
      t.queued_decode
      ≡ s.queued_decode ++ (if class_eq k.class SchedulerClass.decode then k.id ∷ [] else [])
  pub next : t.next_ticket ≡ suc s.next_ticket
  pub id : k.id ≡ suc s.next_ticket
  pub pending : k.admitted ≡ false
  pub room : length s.queued_prefill + length s.queued_decode < limit

-- The ticket is in no queue any more.
pub record Left (k : QueuedSchedulerTicket) (s t : ModelSchedulerState) : Type 0 where
  pub prefill : t.queued_prefill ≡ (
      if class_eq k.class SchedulerClass.prefill
      then without k.id s.queued_prefill
      else s.queued_prefill)
  pub decode : t.queued_decode ≡ (
      if class_eq k.class SchedulerClass.decode
      then without k.id s.queued_decode
      else s.queued_decode)
  pub next : t.next_ticket ≡ s.next_ticket

-- After the entry of `acquire`.
abbrev pub Begun : ℕ → ModelSchedulerState → Acquire → ModelSchedulerState → Type 0
Begun limit s (failed err) t = SameQueues s t
Begun limit s (granted p) t = SameQueues s t
Begun limit s (waiting k deadline) t = Joined limit k s t

-- After a later step of the call with the ticket `k`.
abbrev pub Continued :
    QueuedSchedulerTicket → ModelSchedulerState → Acquire → ModelSchedulerState → Type 0
Continued k s (failed err) t = Left k s t
Continued k s (granted p) t = Left k s t
Continued k s (waiting k' deadline) t = (k' ≡ k) × SameQueues s t

start_active-SameQueues :
    (class : SchedulerClass) (phase : GenerationPhase) (s : ModelSchedulerState)
    → SameQueues s (start_active class phase s)
unfolding start_active
start_active-SameQueues SchedulerClass.prefill GenerationPhase.prefill s = record {
  prefill = refl;
  decode = refl;
  next = refl;
}
start_active-SameQueues _ _ s = ground arith

pub drop_permit-SameQueues :
    (p : SchedulerPermit) (s : ModelSchedulerState) → SameQueues s (drop_permit p s)
unfolding drop_permit
drop_permit-SameQueues p s = ground arith

try_acquire_immediate-SameQueues :
    (o : ModelSchedulerOptions) (class : SchedulerClass) (phase : GenerationPhase)
    (s : ModelSchedulerState) {p : SchedulerPermit} {t : ModelSchedulerState}
    → try_acquire_immediate o class phase s ≡ some (p, t)
    → SameQueues s t
unfolding try_acquire_immediate
try_acquire_immediate-SameQueues o class phase s e =
    ground (arith, start_active-SameQueues class phase s)

enqueue-Joined :
    (o : ModelSchedulerOptions) (class : SchedulerClass) (now : ℕ) (s : ModelSchedulerState)
    {k : QueuedSchedulerTicket} {t : ModelSchedulerState}
    → s.next_ticket + 1 < 2 ^ 64
    → length s.queued_prefill + length s.queued_decode < 2 ^ 64
    → enqueue o class now s ≡ queued k t
    → Joined o.queue_limit k s t
unfolding enqueue
enqueue-Joined o SchedulerClass.prefill now s fresh small e =
    ground (arith, append-nil s.queued_decode)
enqueue-Joined o SchedulerClass.decode now s fresh small e =
    ground (arith, append-nil s.queued_prefill)

pub drop_ticket-Left :
    (k : QueuedSchedulerTicket) (s : ModelSchedulerState)
    → k.admitted ≡ false
    → Left k s (drop_ticket k s)
unfolding drop_ticket remove_position
drop_ticket-Left k s pending = ground (arith, remove_position-without k.id (queue k.class s))

try_admit_queued-Left :
    (o : ModelSchedulerOptions) (k : QueuedSchedulerTicket) (phase : GenerationPhase)
    (s : ModelSchedulerState) {p : SchedulerPermit} {t : ModelSchedulerState}
    → try_admit_queued o k.id k.class phase s ≡ some (p, t)
    → Left k s t
unfolding try_admit_queued
try_admit_queued-Left o k phase s e = ground (
  arith,
  start_active-SameQueues k.class phase (set_queue k.class (pop_front (queue k.class s)) s),
  without-front k.id (pop_front (queue k.class s)),
)

admitted-SameQueues :
    (p : SchedulerPermit) (c : Bool) (s t : ModelSchedulerState)
    → SameQueues s t
    → SameQueues s (admit_unless_cancelled p c t).1
unfolding admit_unless_cancelled
admitted-SameQueues p true s t h = ground (arith, drop_permit-SameQueues (mark_cancelled p) t)
admitted-SameQueues p false s t h = h

admitted-Left :
    (k : QueuedSchedulerTicket) (p : SchedulerPermit) (c : Bool) (s t : ModelSchedulerState)
    → Left k s t
    → Left k s (admit_unless_cancelled p c t).1
unfolding admit_unless_cancelled
admitted-Left k p true s t h = ground (arith, drop_permit-SameQueues (mark_cancelled p) t)
admitted-Left k p false s t h = h

record_wait-Left :
    (k : QueuedSchedulerTicket) (wait : Option ℕ) (s t : ModelSchedulerState)
    → Left k s t
    → Left k s (record_wait wait t)
unfolding record_wait record_decode_starvation_wait
record_wait-Left k none s t h = h
record_wait-Left k (some n) s t h = ground arith

-- `admit_unless_cancelled` never waits.
Begun-admit :
    (limit : ℕ) (p : SchedulerPermit) (c : Bool) (s t : ModelSchedulerState)
    → SameQueues s t
    → Begun limit s (admit_unless_cancelled p c t).0 (admit_unless_cancelled p c t).1
unfolding admit_unless_cancelled
Begun-admit limit p true s t h = admitted-SameQueues p true s t h
Begun-admit limit p false s t h = h

Continued-admit :
    (k : QueuedSchedulerTicket) (p : SchedulerPermit) (c : Bool) (s t : ModelSchedulerState)
    → Left k s t
    → Continued k s (admit_unless_cancelled p c t).0 (admit_unless_cancelled p c t).1
unfolding admit_unless_cancelled
Continued-admit k p true s t h = admitted-Left k p true s t h
Continued-admit k p false s t h = h

Begun-start :
    (o : ModelSchedulerOptions) (class : SchedulerClass) (now : ℕ) (s : ModelSchedulerState)
    (e : Enqueued)
    → s.next_ticket + 1 < 2 ^ 64
    → length s.queued_prefill + length s.queued_decode < 2 ^ 64
    → enqueue o class now s ≡ e
    → Begun o.queue_limit s (start_waiting o now e s).0 (start_waiting o now e s).1
unfolding start_waiting
Begun-start o class now s (refused err) fresh small e = record {
  prefill = refl;
  decode = refl;
  next = refl;
}
Begun-start o class now s (queued k t) fresh small e = enqueue-Joined o class now s fresh small e

pub begin_acquire-Begun :
    (o : ModelSchedulerOptions) (class : SchedulerClass) (phase : GenerationPhase) (c d : Bool)
    (now : ℕ) (s : ModelSchedulerState)
    → s.next_ticket + 1 < 2 ^ 64
    → length s.queued_prefill + length s.queued_decode < 2 ^ 64
    → let (r, t) = begin_acquire o class phase c d now s in Begun o.queue_limit s r t
unfolding begin_acquire
begin_acquire-Begun o class phase true d now s fresh small = record {
  prefill = refl;
  decode = refl;
  next = refl;
}
begin_acquire-Begun o class phase false d now s fresh small =
    elim (Option-cases (try_acquire_immediate o class phase s)) [
      | inl e ↦ rw e (Begun-start o class now s (enqueue o class now s) fresh small refl)
      | inr ((p, t), e) ↦
          rw e
            (Begun-admit o.queue_limit p d s t (try_acquire_immediate-SameQueues o class phase s e))
    ]

pub poll_acquire-Continued :
    (o : ModelSchedulerOptions) (k : QueuedSchedulerTicket) (deadline : Option ℕ)
    (phase : GenerationPhase) (c d : Bool) (now : ℕ) (s : ModelSchedulerState)
    → k.admitted ≡ false
    → let (r, t) = poll_acquire o k deadline phase c d now s in Continued k s r t
unfolding poll_acquire drop_ticket admit
poll_acquire-Continued o k deadline phase true d now s pending = drop_ticket-Left k s pending
poll_acquire-Continued o k deadline phase false d now s pending =
    elim (Option-cases (try_admit_queued o k.id k.class phase s)) [
      | inl e ↦ rw e (refl, record { prefill = refl; decode = refl; next = refl })
      | inr ((p, t), e) ↦ rw e (
          Continued-admit k p d s _ (
            record_wait-Left k (decode_starvation_wait k now) s t
              (try_admit_queued-Left o k phase s e)))
    ]

timed_out-Left :
    (k : QueuedSchedulerTicket) (s : ModelSchedulerState)
    → k.admitted ≡ false
    → Left k s (drop_ticket (timed_out k) s)
unfolding timed_out
timed_out-Left k s pending = ground (arith, drop_ticket-Left (record k { timeout = true }) s)

pub wake_acquire-Continued :
    (k : QueuedSchedulerTicket) (deadline : Option ℕ) (event : Wake) (now : ℕ)
    (s : ModelSchedulerState)
    → k.admitted ≡ false
    → let (r, t) = wake_acquire k deadline event now s in Continued k s r t
unfolding wake_acquire
wake_acquire-Continued k deadline Wake.notified now s pending =
    (refl, record { prefill = refl; decode = refl; next = refl })
wake_acquire-Continued k deadline Wake.cancelled now s pending = drop_ticket-Left k s pending
wake_acquire-Continued k deadline Wake.deadline_reached now s pending =
    elim (Bool-cases (deadline_is_due deadline now)) [
      | inl e ↦ rw e (timed_out-Left k s pending)
      | inr e ↦ rw e (refl, record { prefill = refl; decode = refl; next = refl })
    ]
