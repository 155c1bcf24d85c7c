-- ===== src/Scheduler/Invariant/Active.antt =====
-- The counts of active requests, against the permits that are held.
use kir_ai.Prelude.{
  ℕ, ◌+◌, ◌^◌, ◌≤◌, ◌<◌, ◌≡◌, refl, Bool, true, false, ◌&&◌, not, Option, some, arith,
  if◌then◌else◌, Option-cases, inl, inr, pop_front, Bool-cases,
}
use kir_ai.Scheduler.State.{
  GenerationPhase, SchedulerClass, ModelSchedulerOptions, ModelSchedulerState, start_active,
  record_decode_starvation_wait,
}
use kir_ai.Scheduler.Permit.{SchedulerPermit, is_decode, drop_permit, mark_cancelled, new_permit}
use kir_ai.Scheduler.Ticket.{QueuedSchedulerTicket, drop_ticket, decode_starvation_wait, timed_out}
use kir_ai.Scheduler.Admission.{
  try_acquire_immediate, try_admit_queued, enqueue, Enqueued, refused, queued,
}
use kir_ai.Scheduler.Acquire.{
  Acquire, failed, granted, waiting, begin_acquire, poll_acquire, wake_acquire, Wake,
  admit_unless_cancelled, start_waiting, record_wait, deadline_is_due,
}

-- 1 for an active permit of the phase, 0 for another.
abbrev pub in_prefill : SchedulerPermit → ℕ
in_prefill p = if p.active && not (is_decode p.phase) then 1 else 0

abbrev pub in_decode : SchedulerPermit → ℕ
in_decode p = if p.active && is_decode p.phase then 1 else 0

pub record SameActive (s t : ModelSchedulerState) : Type 0 where
  pub prefill : t.active_prefill ≡ s.active_prefill
  pub decode : t.active_decode ≡ s.active_decode

-- `t` has the request of the permit more than `s`, and is within the limit.
pub record OneMore (limit : ℕ) (p : SchedulerPermit) (s t : ModelSchedulerState) : Type 0 where
  pub prefill : t.active_prefill ≡ s.active_prefill + in_prefill p
  pub decode : t.active_decode ≡ s.active_decode + in_decode p
  pub bounded : t.active_prefill + t.active_decode ≤ limit
  pub reports : p.terminal_on_drop ≡ true

abbrev pub ActiveAfter : ℕ → ModelSchedulerState → Acquire → ModelSchedulerState → Type 0
ActiveAfter limit s (failed err) t = SameActive s t
ActiveAfter limit s (granted p) t = OneMore limit p s t
ActiveAfter limit s (waiting ticket deadline) t = SameActive s t

start_active-OneMore :
    (limit : ℕ) (class : SchedulerClass) (phase : GenerationPhase) (s : ModelSchedulerState)
    → limit < 2 ^ 64
    → s.active_prefill + s.active_decode < limit
    → OneMore limit (new_permit phase) s (start_active class phase s)
unfolding start_active
start_active-OneMore limit SchedulerClass.prefill GenerationPhase.prefill s small room =
    ground arith
start_active-OneMore limit _ _ s small room = ground arith

try_acquire_immediate-OneMore :
    (o : ModelSchedulerOptions) (class : SchedulerClass) (phase : GenerationPhase)
    (s : ModelSchedulerState) {p : SchedulerPermit} {t : ModelSchedulerState}
    → o.concurrency_limit < 2 ^ 64
    → s.active_prefill + s.active_decode ≤ o.concurrency_limit
    → try_acquire_immediate o class phase s ≡ some (p, t)
    → OneMore o.concurrency_limit p s t
unfolding try_acquire_immediate
try_acquire_immediate-OneMore o class phase s small fits e =
    ground (arith, start_active-OneMore o.concurrency_limit class phase s)

try_admit_queued-OneMore :
    (o : ModelSchedulerOptions) (id : ℕ) (class : SchedulerClass) (phase : GenerationPhase)
    (s : ModelSchedulerState) {p : SchedulerPermit} {t : ModelSchedulerState}
    → o.concurrency_limit < 2 ^ 64
    → s.active_prefill + s.active_decode ≤ o.concurrency_limit
    → try_admit_queued o id class phase s ≡ some (p, t)
    → OneMore o.concurrency_limit p s t
unfolding try_admit_queued
try_admit_queued-OneMore o id SchedulerClass.prefill phase s small fits e = ground (
  arith,
  start_active-OneMore o.concurrency_limit SchedulerClass.prefill phase
      (record s { queued_prefill = pop_front s.queued_prefill }),
)
try_admit_queued-OneMore o id SchedulerClass.decode phase s small fits e = ground (
  arith,
  start_active-OneMore o.concurrency_limit SchedulerClass.decode phase
      (record s { queued_decode = pop_front s.queued_decode }),
)

drop_permit-less :
    (limit : ℕ) (p : SchedulerPermit) (s t : ModelSchedulerState)
    → OneMore limit p s t
    → SameActive s (drop_permit (mark_cancelled p) t)
unfolding drop_permit mark_cancelled
drop_permit-less limit p s t h = ground arith

admit_unless_cancelled-ActiveAfter :
    (limit : ℕ) (p : SchedulerPermit) (c : Bool) (s t : ModelSchedulerState)
    → OneMore limit p s t
    → ActiveAfter limit s (admit_unless_cancelled p c t).0 (admit_unless_cancelled p c t).1
unfolding admit_unless_cancelled
admit_unless_cancelled-ActiveAfter limit p true s t h = drop_permit-less limit p s t h
admit_unless_cancelled-ActiveAfter limit p false s t h = h

pub drop_ticket-SameActive :
    (t : QueuedSchedulerTicket) (s : ModelSchedulerState) → SameActive s (drop_ticket t s)
unfolding drop_ticket
drop_ticket-SameActive t s = ground arith

enqueue-SameActive :
    (o : ModelSchedulerOptions) (class : SchedulerClass) (now : ℕ) (s : ModelSchedulerState)
    {k : QueuedSchedulerTicket} {t : ModelSchedulerState}
    → enqueue o class now s ≡ queued k t
    → SameActive s t
unfolding enqueue
enqueue-SameActive o class now s e = ground arith

start_waiting-ActiveAfter :
    (o : ModelSchedulerOptions) (class : SchedulerClass) (now : ℕ) (s : ModelSchedulerState)
    (e : Enqueued)
    → enqueue o class now s ≡ e
    → ActiveAfter o.concurrency_limit s (start_waiting o now e s).0 (start_waiting o now e s).1
unfolding start_waiting
start_waiting-ActiveAfter o class now s (refused err) e = record { prefill = refl; decode = refl }
start_waiting-ActiveAfter o class now s (queued k t) e = enqueue-SameActive o class now s e

module _ (o : ModelSchedulerOptions) (small : o.concurrency_limit < 2 ^ 64)
    (s : ModelSchedulerState)
    (fits : s.active_prefill + s.active_decode ≤ o.concurrency_limit) where
  pub begin_acquire-ActiveAfter :
      (class : SchedulerClass) (phase : GenerationPhase) (c d : Bool) (now : ℕ)
      → let (r, t) = begin_acquire o class phase c d now s in ActiveAfter o.concurrency_limit s r t
  unfolding begin_acquire
  begin_acquire-ActiveAfter class phase true d now = record { prefill = refl; decode = refl }
  begin_acquire-ActiveAfter class phase false d now =
      elim (Option-cases (try_acquire_immediate o class phase s)) [
        | inl e ↦ rw e (start_waiting-ActiveAfter o class now s (enqueue o class now s) refl)
        | inr ((p, t), e) ↦ rw e (
            admit_unless_cancelled-ActiveAfter o.concurrency_limit p d s t
              (try_acquire_immediate-OneMore o class phase s small fits e))
      ]

  poll_admitted :
      (k : QueuedSchedulerTicket) (phase : GenerationPhase) (d : Bool) (now : ℕ)
      {p : SchedulerPermit} {t : ModelSchedulerState}
      → try_admit_queued o k.id k.class phase s ≡ some (p, t)
      → OneMore o.concurrency_limit p s (record_wait (decode_starvation_wait k now) t)
  unfolding record_wait decode_starvation_wait record_decode_starvation_wait
  poll_admitted k phase d now {p} {t} e =
      ground (arith, try_admit_queued-OneMore o k.id k.class phase s {p = p} {t = t} small fits e)

  pub poll_acquire-ActiveAfter :
      (k : QueuedSchedulerTicket) (deadline : Option ℕ) (phase : GenerationPhase) (c d : Bool)
      (now : ℕ)
      → let (r, t) = poll_acquire o k deadline phase c d now s in
        ActiveAfter o.concurrency_limit s r t
  unfolding poll_acquire drop_ticket
  poll_acquire-ActiveAfter k deadline phase true d now = drop_ticket-SameActive k s
  poll_acquire-ActiveAfter k deadline phase false d now =
      elim (Option-cases (try_admit_queued o k.id k.class phase s)) [
        | inl e ↦ rw e (record { prefill = refl; decode = refl })
        | inr ((p, t), e) ↦ rw e (
            admit_unless_cancelled-ActiveAfter o.concurrency_limit p d s _
              (poll_admitted k phase d now e))
      ]

pub wake_acquire-ActiveAfter :
    (limit : ℕ) (k : QueuedSchedulerTicket) (deadline : Option ℕ) (event : Wake) (now : ℕ)
    (s : ModelSchedulerState)
    → let (r, t) = wake_acquire k deadline event now s in ActiveAfter limit s r t
unfolding wake_acquire
wake_acquire-ActiveAfter limit k deadline Wake.notified now s = record {
  prefill = refl;
  decode = refl;
}
wake_acquire-ActiveAfter limit k deadline Wake.cancelled now s = drop_ticket-SameActive k s
wake_acquire-ActiveAfter limit k deadline Wake.deadline_reached now s =
    elim (Bool-cases (deadline_is_due deadline now)) [
      | inl e ↦ rw e (drop_ticket-SameActive (timed_out k) s)
      | inr e ↦ rw e (record { prefill = refl; decode = refl })
    ]
