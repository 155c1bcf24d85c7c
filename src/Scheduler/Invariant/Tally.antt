-- ===== src/Scheduler/Invariant/Tally.antt =====
-- Each event admits at most one request, and counts it.
use kir_ai.Prelude.{
  ℕ, ◌+◌, ◌^◌, ◌<◌, ◌≡◌, refl, inl, inr, Bool, true, false, not, ◌||◌, Option, none, some, List,
  arith, length, Option-cases, Bool-cases, get_elem?, set,
}
use kir_ai.Scheduler.State.{
  GenerationPhase, SchedulerClass, ModelSchedulerOptions, ModelSchedulerState,
  record_decode_starvation_wait, record_prefill_yield_success, record_prefill_chunk_latency,
}
use kir_ai.Scheduler.Permit.{
  SchedulerPermit, drop_permit, mark_cancelled, release_for_yield, transition_to_decode, is_decode,
  mark_failed,
}
use kir_ai.Scheduler.Ticket.{
  QueuedSchedulerTicket, drop_ticket, admit, decode_starvation_wait, timed_out,
}
use kir_ai.Scheduler.Admission.{
  try_acquire_immediate, try_admit_queued, enqueue, Enqueued, refused, queued,
}
use kir_ai.Scheduler.Acquire.{
  Acquire, failed, granted, waiting, begin_acquire, poll_acquire, wake_acquire, Wake,
  admit_unless_cancelled, start_waiting, record_wait, deadline_is_due,
}
use kir_ai.Scheduler.World.{
  World, Waiter, Yielding, settle, resume, Event, requests, polls, wakes, abandons, yields, decodes,
  marks_failed, marks_cancelled, finishes, records_chunk_latency, step, request, poll, wake,
  abandon, finish, begin_decode, yield_prefill_chunk, yield_permit, yield_active, mark_permit,
  at_end, poll_waiter, wake_waiter, abandon_waiter, decode_permit, finish_permit,
}
use kir_ai.Scheduler.Invariant.Admissions.{
  SameTally, Admits, Admitted-then, Admits-then, try_acquire_immediate-Admitted,
  try_admit_queued-Admitted,
}

unchanged : (s : ModelSchedulerState) → SameTally s s
unchanged s = record { prefill = refl; decode = refl; since = refl }

drop_permit-SameTally :
    (p : SchedulerPermit) (s : ModelSchedulerState) → SameTally s (drop_permit p s)
unfolding drop_permit
drop_permit-SameTally p s = ground arith

drop_ticket-SameTally :
    (k : QueuedSchedulerTicket) (s : ModelSchedulerState) → SameTally s (drop_ticket k s)
unfolding drop_ticket
drop_ticket-SameTally k s = ground arith

enqueue-SameTally :
    (o : ModelSchedulerOptions) (class : SchedulerClass) (now : ℕ) (s : ModelSchedulerState)
    (e : Enqueued)
    → enqueue o class now s ≡ e
    → SameTally s (start_waiting o now e s).1
unfolding enqueue start_waiting
enqueue-SameTally o class now s (refused err) e = unchanged s
enqueue-SameTally o class now s (queued k t) e = ground arith

record_wait-SameTally :
    (wait : Option ℕ) (s : ModelSchedulerState) → SameTally s (record_wait wait s)
unfolding record_wait record_decode_starvation_wait
record_wait-SameTally none s = unchanged s
record_wait-SameTally (some n) s = record { prefill = refl; decode = refl; since = refl }

resume-SameTally :
    (y : Option Yielding) (now : ℕ) (s : ModelSchedulerState) → SameTally s (resume y now s)
unfolding resume record_prefill_yield_success
resume-SameTally none now s = unchanged s
resume-SameTally (some y) now s = record { prefill = refl; decode = refl; since = refl }

admitted-SameTally :
    (p : SchedulerPermit) (c : Bool) (s : ModelSchedulerState)
    → SameTally s (admit_unless_cancelled p c s).1
unfolding admit_unless_cancelled
admitted-SameTally p true s = drop_permit-SameTally (mark_cancelled p) s
admitted-SameTally p false s = unchanged s

begin_acquire-Admits :
    (o : ModelSchedulerOptions) (class : SchedulerClass) (phase : GenerationPhase) (c d : Bool)
    (now : ℕ) (s : ModelSchedulerState)
    → length s.queued_prefill + length s.queued_decode < 2 ^ 64
    → Admits o.prefill_burst s (begin_acquire o class phase c d now s).1
unfolding begin_acquire
begin_acquire-Admits o class phase true d now s few = inl (unchanged s)
begin_acquire-Admits o class phase false d now s few =
    elim (Option-cases (try_acquire_immediate o class phase s)) [
      | inl e ↦ rw e (inl (enqueue-SameTally o class now s (enqueue o class now s) refl))
      | inr ((p, t), e) ↦ rw e (
          inr (
            class,
            Admitted-then o.prefill_burst class s t _
                (try_acquire_immediate-Admitted o class phase s few e) (admitted-SameTally p d t),
          ))
    ]

poll_acquire-Admits :
    (o : ModelSchedulerOptions) (k : QueuedSchedulerTicket) (deadline : Option ℕ)
    (phase : GenerationPhase) (c d : Bool) (now : ℕ) (s : ModelSchedulerState)
    → Admits o.prefill_burst s (poll_acquire o k deadline phase c d now s).1
unfolding poll_acquire drop_ticket admit
poll_acquire-Admits o k deadline phase true d now s = inl (drop_ticket-SameTally k s)
poll_acquire-Admits o k deadline phase false d now s =
    elim (Option-cases (try_admit_queued o k.id k.class phase s)) [
      | inl e ↦ rw e (inl (unchanged s))
      | inr ((p, t), e) ↦ rw e (
          let t' = record_wait (decode_starvation_wait k now) t in
          inr (
            k.class,
            Admitted-then o.prefill_burst k.class s t' _
                (Admitted-then o.prefill_burst k.class s t t'
                  (try_admit_queued-Admitted o k.id k.class phase s e)
                  (record_wait-SameTally (decode_starvation_wait k now) t))
                (admitted-SameTally p d t'),
          ))
    ]

wake_acquire-SameTally :
    (k : QueuedSchedulerTicket) (deadline : Option ℕ) (event : Wake) (now : ℕ)
    (s : ModelSchedulerState)
    → SameTally s (wake_acquire k deadline event now s).1
unfolding wake_acquire
wake_acquire-SameTally k deadline Wake.notified now s = unchanged s
wake_acquire-SameTally k deadline Wake.cancelled now s = drop_ticket-SameTally k s
wake_acquire-SameTally k deadline Wake.deadline_reached now s =
    elim (Bool-cases (deadline_is_due deadline now)) [
      | inl e ↦ rw e (drop_ticket-SameTally (timed_out k) s)
      | inr e ↦ rw e (unchanged s)
    ]

settle-Admits :
    (burst : ℕ) (s : ModelSchedulerState) (phase : GenerationPhase) (y : Option Yielding) (now : ℕ)
    (permits : List SchedulerPermit) (rest : List Waiter) (place : Waiter → List Waiter)
    (r : Acquire) (t : ModelSchedulerState)
    → Admits burst s t
    → Admits burst s (settle phase y now permits rest place r t).state
unfolding settle
settle-Admits burst s phase y now permits rest place (failed err) t h = h
settle-Admits burst s phase y now permits rest place (granted p) t h =
    Admits-then burst s t _ h (resume-SameTally y now t)
settle-Admits burst s phase y now permits rest place (waiting k d) t h = h

Admits-released :
    (burst : ℕ) (p : SchedulerPermit) (s t : ModelSchedulerState)
    → Admits burst (release_for_yield p s).2 t
    → Admits burst s t
unfolding release_for_yield
Admits-released burst p s t (inl h) =
    inl (record { prefill = h.prefill; decode = h.decode; since = h.since })
Admits-released burst p s t (inr (SchedulerClass.prefill, h)) = inr (SchedulerClass.prefill, h)
Admits-released burst p s t (inr (SchedulerClass.decode, h)) = inr (SchedulerClass.decode, h)

module _ (o : ModelSchedulerOptions) (w : World)
    (few : length w.state.queued_prefill + length w.state.queued_decode < 2 ^ 64) where
  yield_active-Admits :
      (i : ℕ) (p : SchedulerPermit) (b c d : Bool) (now : ℕ)
      → Admits o.prefill_burst w.state (yield_active o i p b c d now w).state
  unfolding yield_active release_for_yield
  yield_active-Admits i p true c d now = inl (unchanged w.state)
  yield_active-Admits i p false c d now =
      let s = (release_for_yield p w.state).2 in
      let r = begin_acquire o SchedulerClass.prefill GenerationPhase.prefill c d now s in
      settle-Admits o.prefill_burst w.state GenerationPhase.prefill _ now _ w.waiters
        (at_end w.waiters) r.0 r.1
        (Admits-released o.prefill_burst p w.state r.1
          (begin_acquire-Admits o SchedulerClass.prefill GenerationPhase.prefill c d now s few))

  event_on_waiter :
      (i : ℕ) (f : Option Waiter → World)
      → f none ≡ w
      → ((k : Waiter) → Admits o.prefill_burst w.state (f (some k)).state)
      → Admits o.prefill_burst w.state (f (get_elem? w.waiters i)).state
  event_on_waiter i f a b = elim (Option-cases (get_elem? w.waiters i)) [
    | inl e ↦ rw (e, a) (inl (unchanged w.state))
    | inr (k, e) ↦ rw e (b k)
  ]

  event_on_permit :
      (i : ℕ) (f : Option SchedulerPermit → World)
      → f none ≡ w
      → ((p : SchedulerPermit) → Admits o.prefill_burst w.state (f (some p)).state)
      → Admits o.prefill_burst w.state (f (get_elem? w.permits i)).state
  event_on_permit i f a b = elim (Option-cases (get_elem? w.permits i)) [
    | inl e ↦ rw (e, a) (inl (unchanged w.state))
    | inr (k, e) ↦ rw e (b k)
  ]

  yield_permit-Admits :
      (i : ℕ) (p : SchedulerPermit) (b c d : Bool) (now : ℕ)
      → Admits o.prefill_burst w.state (yield_permit o i (some p) b c d now w).state
  unfolding yield_permit
  yield_permit-Admits i p b c d now = elim (Bool-cases (is_decode p.phase || not p.active)) [
    | inl idle ↦ rw idle (inl (unchanged w.state))
    | inr live ↦ rw live (yield_active-Admits i p b c d now)
  ]

  pub step-Admits : (e : Event) → Admits o.prefill_burst w.state (step o w e).state
  unfolding step request poll wake abandon finish begin_decode yield_prefill_chunk yield_permit
      mark_permit transition_to_decode record_prefill_chunk_latency
  step-Admits (requests class phase c d now) =
      settle-Admits o.prefill_burst w.state phase none now w.permits w.waiters (at_end w.waiters) _
        _ (begin_acquire-Admits o class phase c d now w.state few)
  step-Admits (polls i c d now) =
      event_on_waiter i (λ k. poll_waiter o i k c d now w) refl
        (λ k.
          settle-Admits o.prefill_burst w.state k.initial_phase k.yielding now w.permits _
            (set w.waiters i) _ _
            (poll_acquire-Admits o k.ticket k.deadline k.initial_phase c d now w.state))
  step-Admits (wakes i event now) =
      event_on_waiter i (λ k. wake_waiter i k event now w) refl
        (λ k.
          settle-Admits o.prefill_burst w.state k.initial_phase k.yielding now w.permits _
            (set w.waiters i) _ _
            (inl (wake_acquire-SameTally k.ticket k.deadline event now w.state)))
  step-Admits (abandons i) =
      event_on_waiter i (λ k. abandon_waiter i k w) refl
        (λ k. inl (drop_ticket-SameTally k.ticket w.state))
  step-Admits (yields i b c d now) =
      event_on_permit i (λ p. yield_permit o i p b c d now w) refl
        (λ p. yield_permit-Admits i p b c d now)
  step-Admits (decodes i) =
      event_on_permit i (λ p. decode_permit i p w) refl (λ p. inl (ground arith))
  step-Admits (marks_failed i) =
      event_on_permit i (λ p. mark_permit mark_failed i p w) refl (λ p. inl (unchanged w.state))
  step-Admits (marks_cancelled i) =
      event_on_permit i (λ p. mark_permit mark_cancelled i p w) refl (λ p. inl (unchanged w.state))
  step-Admits (finishes i) =
      event_on_permit i (λ p. finish_permit i p w) refl (λ p. inl (drop_permit-SameTally p w.state))
  step-Admits (records_chunk_latency latency) =
      inl (record { prefill = refl; decode = refl; since = refl })
