-- ===== src/Scheduler/Order.antt =====
-- Within a class the scheduler admits first come, first served.
use kir_ai.Prelude.{
  ℕ, zero, suc, ◌^◌, ◌≤◌, ◌<◌, ◌≡◌, refl, sym, true, some, List, [], ◌∷◌, arith, length, get_elem?,
  front, inl, inr, Bool-cases,
}
use kir_ai.Scheduler.State.{
  SchedulerClass, class_eq, GenerationPhase, ModelSchedulerOptions, ModelSchedulerState, queue,
}
use kir_ai.Scheduler.Permit.{SchedulerPermit}
use kir_ai.Scheduler.Admission.{try_admit_queued}
use kir_ai.Scheduler.World.{Waiter, Event, run, start}
use kir_ai.Scheduler.Invariant.Tickets.{ids, Between, Between-lt}
use kir_ai.Scheduler.Invariant.Queued.{in_queue}
use kir_ai.Scheduler.Invariant.History.{after-IsQueued}

class_eq_refl : (a : SchedulerClass) → class_eq a a ≡ true
class_eq_refl a = ground arith

admitted_front :
    (o : ModelSchedulerOptions) (id : ℕ) (class : SchedulerClass) (phase : GenerationPhase)
    (s : ModelSchedulerState) (r : SchedulerPermit × ModelSchedulerState)
    → try_admit_queued o id class phase s ≡ some r
    → front (queue class s) ≡ some id
unfolding try_admit_queued
admitted_front o id class phase s r e = ground arith

-- The first number of a class is that of the first waiting call of the class.
first_of_class :
    (class : SchedulerClass) (lo hi : ℕ) (cs : List Waiter) (i j : ℕ) (c d : Waiter)
    → Between lo hi cs
    → get_elem? cs i ≡ some c
    → get_elem? cs j ≡ some d
    → c.ticket.class ≡ class
    → d.ticket.class ≡ class
    → front (ids class cs) ≡ some c.ticket.id
    → i ≤ j
unfolding ids
first_of_class class lo hi [] i j c d b e f g h first = absurd (ground arith)
first_of_class class lo hi (x ∷ cs) zero j c d b e f g h first = omega arith
first_of_class class lo hi (x ∷ cs) (suc i) zero c d b e f g h first =
    absurd (ground (arith, Between-lt x.ticket.id hi cs i {c = c} b.1 e, class_eq_refl class))
first_of_class class lo hi (x ∷ cs) (suc i) (suc j) c d b e f g h first =
    elim (Bool-cases (class_eq x.ticket.class class)) [
      | inl same ↦ absurd (ground (arith, Between-lt x.ticket.id hi cs i {c = c} b.1 e))
      | inr other ↦
          omega (arith, first_of_class class x.ticket.id hi cs i j c d b.1 e f g h (ground arith))
    ]

-- After any history of fewer than 2^64 events: if the call at position `i` would be admitted now,
-- then no call of the same class stands before it. (Positions are in the order of arrival.)
pub admitted_in_order :
    (o : ModelSchedulerOptions) (es : List Event) (i j : ℕ) (c d : Waiter)
    (r : SchedulerPermit × ModelSchedulerState)
    → o.queue_limit < 2 ^ 64
    → length es < 2 ^ 64
    → let w = run o start es in
      get_elem? w.waiters i ≡ some c
      → get_elem? w.waiters j ≡ some d
      → c.ticket.class ≡ d.ticket.class
      → try_admit_queued o c.ticket.id c.ticket.class c.initial_phase w.state ≡ some r
      → i ≤ j
admitted_in_order o es i j c d r small short e f g a =
    let w = run o start es in
    let h = after-IsQueued o small es short in
    first_of_class c.ticket.class 0 w.state.next_ticket w.waiters i j c d h.ordered e f refl (sym g)
      (in_queue c.ticket.class w.state w.waiters c.ticket.id h
        (admitted_front o c.ticket.id c.ticket.class c.initial_phase w.state r a))
