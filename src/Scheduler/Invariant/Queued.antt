-- ===== src/Scheduler/Invariant/Queued.antt =====
-- The queues hold the tickets of the calls that wait, after every event.
use kir_ai.Prelude.{
  front, ℕ, suc, ◌+◌, ◌≤◌, ◌≡◌, refl, sym, ap, ◌∙◌, false, Option, none, some, List, [], ◌∷◌, arith,
  length, remove_at, set, get_elem?, length-append, All, All-append, All-remove_at, All-get_elem?,
  All-set, length-remove_at-le, length-set,
}
use mathlib.Core.List.{}
use kir_ai.Scheduler.State.{
  GenerationPhase, SchedulerClass, ModelSchedulerOptions, ModelSchedulerState, queue,
  record_prefill_yield_success,
}
use kir_ai.Scheduler.Permit.{SchedulerPermit}
use kir_ai.Scheduler.Ticket.{}
use kir_ai.Scheduler.Acquire.{Acquire, failed, granted, waiting}
use kir_ai.Scheduler.World.{World, Waiter, Yielding, settle, resume, at_end}
use kir_ai.Scheduler.Invariant.Tickets.{
  ids, Between, Between-remove_at, Between-at_end, Between-set, ids-at_end, ids-set, ids-remove_at,
  length-ids,
}
use kir_ai.Scheduler.Invariant.Queues.{SameQueues, Joined, Left, Begun, Continued}

abbrev pub IsPending : Waiter → Type 0
IsPending c = c.ticket.admitted ≡ false

-- `n` bounds the ticket numbers given out so far.
pub record QueueInv (limit n : ℕ) (s : ModelSchedulerState) (cs : List Waiter) : Type 0 where
  pub prefill : s.queued_prefill ≡ ids SchedulerClass.prefill cs
  pub decode : s.queued_decode ≡ ids SchedulerClass.decode cs
  pub ordered : Between 0 s.next_ticket cs
  pub room : length cs ≤ limit
  pub issued : s.next_ticket ≤ n
  pub pending : All IsPending cs

abbrev pub IsQueued : ModelSchedulerOptions → ℕ → World → Type 0
IsQueued o n w = QueueInv o.queue_limit n w.state w.waiters

module _ (limit n : ℕ) (cs : List Waiter) where
  pub QueueInv-same :
      (s t : ModelSchedulerState) → SameQueues s t → QueueInv limit n s cs → QueueInv limit n t cs
  QueueInv-same s t h q = record {
    prefill = h.prefill ∙ q.prefill;
    decode = h.decode ∙ q.decode;
    ordered = rw h.next q.ordered;
    room = q.room;
    issued = rw h.next q.issued;
    pending = q.pending;
  }

  pub QueueInv-later :
      (s : ModelSchedulerState) → QueueInv limit n s cs → QueueInv limit (suc n) s cs
  QueueInv-later s q = record {
    prefill = q.prefill;
    decode = q.decode;
    ordered = q.ordered;
    room = q.room;
    issued = omega (arith, q.issued);
    pending = q.pending;
  }

  pub queued_length :
      (s : ModelSchedulerState)
      → QueueInv limit n s cs
      → length s.queued_prefill + length s.queued_decode ≡ length cs
  queued_length s q = rw (q.prefill, q.decode) (length-ids cs)

  QueueInv-Joined :
      (s t : ModelSchedulerState) (c : Waiter)
      → Joined limit c.ticket s t
      → QueueInv limit n s cs
      → QueueInv limit (suc n) t (at_end cs c)
  QueueInv-Joined s t c j q = record {
    prefill = ground (arith, j.prefill, q.prefill, ids-at_end SchedulerClass.prefill cs c);
    decode = ground (arith, j.decode, q.decode, ids-at_end SchedulerClass.decode cs c);
    ordered = rw j.next (Between-at_end 0 s.next_ticket cs c q.ordered j.id);
    room = omega (arith, length-append cs (c ∷ []), queued_length s q, j.room);
    issued = omega (arith, j.next, q.issued);
    pending = All-append IsPending cs (c ∷ []) q.pending (j.pending, tt);
  }

  pub QueueInv-Left :
      (s t : ModelSchedulerState) (i : ℕ) (c : Waiter)
      → get_elem? cs i ≡ some c
      → Left c.ticket s t
      → QueueInv limit n s cs
      → QueueInv limit n t (remove_at cs i)
  QueueInv-Left s t i c e h q = record {
    prefill =
        rw (h.prefill, q.prefill)
          (sym (ids-remove_at SchedulerClass.prefill 0 s.next_ticket cs i c q.ordered e));
    decode =
        rw (h.decode, q.decode)
          (sym (ids-remove_at SchedulerClass.decode 0 s.next_ticket cs i c q.ordered e));
    ordered = rw h.next (Between-remove_at 0 s.next_ticket cs i q.ordered);
    room = omega (arith, length-remove_at-le cs i, q.room);
    issued = omega (arith, h.next, q.issued);
    pending = All-remove_at IsPending cs i q.pending;
  }

  QueueInv-set :
      (s : ModelSchedulerState) (i : ℕ) (c d : Waiter)
      → get_elem? cs i ≡ some c
      → d.ticket ≡ c.ticket
      → QueueInv limit n s cs
      → QueueInv limit n s (set cs i d)
  QueueInv-set s i c d e f q = record {
    prefill = q.prefill ∙ sym (ids-set SchedulerClass.prefill cs i {c = c} d e f);
    decode = q.decode ∙ sym (ids-set SchedulerClass.decode cs i {c = c} d e f);
    ordered = Between-set 0 s.next_ticket cs i {c = c} d e f q.ordered;
    room = rw length-set q.room;
    issued = q.issued;
    pending =
        All-set IsPending cs i d q.pending
          (ap (λ k. k.admitted) f ∙ All-get_elem? IsPending cs i {x = c} q.pending e);
  }

-- The front of a queue is that of the waiting calls of its class.
pub in_queue :
    {limit n : ℕ} (class : SchedulerClass) (s : ModelSchedulerState) (cs : List Waiter) (id : ℕ)
    → QueueInv limit n s cs
    → front (queue class s) ≡ some id
    → front (ids class cs) ≡ some id
unfolding queue
in_queue SchedulerClass.prefill s cs id h e = rw (← h.prefill) e
in_queue SchedulerClass.decode s cs id h e = rw (← h.decode) e

resume-SameQueues :
    (y : Option Yielding) (now : ℕ) (s : ModelSchedulerState) → SameQueues s (resume y now s)
unfolding resume record_prefill_yield_success
resume-SameQueues none now s = record { prefill = refl; decode = refl; next = refl }
resume-SameQueues (some y) now s = record { prefill = refl; decode = refl; next = refl }

module _ (o : ModelSchedulerOptions) (n : ℕ) (phase : GenerationPhase) (y : Option Yielding)
    (now : ℕ) (permits : List SchedulerPermit) (cs : List Waiter) (s : ModelSchedulerState)
    (q : QueueInv o.queue_limit n s cs) where
  pub settle-Begun :
      (r : Acquire) (t : ModelSchedulerState)
      → Begun o.queue_limit s r t
      → IsQueued o (suc n) (settle phase y now permits cs (at_end cs) r t)
  unfolding settle
  settle-Begun (failed err) t h = QueueInv-later _ n cs t (QueueInv-same _ n cs s t h q)
  settle-Begun (granted p) t h =
      QueueInv-later _ n cs _
        (QueueInv-same _ n cs t _ (resume-SameQueues y now t) (QueueInv-same _ n cs s t h q))
  settle-Begun (waiting k d) t h = QueueInv-Joined _ n cs s t _ h q

  pub settle-Continued :
      (i : ℕ) (c : Waiter)
      → get_elem? cs i ≡ some c
      → (r : Acquire) (t : ModelSchedulerState) → Continued c.ticket s r t
      → IsQueued o n (settle phase y now permits (remove_at cs i) (set cs i) r t)
  unfolding settle
  settle-Continued i c e (failed err) t h = QueueInv-Left _ n cs s t i c e h q
  settle-Continued i c e (granted p) t h =
      QueueInv-same _ n (remove_at cs i) t _ (resume-SameQueues y now t)
        (QueueInv-Left _ n cs s t i c e h q)
  settle-Continued i c e (waiting k d) t h =
      QueueInv-set _ n cs t i c _ e h.0 (QueueInv-same _ n cs s t h.1 q)
