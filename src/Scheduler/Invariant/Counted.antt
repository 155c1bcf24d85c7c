-- ===== src/Scheduler/Invariant/Counted.antt =====
-- The active counts are those of the permits, and within the limit, after every event.
use kir_ai.Prelude.{
  ℕ, ◌+◌, ◌^◌, ◌≤◌, ◌<◌, ◌≡◌, refl, Bool, not, ◌||◌, true, false, Option, none, some, List, [], ◌∷◌,
  arith, total, All, All-append, All-remove_at, All-get_elem?, All-set, total-set, get_elem?,
  remove_at, set, total-remove_at, Option-cases, inl, inr, Bool-cases,
}
use kir_ai.Scheduler.State.{
  GenerationPhase, SchedulerClass, ModelSchedulerOptions, ModelSchedulerState,
  record_prefill_yield_success, record_prefill_chunk_latency,
}
use kir_ai.Scheduler.Permit.{
  SchedulerPermit, is_decode, drop_permit, mark_cancelled, mark_failed, complete_readmission_error,
  transition_to_decode, release_for_yield, SchedulerAcquireError,
}
use kir_ai.Scheduler.Acquire.{Acquire, failed, granted, waiting, Wake}
use kir_ai.Scheduler.World.{
  World, Waiter, Yielding, settle, resume, give_back, at_end, request, poll, wake, abandon, finish,
  begin_decode, yield_prefill_chunk, yield_permit, yield_active, mark_permit, Event, requests,
  polls, wakes, abandons, yields, decodes, marks_failed, marks_cancelled, finishes,
  records_chunk_latency, step,
}
use kir_ai.Scheduler.Invariant.Active.{
  in_prefill, in_decode, SameActive, ActiveAfter, begin_acquire-ActiveAfter,
  poll_acquire-ActiveAfter, wake_acquire-ActiveAfter, drop_ticket-SameActive,
}

-- A permit in the middle of a yield is not active.
abbrev pub IsResting : Option Yielding → Type 0
IsResting none = Unit
IsResting (some y) = y.permit.active ≡ false

abbrev pub Resting : List Waiter → Type 0
Resting = All (λ c. IsResting c.yielding)

-- An active permit ends its request when it is dropped.
abbrev pub Reports : SchedulerPermit → Type 0
Reports p = (not p.active || p.terminal_on_drop) ≡ true

-- The counts of the state are those of the permits.
pub record Counts (limit : ℕ) (s : ModelSchedulerState) (permits : List SchedulerPermit)
    : Type 0 where
  pub prefill : s.active_prefill ≡ total in_prefill permits
  pub decode : s.active_decode ≡ total in_decode permits
  pub bounded : s.active_prefill + s.active_decode ≤ limit
  pub reports : All Reports permits

pub record IsCounted (o : ModelSchedulerOptions) (w : World) : Type 0 where
  pub counts : Counts o.concurrency_limit w.state w.permits
  pub resting : Resting w.waiters

give_back-Counts :
    (limit : ℕ) (y : Option Yielding) (err : SchedulerAcquireError) (s : ModelSchedulerState)
    (permits : List SchedulerPermit)
    → IsResting y
    → Counts limit s permits
    → Counts limit s (give_back y err permits)
unfolding give_back complete_readmission_error
give_back-Counts limit none err s permits r h = h
give_back-Counts limit (some y) SchedulerAcquireError.queue_full s permits r h = ground arith
give_back-Counts limit (some y) _ s permits r h = ground arith

resume-SameActive :
    (y : Option Yielding) (now : ℕ) (s : ModelSchedulerState) → SameActive s (resume y now s)
unfolding resume record_prefill_yield_success
resume-SameActive none now s = record { prefill = refl; decode = refl }
resume-SameActive (some y) now s = record { prefill = refl; decode = refl }

module _ (o : ModelSchedulerOptions) (phase : GenerationPhase) (y : Option Yielding) (now : ℕ)
    (permits : List SchedulerPermit) (rest : List Waiter) (place : Waiter → List Waiter)
    (s : ModelSchedulerState) where
  settle-IsCounted :
      (r : Acquire) (t : ModelSchedulerState)
      → ActiveAfter o.concurrency_limit s r t
      → Counts o.concurrency_limit s permits
      → IsResting y
      → Resting rest
      → ((c : Waiter) → IsResting c.yielding → Resting (place c))
      → IsCounted o (settle phase y now permits rest place r t)
  unfolding settle
  settle-IsCounted (failed err) t a h q hr hp = record {
    counts = give_back-Counts _ y err t permits q (ground arith);
    resting = hr;
  }
  settle-IsCounted (granted p) t a h q hr hp = record {
    counts = ground (arith, resume-SameActive y now t);
    resting = hr;
  }
  settle-IsCounted (waiting k d) t a h q hr hp = record { counts = ground arith; resting = hp _ q }

at_end-Resting :
    (cs : List Waiter) → Resting cs → (c : Waiter) → IsResting c.yielding → Resting (at_end cs c)
at_end-Resting cs h c r = All-append _ cs (c ∷ []) h (r, tt)

module _ (o : ModelSchedulerOptions) (small : o.concurrency_limit < 2 ^ 64) (w : World)
    (h : IsCounted o w) where
  request-IsCounted :
      (class : SchedulerClass) (phase : GenerationPhase) (c d : Bool) (now : ℕ)
      → IsCounted o (request o class phase c d now w)
  unfolding request
  request-IsCounted class phase c d now =
      settle-IsCounted o phase none now w.permits w.waiters (at_end w.waiters) w.state _ _
        (begin_acquire-ActiveAfter o small w.state h.counts.bounded class phase c d now) h.counts tt
        h.resting (at_end-Resting w.waiters h.resting)

  poll-IsCounted : (i : ℕ) (c d : Bool) (now : ℕ) → IsCounted o (poll o i c d now w)
  unfolding poll
  poll-IsCounted i c d now = elim (Option-cases (get_elem? w.waiters i)) [
    | inl e ↦ rw e h
    | inr (k, e) ↦ rw e (
        settle-IsCounted o k.initial_phase k.yielding now w.permits _ (set w.waiters i) w.state _ _
          (poll_acquire-ActiveAfter o small w.state h.counts.bounded k.ticket k.deadline
            k.initial_phase c d now)
          h.counts (All-get_elem? _ w.waiters i h.resting e) (All-remove_at _ w.waiters i h.resting)
          (λ k'. All-set _ w.waiters i k' h.resting))
  ]

  wake-IsCounted : (i : ℕ) (event : Wake) (now : ℕ) → IsCounted o (wake i event now w)
  unfolding wake
  wake-IsCounted i event now = elim (Option-cases (get_elem? w.waiters i)) [
    | inl e ↦ rw e h
    | inr (k, e) ↦ rw e (
        settle-IsCounted o k.initial_phase k.yielding now w.permits _ (set w.waiters i) w.state _ _
          (wake_acquire-ActiveAfter o.concurrency_limit k.ticket k.deadline event now w.state)
          h.counts (All-get_elem? _ w.waiters i h.resting e) (All-remove_at _ w.waiters i h.resting)
          (λ k'. All-set _ w.waiters i k' h.resting))
  ]

  abandon-IsCounted : (i : ℕ) → IsCounted o (abandon i w)
  unfolding abandon
  abandon-IsCounted i = elim (Option-cases (get_elem? w.waiters i)) [
    | inl e ↦ rw e h
    | inr (k, e) ↦ rw e (record {
      counts = ground (arith, drop_ticket-SameActive k.ticket w.state);
      resting = All-remove_at _ w.waiters i h.resting;
    })
  ]

  finish-IsCounted : (i : ℕ) → IsCounted o (finish i w)
  unfolding finish drop_permit
  finish-IsCounted i = elim (Option-cases (get_elem? w.permits i)) [
    | inl e ↦ rw e h
    | inr (p, e) ↦ rw e (record {
      counts = ground (
        arith,
        total-remove_at in_prefill w.permits i p e,
        total-remove_at in_decode w.permits i p e,
        All-remove_at Reports w.permits i h.counts.reports,
        All-get_elem? Reports w.permits i h.counts.reports e,
      );
      resting = h.resting;
    })
  ]

  begin_decode-IsCounted : (i : ℕ) → IsCounted o (begin_decode i w)
  unfolding begin_decode transition_to_decode
  begin_decode-IsCounted i = elim (Option-cases (get_elem? w.permits i)) [
    | inl e ↦ rw e h
    | inr (p, e) ↦ rw e (record {
      counts = ground (
        arith,
        total-set in_prefill w.permits i p (record p { phase = GenerationPhase.decode }) e,
        total-set in_decode w.permits i p (record p { phase = GenerationPhase.decode }) e,
        total-set in_prefill w.permits i p p e,
        total-set in_decode w.permits i p p e,
        All-get_elem? Reports w.permits i h.counts.reports e,
        All-set Reports w.permits i p h.counts.reports,
        All-set Reports w.permits i (record p { phase = GenerationPhase.decode }) h.counts.reports,
      );
      resting = h.resting;
    })
  ]

  cancelled_yield-IsCounted :
      (i : ℕ) (p : SchedulerPermit)
      → get_elem? w.permits i ≡ some p
      → IsCounted o (record w { permits = set w.permits i (mark_cancelled p) })
  unfolding mark_cancelled
  cancelled_yield-IsCounted i p e = record {
    resting = h.resting;
    counts = ground (
      arith,
      total-set in_prefill w.permits i p (mark_cancelled p) e,
      total-set in_decode w.permits i p (mark_cancelled p) e,
      All-get_elem? Reports w.permits i h.counts.reports e,
      All-set Reports w.permits i (mark_cancelled p) h.counts.reports,
    );
  }

  released-Counts :
      (i : ℕ) (p : SchedulerPermit)
      → get_elem? w.permits i ≡ some p
      → (is_decode p.phase || not p.active) ≡ false
      → Counts o.concurrency_limit (release_for_yield p w.state).2 (remove_at w.permits i)
  unfolding release_for_yield
  released-Counts i p e live = ground (
    arith,
    total-remove_at in_prefill w.permits i p e,
    total-remove_at in_decode w.permits i p e,
    All-remove_at Reports w.permits i h.counts.reports,
  )

  yield_live :
      (i : ℕ) (p : SchedulerPermit)
      → get_elem? w.permits i ≡ some p
      → (is_decode p.phase || not p.active) ≡ false
      → (b c d : Bool) (now : ℕ) → IsCounted o (yield_active o i p b c d now w)
  unfolding yield_active release_for_yield
  yield_live i p e live true c d now = cancelled_yield-IsCounted i p e
  yield_live i p e live false c d now =
      let counts = released-Counts i p e live in
      settle-IsCounted o GenerationPhase.prefill _ now _ w.waiters (at_end w.waiters) _ _ _
        (begin_acquire-ActiveAfter o small _ counts.bounded SchedulerClass.prefill
          GenerationPhase.prefill c d now)
        counts refl h.resting (at_end-Resting w.waiters h.resting)

  yield_permit-IsCounted :
      (i : ℕ) (p : SchedulerPermit)
      → get_elem? w.permits i ≡ some p
      → (b c d : Bool) (now : ℕ) → IsCounted o (yield_permit o i (some p) b c d now w)
  unfolding yield_permit
  yield_permit-IsCounted i p e b c d now = elim (Bool-cases (is_decode p.phase || not p.active)) [
    | inl idle ↦ rw idle h
    | inr live ↦ rw live (yield_live i p e live b c d now)
  ]

  yield_prefill_chunk-IsCounted :
      (i : ℕ) (b c d : Bool) (now : ℕ) → IsCounted o (yield_prefill_chunk o i b c d now w)
  unfolding yield_prefill_chunk
  yield_prefill_chunk-IsCounted i b c d now = elim (Option-cases (get_elem? w.permits i)) [
    | inl e ↦ rw e h
    | inr (p, e) ↦ rw e (yield_permit-IsCounted i p e b c d now)
  ]

  mark_permit-IsCounted :
      (mark : SchedulerPermit → SchedulerPermit)
      → ((p : SchedulerPermit) → (mark p).active ≡ p.active)
      → ((p : SchedulerPermit) → (mark p).phase ≡ p.phase)
      → ((p : SchedulerPermit) → (mark p).terminal_on_drop ≡ p.terminal_on_drop)
      → (i : ℕ) → IsCounted o (mark_permit mark i (get_elem? w.permits i) w)
  unfolding mark_permit
  mark_permit-IsCounted mark a b c i = elim (Option-cases (get_elem? w.permits i)) [
    | inl e ↦ rw e h
    | inr (p, e) ↦ rw e (record {
      resting = h.resting;
      counts = ground (
        arith,
        a p,
        b p,
        c p,
        total-set in_prefill w.permits i p (mark p) e,
        total-set in_decode w.permits i p (mark p) e,
        All-get_elem? Reports w.permits i h.counts.reports e,
        All-set Reports w.permits i (mark p) h.counts.reports,
      );
    })
  ]

  pub step-IsCounted : (e : Event) → IsCounted o (step o w e)
  unfolding step record_prefill_chunk_latency mark_failed mark_cancelled
  step-IsCounted (requests class phase c d now) = request-IsCounted class phase c d now
  step-IsCounted (polls i c d now) = poll-IsCounted i c d now
  step-IsCounted (wakes i event now) = wake-IsCounted i event now
  step-IsCounted (abandons i) = abandon-IsCounted i
  step-IsCounted (yields i b c d now) = yield_prefill_chunk-IsCounted i b c d now
  step-IsCounted (decodes i) = begin_decode-IsCounted i
  step-IsCounted (marks_failed i) =
      mark_permit-IsCounted mark_failed (λ p. refl) (λ p. refl) (λ p. refl) i
  step-IsCounted (marks_cancelled i) =
      mark_permit-IsCounted mark_cancelled (λ p. refl) (λ p. refl) (λ p. refl) i
  step-IsCounted (finishes i) = finish-IsCounted i
  step-IsCounted (records_chunk_latency latency) = record {
    resting = h.resting;
    counts = ground arith;
  }
