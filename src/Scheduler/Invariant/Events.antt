-- ===== src/Scheduler/Invariant/Events.antt =====
-- Every event keeps the queues in step with the calls that wait.
use kir_ai.Prelude.{
  ℕ, suc, ◌+◌, ◌^◌, ◌<◌, refl, Bool, true, false, ◌||◌, not, none, arith, length, Option-cases, inl,
  inr, get_elem?, All-get_elem?, Bool-cases,
}
use kir_ai.Scheduler.State.{
  GenerationPhase, SchedulerClass, ModelSchedulerOptions, record_prefill_chunk_latency,
}
use kir_ai.Scheduler.Permit.{
  SchedulerPermit, release_for_yield, is_decode, transition_to_decode, mark_failed, mark_cancelled,
}
use kir_ai.Scheduler.Acquire.{Wake}
use kir_ai.Scheduler.World.{
  World, Event, requests, polls, wakes, abandons, yields, decodes, marks_failed, marks_cancelled,
  finishes, records_chunk_latency, step, request, poll, wake, abandon, finish, begin_decode,
  yield_prefill_chunk, yield_permit, yield_active, mark_permit,
}
use kir_ai.Scheduler.Invariant.Queues.{
  begin_acquire-Begun, poll_acquire-Continued, wake_acquire-Continued, drop_ticket-Left,
  drop_permit-SameQueues,
}
use kir_ai.Scheduler.Invariant.Queued.{
  IsPending, IsQueued, QueueInv-same, QueueInv-later, QueueInv-Left, queued_length, settle-Begun,
  settle-Continued,
}

module _ (o : ModelSchedulerOptions) (small : o.queue_limit < 2 ^ 64) (n : ℕ)
    (fresh : n + 1 < 2 ^ 64) (w : World) (q : IsQueued o n w) where
  few : length w.state.queued_prefill + length w.state.queued_decode < 2 ^ 64
  few = omega (arith, queued_length _ n w.waiters w.state q, q.room)

  request-IsQueued :
      (class : SchedulerClass) (phase : GenerationPhase) (c d : Bool) (now : ℕ)
      → IsQueued o (suc n) (request o class phase c d now w)
  unfolding request
  request-IsQueued class phase c d now =
      settle-Begun o n phase none now w.permits w.waiters w.state q _ _
        (begin_acquire-Begun o class phase c d now w.state (omega (arith, q.issued)) few)

  poll-IsQueued : (i : ℕ) (c d : Bool) (now : ℕ) → IsQueued o n (poll o i c d now w)
  unfolding poll
  poll-IsQueued i c d now = elim (Option-cases (get_elem? w.waiters i)) [
    | inl e ↦ rw e q
    | inr (k, e) ↦ rw e (
        settle-Continued o n k.initial_phase k.yielding now w.permits w.waiters w.state q i k e _ _
          (poll_acquire-Continued o k.ticket k.deadline k.initial_phase c d now w.state
            (All-get_elem? IsPending w.waiters i q.pending e)))
  ]

  wake-IsQueued : (i : ℕ) (event : Wake) (now : ℕ) → IsQueued o n (wake i event now w)
  unfolding wake
  wake-IsQueued i event now = elim (Option-cases (get_elem? w.waiters i)) [
    | inl e ↦ rw e q
    | inr (k, e) ↦ rw e (
        settle-Continued o n k.initial_phase k.yielding now w.permits w.waiters w.state q i k e _ _
          (wake_acquire-Continued k.ticket k.deadline event now w.state
            (All-get_elem? IsPending w.waiters i q.pending e)))
  ]

  abandon-IsQueued : (i : ℕ) → IsQueued o n (abandon i w)
  unfolding abandon
  abandon-IsQueued i = elim (Option-cases (get_elem? w.waiters i)) [
    | inl e ↦ rw e q
    | inr (k, e) ↦ rw e (
        QueueInv-Left _ n w.waiters w.state _ i k e
          (drop_ticket-Left k.ticket w.state (All-get_elem? IsPending w.waiters i q.pending e)) q)
  ]

  finish-IsQueued : (i : ℕ) → IsQueued o n (finish i w)
  unfolding finish
  finish-IsQueued i = elim (Option-cases (get_elem? w.permits i)) [
    | inl e ↦ rw e q
    | inr (p, e) ↦ rw e (QueueInv-same _ n w.waiters w.state _ (drop_permit-SameQueues p w.state) q)
  ]

  begin_decode-IsQueued : (i : ℕ) → IsQueued o n (begin_decode i w)
  unfolding begin_decode transition_to_decode
  begin_decode-IsQueued i = elim (Option-cases (get_elem? w.permits i)) [
    | inl e ↦ rw e q
    | inr (p, e) ↦ rw e (QueueInv-same _ n w.waiters w.state _ (ground arith) q)
  ]

  mark_permit-IsQueued :
      (mark : SchedulerPermit → SchedulerPermit) (i : ℕ)
      → IsQueued o n (mark_permit mark i (get_elem? w.permits i) w)
  unfolding mark_permit
  mark_permit-IsQueued mark i = elim (Option-cases (get_elem? w.permits i)) [
    | inl e ↦ rw e q
    | inr (p, e) ↦ rw e q
  ]

  yield_active-IsQueued :
      (i : ℕ) (p : SchedulerPermit) (b c d : Bool) (now : ℕ)
      → IsQueued o (suc n) (yield_active o i p b c d now w)
  unfolding yield_active release_for_yield
  yield_active-IsQueued i p true c d now = QueueInv-later _ n w.waiters w.state q
  yield_active-IsQueued i p false c d now =
      settle-Begun o n GenerationPhase.prefill _ now _ w.waiters _
        (QueueInv-same _ n w.waiters w.state _
          (record { prefill = refl; decode = refl; next = refl }) q)
        _ _
        (begin_acquire-Begun o SchedulerClass.prefill GenerationPhase.prefill c d now _
          (omega (arith, q.issued)) few)

  yield_prefill_chunk-IsQueued :
      (i : ℕ) (b c d : Bool) (now : ℕ) → IsQueued o (suc n) (yield_prefill_chunk o i b c d now w)
  unfolding yield_prefill_chunk yield_permit
  yield_prefill_chunk-IsQueued i b c d now = elim (Option-cases (get_elem? w.permits i)) [
    | inl e ↦ rw e (QueueInv-later _ n w.waiters w.state q)
    | inr (p, e) ↦ rw e (elim (Bool-cases (is_decode p.phase || not p.active)) [
      | inl idle ↦ rw idle (QueueInv-later _ n w.waiters w.state q)
      | inr live ↦ rw live (yield_active-IsQueued i p b c d now)
    ])
  ]

  pub step-IsQueued : (e : Event) → IsQueued o (suc n) (step o w e)
  unfolding step record_prefill_chunk_latency
  step-IsQueued (requests class phase c d now) = request-IsQueued class phase c d now
  step-IsQueued (polls i c d now) = QueueInv-later _ n _ _ (poll-IsQueued i c d now)
  step-IsQueued (wakes i event now) = QueueInv-later _ n _ _ (wake-IsQueued i event now)
  step-IsQueued (abandons i) = QueueInv-later _ n _ _ (abandon-IsQueued i)
  step-IsQueued (yields i b c d now) = yield_prefill_chunk-IsQueued i b c d now
  step-IsQueued (decodes i) = QueueInv-later _ n _ _ (begin_decode-IsQueued i)
  step-IsQueued (marks_failed i) = QueueInv-later _ n _ _ (mark_permit-IsQueued mark_failed i)
  step-IsQueued (marks_cancelled i) = QueueInv-later _ n _ _ (mark_permit-IsQueued mark_cancelled i)
  step-IsQueued (finishes i) = QueueInv-later _ n _ _ (finish-IsQueued i)
  step-IsQueued (records_chunk_latency latency) = QueueInv-later _ n _ _ (
      QueueInv-same _ n w.waiters w.state _ (record { prefill = refl; decode = refl; next = refl })
        q)
