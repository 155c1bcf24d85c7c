-- ===== src/Scheduler/Permit.antt =====
-- `SchedulerPermit`: what a running request holds. The permit's `Arc<ModelScheduler>` is the state
-- that each function takes and returns.
use kir_ai.Prelude.{Bool, true, false, not, ◌||◌, if◌then◌else◌}
use kir_ai.Scheduler.State
use kir_ai.Scheduler.State.{
  GenerationPhase, SchedulerOutcome, ModelSchedulerState, PrefillYieldRelease, finish_active,
  finish_inactive, release_prefill_for_yield,
}

pub record SchedulerPermit : Type 0 where
  pub phase : GenerationPhase
  pub outcome : SchedulerOutcome
  pub active : Bool
  pub terminal_on_drop : Bool

pub data SchedulerAcquireError : Type 0 where
  queue_full queue_timed_out cancelled cancelled_after_admission : SchedulerAcquireError

abbrev pub is_decode : GenerationPhase → Bool
is_decode GenerationPhase.prefill = false
is_decode GenerationPhase.decode = true

-- The permit that both ways of admission construct.
abbrev pub new_permit : GenerationPhase → SchedulerPermit
new_permit initial_phase = record {
  phase = initial_phase;
  outcome = SchedulerOutcome.completed;
  active = true;
  terminal_on_drop = true;
}

unfoldable pub mark_failed : SchedulerPermit → SchedulerPermit
mark_failed permit = record permit { outcome = SchedulerOutcome.failed }

unfoldable pub mark_cancelled : SchedulerPermit → SchedulerPermit
mark_cancelled permit = record permit { outcome = SchedulerOutcome.cancelled }

unfoldable pub transition_to_decode :
    SchedulerPermit → ModelSchedulerState → SchedulerPermit × ModelSchedulerState
unfolding State.transition_to_decode
transition_to_decode permit s =
    if is_decode permit.phase || not permit.active
    then (permit, s)
    else (record permit { phase = GenerationPhase.decode }, State.transition_to_decode s)

-- `impl Drop for SchedulerPermit`
unfoldable pub drop_permit : SchedulerPermit → ModelSchedulerState → ModelSchedulerState
unfolding finish_active finish_inactive
drop_permit permit s =
    if not permit.terminal_on_drop
    then s
    else (if permit.active
        then finish_active permit.phase permit.outcome s
        else finish_inactive permit.outcome s)

-- `yield_prefill_chunk` from its release of the prefill slot up to the call of `acquire`.
unfoldable pub release_for_yield :
    SchedulerPermit
    → ModelSchedulerState
    → SchedulerPermit × PrefillYieldRelease × ModelSchedulerState
unfolding release_prefill_for_yield
release_for_yield permit s =
    let (release, s') = release_prefill_for_yield s in
    (record permit { active = false; terminal_on_drop = false }, release, s')

unfoldable pub complete_readmission_error :
    SchedulerAcquireError → SchedulerPermit → SchedulerPermit
complete_readmission_error SchedulerAcquireError.cancelled permit = record permit {
  outcome = SchedulerOutcome.cancelled;
  terminal_on_drop = true;
}
complete_readmission_error SchedulerAcquireError.cancelled_after_admission permit = record permit {
  terminal_on_drop = false;
}
complete_readmission_error SchedulerAcquireError.queue_full permit = record permit {
  outcome = SchedulerOutcome.failed;
  terminal_on_drop = true;
}
complete_readmission_error SchedulerAcquireError.queue_timed_out permit = record permit {
  outcome = SchedulerOutcome.failed;
  terminal_on_drop = true;
}
