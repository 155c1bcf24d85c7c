-- ===== src/Scheduler/State.antt =====
-- The counters and queues behind the scheduler's mutex (`ModelSchedulerState`) and the methods that
-- change them. Durations and instants are numbers of nanoseconds.
use kir_ai.Prelude.{
  ℕ, min, max, Bool, true, false, not, ◌||◌, Option, none, some, List, [], ltb, leb, ◌==◌,
  if◌then◌else◌, length, is_empty, front, unwrap_or, u64_max, wrapping_add, saturating_add,
  saturating_sub,
}

pub data GenerationPhase : Type 0 where
  prefill decode : GenerationPhase

pub data SchedulerClass : Type 0 where
  prefill decode : SchedulerClass

unfoldable pub as_phase : SchedulerClass → GenerationPhase
as_phase SchedulerClass.prefill = GenerationPhase.prefill
as_phase SchedulerClass.decode = GenerationPhase.decode

abbrev pub class_eq : SchedulerClass → SchedulerClass → Bool
class_eq SchedulerClass.prefill SchedulerClass.prefill = true
class_eq SchedulerClass.decode SchedulerClass.decode = true
class_eq _ _ = false

pub data SchedulerOutcome : Type 0 where
  completed cancelled failed : SchedulerOutcome

pub record ModelSchedulerOptions : Type 0 where
  pub concurrency_limit : ℕ
  pub queue_limit : ℕ
  pub queue_timeout : Option ℕ
  pub prefill_threshold_chars : ℕ
  pub prefill_burst : ℕ

pub record ModelSchedulerState : Type 0 where
  pub next_ticket : ℕ
  pub queued_prefill : List ℕ
  pub queued_decode : List ℕ
  pub active_prefill : ℕ
  pub active_decode : ℕ
  pub prefill_admissions_since_decode : ℕ
  pub admitted_prefill : ℕ
  pub admitted_decode : ℕ
  pub completed : ℕ
  pub cancelled : ℕ
  pub failed : ℕ
  pub queued_cancelled : ℕ
  pub queue_timeouts : ℕ
  pub prefill_yields : ℕ
  pub prefill_yields_to_decode : ℕ
  pub prefill_yield_reacquire_waits : ℕ
  pub prefill_yield_reacquire_wait_nanos_total : ℕ
  pub prefill_yield_reacquire_wait_nanos_max : ℕ
  pub prefill_chunk_latency_count : ℕ
  pub prefill_chunk_latency_nanos_total : ℕ
  pub prefill_chunk_latency_nanos_min : ℕ
  pub prefill_chunk_latency_nanos_max : ℕ
  pub decode_starvation_events : ℕ
  pub decode_starvation_waits : ℕ
  pub decode_starvation_wait_nanos_total : ℕ
  pub decode_starvation_wait_nanos_max : ℕ

-- `ModelSchedulerState::default()`
abbrev pub initial : ModelSchedulerState
initial = record {
  next_ticket = 0;
  queued_prefill = [];
  queued_decode = [];
  active_prefill = 0;
  active_decode = 0;
  prefill_admissions_since_decode = 0;
  admitted_prefill = 0;
  admitted_decode = 0;
  completed = 0;
  cancelled = 0;
  failed = 0;
  queued_cancelled = 0;
  queue_timeouts = 0;
  prefill_yields = 0;
  prefill_yields_to_decode = 0;
  prefill_yield_reacquire_waits = 0;
  prefill_yield_reacquire_wait_nanos_total = 0;
  prefill_yield_reacquire_wait_nanos_max = 0;
  prefill_chunk_latency_count = 0;
  prefill_chunk_latency_nanos_total = 0;
  prefill_chunk_latency_nanos_min = 0;
  prefill_chunk_latency_nanos_max = 0;
  decode_starvation_events = 0;
  decode_starvation_waits = 0;
  decode_starvation_wait_nanos_total = 0;
  decode_starvation_wait_nanos_max = 0;
}

pub record PrefillYieldRelease : Type 0 where
  pub admitted_decode_before : ℕ

-- A duration is a number of nanoseconds; `as_nanos` has 128 bits.
unfoldable pub duration_nanos_u64 : ℕ → ℕ
duration_nanos_u64 duration = min duration u64_max

unfoldable pub active_total : ModelSchedulerState → ℕ
active_total s = wrapping_add s.active_prefill s.active_decode

unfoldable pub queued_total : ModelSchedulerState → ℕ
queued_total s = wrapping_add (length s.queued_prefill) (length s.queued_decode)

unfoldable pub queue : SchedulerClass → ModelSchedulerState → List ℕ
queue SchedulerClass.prefill s = s.queued_prefill
queue SchedulerClass.decode s = s.queued_decode

-- A write through `queue_mut`.
unfoldable pub set_queue : SchedulerClass → List ℕ → ModelSchedulerState → ModelSchedulerState
set_queue SchedulerClass.prefill q s = record s { queued_prefill = q }
set_queue SchedulerClass.decode q s = record s { queued_decode = q }

-- The first `match` of `start_active`.
unfoldable pub count_active : GenerationPhase → ModelSchedulerState → ModelSchedulerState
count_active GenerationPhase.prefill s = record s {
  active_prefill = wrapping_add s.active_prefill 1;
}
count_active GenerationPhase.decode s = record s { active_decode = wrapping_add s.active_decode 1 }

-- The second one.
unfoldable pub count_admission : SchedulerClass → ModelSchedulerState → ModelSchedulerState
count_admission SchedulerClass.prefill s = record s {
  prefill_admissions_since_decode = wrapping_add s.prefill_admissions_since_decode 1;
  admitted_prefill = wrapping_add s.admitted_prefill 1;
}
count_admission SchedulerClass.decode s = record s {
  prefill_admissions_since_decode = 0;
  admitted_decode = wrapping_add s.admitted_decode 1;
}

unfoldable pub start_active :
    SchedulerClass → GenerationPhase → ModelSchedulerState → ModelSchedulerState
unfolding count_active count_admission
start_active admission_class initial_phase s =
    count_admission admission_class (count_active initial_phase s)

unfoldable pub finish_inactive : SchedulerOutcome → ModelSchedulerState → ModelSchedulerState
finish_inactive SchedulerOutcome.completed s = record s { completed = wrapping_add s.completed 1 }
finish_inactive SchedulerOutcome.cancelled s = record s { cancelled = wrapping_add s.cancelled 1 }
finish_inactive SchedulerOutcome.failed s = record s { failed = wrapping_add s.failed 1 }

unfoldable pub finish_active :
    GenerationPhase → SchedulerOutcome → ModelSchedulerState → ModelSchedulerState
unfolding finish_inactive
finish_active GenerationPhase.prefill outcome s =
    finish_inactive outcome (record s { active_prefill = saturating_sub s.active_prefill 1 })
finish_active GenerationPhase.decode outcome s =
    finish_inactive outcome (record s { active_decode = saturating_sub s.active_decode 1 })

unfoldable pub transition_to_decode : ModelSchedulerState → ModelSchedulerState
transition_to_decode s = record s {
  active_prefill = saturating_sub s.active_prefill 1;
  active_decode = wrapping_add s.active_decode 1;
}

unfoldable pub release_prefill_for_yield :
    ModelSchedulerState → PrefillYieldRelease × ModelSchedulerState
release_prefill_for_yield s = (
  record { admitted_decode_before = s.admitted_decode },
  record s { active_prefill = saturating_sub s.active_prefill 1 },
)

unfoldable pub record_prefill_yield_reacquire_wait : ℕ → ModelSchedulerState → ModelSchedulerState
unfolding duration_nanos_u64
record_prefill_yield_reacquire_wait wait s =
    let wait_nanos = duration_nanos_u64 wait in
    record s {
      prefill_yield_reacquire_waits = saturating_add s.prefill_yield_reacquire_waits 1;
      prefill_yield_reacquire_wait_nanos_total =
          saturating_add s.prefill_yield_reacquire_wait_nanos_total wait_nanos;
      prefill_yield_reacquire_wait_nanos_max =
          max s.prefill_yield_reacquire_wait_nanos_max wait_nanos;
    }

unfoldable pub record_prefill_yield_success :
    PrefillYieldRelease → ℕ → ModelSchedulerState → ModelSchedulerState
unfolding record_prefill_yield_reacquire_wait
record_prefill_yield_success release wait s = record_prefill_yield_reacquire_wait wait (record s {
  prefill_yields = wrapping_add s.prefill_yields 1;
  prefill_yields_to_decode =
      if ltb release.admitted_decode_before s.admitted_decode
      then wrapping_add s.prefill_yields_to_decode 1
      else s.prefill_yields_to_decode;
})

unfoldable pub record_prefill_chunk_latency : ℕ → ModelSchedulerState → ModelSchedulerState
unfolding duration_nanos_u64
record_prefill_chunk_latency latency s =
    let latency_nanos = duration_nanos_u64 latency in
    record s {
      prefill_chunk_latency_nanos_min =
          if s.prefill_chunk_latency_count == 0
          then latency_nanos
          else min s.prefill_chunk_latency_nanos_min latency_nanos;
      prefill_chunk_latency_count = saturating_add s.prefill_chunk_latency_count 1;
      prefill_chunk_latency_nanos_total =
          saturating_add s.prefill_chunk_latency_nanos_total latency_nanos;
      prefill_chunk_latency_nanos_max = max s.prefill_chunk_latency_nanos_max latency_nanos;
    }

unfoldable pub record_decode_starvation_wait : ℕ → ModelSchedulerState → ModelSchedulerState
unfolding duration_nanos_u64
record_decode_starvation_wait wait s =
    let wait_nanos = duration_nanos_u64 wait in
    record s {
      decode_starvation_waits = saturating_add s.decode_starvation_waits 1;
      decode_starvation_wait_nanos_total =
          saturating_add s.decode_starvation_wait_nanos_total wait_nanos;
      decode_starvation_wait_nanos_max = max s.decode_starvation_wait_nanos_max wait_nanos;
    }

unfoldable pub record_decode_starvation_event : ModelSchedulerState → ModelSchedulerState
record_decode_starvation_event s = record s {
  decode_starvation_events = saturating_add s.decode_starvation_events 1;
}

unfoldable pub has_prefill_pressure : ModelSchedulerState → Bool
has_prefill_pressure s = ltb 0 s.active_prefill || not (is_empty s.queued_prefill)

-- The `match` on which queues have tickets.
admissible : Bool → Bool → ℕ → ModelSchedulerState → Option SchedulerClass
admissible false false prefill_burst s = none
admissible true false prefill_burst s = some SchedulerClass.prefill
admissible false true prefill_burst s = some SchedulerClass.decode
admissible true true prefill_burst s =
    if leb prefill_burst s.prefill_admissions_since_decode
    then some SchedulerClass.decode
    else (if ltb (unwrap_or (front s.queued_decode) u64_max)
          (unwrap_or (front s.queued_prefill) u64_max)
        then some SchedulerClass.decode
        else some SchedulerClass.prefill)

unfoldable pub next_admissible_class : ℕ → ModelSchedulerState → Option SchedulerClass
unfolding admissible
next_admissible_class prefill_burst s =
    admissible (not (is_empty s.queued_prefill)) (not (is_empty s.queued_decode)) prefill_burst s
