-- ===== src/Scheduler/Invariant/Admissions.antt =====
-- What each event does to the counts of admissions.
use kir_ai.Prelude.{
  ℕ, ◌+◌, ◌^◌, ◌<◌, ◌≡◌, refl, ◌⊎◌, inl, inr, true, some, List, arith, wrapping_add, is_empty,
  length, Bool-cases, pop_front,
}
use kir_ai.Scheduler.State.{
  GenerationPhase, SchedulerClass, ModelSchedulerOptions, ModelSchedulerState, start_active,
  set_queue, queue, next_admissible_class,
}
use kir_ai.Scheduler.Permit.{SchedulerPermit}
use kir_ai.Scheduler.Admission.{try_acquire_immediate, try_admit_queued}

pub record SameTally (s t : ModelSchedulerState) : Type 0 where
  pub prefill : t.admitted_prefill ≡ s.admitted_prefill
  pub decode : t.admitted_decode ≡ s.admitted_decode
  pub since : t.prefill_admissions_since_decode ≡ s.prefill_admissions_since_decode

-- One request of the class was admitted. While a decode request waits, a prefill request is admitted
-- only within the burst.
abbrev pub Admitted : ℕ → SchedulerClass → ModelSchedulerState → ModelSchedulerState → Type 0
Admitted burst SchedulerClass.prefill s t =
    (t.admitted_prefill ≡ wrapping_add s.admitted_prefill 1)
    × (t.admitted_decode ≡ s.admitted_decode)
    × (t.prefill_admissions_since_decode ≡ wrapping_add s.prefill_admissions_since_decode 1)
    × ((is_empty s.queued_decode ≡ true) ⊎ (s.prefill_admissions_since_decode < burst))
Admitted burst SchedulerClass.decode s t =
    (t.admitted_prefill ≡ s.admitted_prefill)
    × (t.admitted_decode ≡ wrapping_add s.admitted_decode 1)
    × (t.prefill_admissions_since_decode ≡ 0)

abbrev pub Admits : ℕ → ModelSchedulerState → ModelSchedulerState → Type 0
Admits burst s t = SameTally s t ⊎ ((class : SchedulerClass) × Admitted burst class s t)

pub Admitted-then :
    (burst : ℕ) (class : SchedulerClass) (s t u : ModelSchedulerState)
    → Admitted burst class s t
    → SameTally t u
    → Admitted burst class s u
Admitted-then burst SchedulerClass.prefill s t u h k = ground arith
Admitted-then burst SchedulerClass.decode s t u h k = ground arith

pub Admits-then :
    (burst : ℕ) (s t u : ModelSchedulerState) → Admits burst s t → SameTally t u → Admits burst s u
Admits-then burst s t u (inl h) k = inl (ground arith)
Admits-then burst s t u (inr (class, h)) k = inr (class, Admitted-then burst class s t u h k)

start_active-Admitted :
    (burst : ℕ) (class : SchedulerClass) (phase : GenerationPhase) (s q : ModelSchedulerState)
    → SameTally s q
    → (class ≡ SchedulerClass.prefill
        → (is_empty s.queued_decode ≡ true) ⊎ (s.prefill_admissions_since_decode < burst))
    → Admitted burst class s (start_active class phase q)
unfolding start_active
start_active-Admitted burst SchedulerClass.prefill GenerationPhase.prefill s q h ok =
    (ground arith, ground arith, ground arith, ok refl)
start_active-Admitted burst SchedulerClass.prefill GenerationPhase.decode s q h ok =
    (ground arith, ground arith, ground arith, ok refl)
start_active-Admitted burst SchedulerClass.decode _ s q h ok = ground arith

nothing_waits :
    (s : ModelSchedulerState) → length s.queued_decode ≡ 0 → is_empty s.queued_decode ≡ true
nothing_waits s h = elim (Bool-cases (is_empty s.queued_decode)) [
  | inl e ↦ e
  | inr e ↦ absurd (grind arith)
]

pub try_acquire_immediate-Admitted :
    (o : ModelSchedulerOptions) (class : SchedulerClass) (phase : GenerationPhase)
    (s : ModelSchedulerState) {p : SchedulerPermit} {t : ModelSchedulerState}
    → length s.queued_prefill + length s.queued_decode < 2 ^ 64
    → try_acquire_immediate o class phase s ≡ some (p, t)
    → Admitted o.prefill_burst class s t
unfolding try_acquire_immediate
try_acquire_immediate-Admitted o class phase s {p} {t} few e =
    let k =
      start_active-Admitted o.prefill_burst class phase s s
        (record { prefill = refl; decode = refl; since = refl })
        (λ _. inl (nothing_waits s (ground arith))) in
    mathlib.Core.Path.subst (λ u. Admitted o.prefill_burst class s u) (ground arith) k

prefill_is_next :
    (burst : ℕ) (s : ModelSchedulerState)
    → next_admissible_class burst s ≡ some SchedulerClass.prefill
    → (is_empty s.queued_decode ≡ true) ⊎ (s.prefill_admissions_since_decode < burst)
unfolding next_admissible_class
prefill_is_next burst s e = elim (Bool-cases (is_empty s.queued_decode)) [
  | inl h ↦ inl h
  | inr h ↦ inr (ground arith)
]

set_queue-SameTally :
    (class : SchedulerClass) (q : List ℕ) (s : ModelSchedulerState)
    → SameTally s (set_queue class q s)
unfolding set_queue
set_queue-SameTally SchedulerClass.prefill q s = record {
  prefill = refl;
  decode = refl;
  since = refl;
}
set_queue-SameTally _ q s = record { prefill = refl; decode = refl; since = refl }

admitted_next :
    (o : ModelSchedulerOptions) (id : ℕ) (class : SchedulerClass) (phase : GenerationPhase)
    (s : ModelSchedulerState) {r : SchedulerPermit × ModelSchedulerState}
    → try_admit_queued o id class phase s ≡ some r
    → (next_admissible_class o.prefill_burst s ≡ some class)
      × (r.1 ≡ start_active class phase (set_queue class (pop_front (queue class s)) s))
unfolding try_admit_queued
admitted_next o id SchedulerClass.prefill phase s e = ground arith
admitted_next o id SchedulerClass.decode phase s e = ground arith

pub try_admit_queued-Admitted :
    (o : ModelSchedulerOptions) (id : ℕ) (class : SchedulerClass) (phase : GenerationPhase)
    (s : ModelSchedulerState) {r : SchedulerPermit × ModelSchedulerState}
    → try_admit_queued o id class phase s ≡ some r
    → Admitted o.prefill_burst class s r.1
try_admit_queued-Admitted o id class phase s e =
    let (next, f) = admitted_next o id class phase s e in
    rw f (
      start_active-Admitted o.prefill_burst class phase s _
        (set_queue-SameTally class (pop_front (queue class s)) s)
        (λ g. prefill_is_next o.prefill_burst s (rw (← g) next)))
