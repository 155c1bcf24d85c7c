-- ===== src/Scheduler/Invariant/Tickets.antt =====
-- The ticket numbers of the waiting calls, as lists; a removal of a call removes its number.
use kir_ai.Prelude.{
  ℕ, zero, suc, ◌+◌, ◌≤◌, ◌<◌, ◌≡◌, refl, none, some, List, [], ◌∷◌, ◌++◌, arith, ◌==◌,
  if◌then◌else◌, get_elem?, set, remove_at, length,
}
use kir_ai.Scheduler.State.{SchedulerClass, class_eq}
use kir_ai.Scheduler.Ticket.{position}
use kir_ai.Scheduler.World.{Waiter, at_end}

-- The first occurrence of a number goes.
pub without : ℕ → List ℕ → List ℕ
without id [] = []
without id (x ∷ q) = if x == id then q else x ∷ without id q

unfoldable pub remove_position : ℕ → List ℕ → List ℕ
remove_position id q = elim (position id q) [ none ↦ q | some index ↦ remove_at q index ]

pub remove_position-without : (id : ℕ) (q : List ℕ) → remove_position id q ≡ without id q
unfolding remove_position without position
remove_position-without id [] = refl
remove_position-without id (x ∷ q) = ground (arith, remove_position-without id q)

pub without-front : (id : ℕ) (q : List ℕ) → without id (id ∷ q) ≡ q
unfolding without
without-front id q = ground arith

without_other : (id x : ℕ) (q : List ℕ) → x < id → without id (x ∷ q) ≡ x ∷ without id q
unfolding without
without_other id x q h = ground arith

-- The numbers of the calls that wait in the queue of a class, in order.
unfoldable pub ids : SchedulerClass → List Waiter → List ℕ
ids class [] = []
ids class (c ∷ cs) =
    let rest = ids class cs in if class_eq c.ticket.class class then c.ticket.id ∷ rest else rest

-- The numbers rise, above `lo` and up to `hi`.
abbrev pub Between : ℕ → ℕ → List Waiter → Type 0
Between lo hi [] = lo ≤ hi
Between lo hi (c ∷ cs) = (lo < c.ticket.id) × Between c.ticket.id hi cs

pub Between-lt :
    (lo hi : ℕ) (cs : List Waiter) (i : ℕ) {c : Waiter}
    → Between lo hi cs
    → get_elem? cs i ≡ some c
    → lo < c.ticket.id
Between-lt lo hi [] i b e = absurd (ground arith)
Between-lt lo hi (x ∷ cs) zero b e = ground arith
Between-lt lo hi (x ∷ cs) (suc i) {c} b e =
    omega (arith, Between-lt x.ticket.id hi cs i {c = c} b.1 e)

Between-mono : (lo lo' hi : ℕ) (cs : List Waiter) → lo ≤ lo' → Between lo' hi cs → Between lo hi cs
Between-mono lo lo' hi [] h b = omega arith
Between-mono lo lo' hi (c ∷ cs) h b = (omega arith, b.1)

pub Between-remove_at :
    (lo hi : ℕ) (cs : List Waiter) (i : ℕ) → Between lo hi cs → Between lo hi (remove_at cs i)
Between-remove_at lo hi [] i b = b
Between-remove_at lo hi (c ∷ cs) zero b = Between-mono lo c.ticket.id hi cs (omega arith) b.1
Between-remove_at lo hi (c ∷ cs) (suc i) b = (b.0, Between-remove_at c.ticket.id hi cs i b.1)

pub Between-at_end :
    (lo hi : ℕ) (cs : List Waiter) (c : Waiter)
    → Between lo hi cs
    → c.ticket.id ≡ suc hi
    → Between lo (suc hi) (at_end cs c)
Between-at_end lo hi [] c b e = omega arith
Between-at_end lo hi (x ∷ cs) c b e = (b.0, Between-at_end x.ticket.id hi cs c b.1 e)

pub Between-set :
    (lo hi : ℕ) (cs : List Waiter) (i : ℕ) {c : Waiter} (d : Waiter)
    → get_elem? cs i ≡ some c
    → d.ticket ≡ c.ticket
    → Between lo hi cs
    → Between lo hi (set cs i d)
Between-set lo hi [] i d e f b = b
Between-set lo hi (x ∷ cs) zero {c} d e f b = ground arith
Between-set lo hi (x ∷ cs) (suc i) {c} d e f b =
    (b.0, Between-set x.ticket.id hi cs i {c = c} d e f b.1)

pub ids-at_end :
    (class : SchedulerClass) (cs : List Waiter) (c : Waiter)
    → ids class (at_end cs c)
      ≡ ids class cs ++ (if class_eq c.ticket.class class then c.ticket.id ∷ [] else [])
unfolding ids
ids-at_end class [] c = ground arith
ids-at_end class (x ∷ cs) c = ground (arith, ids-at_end class cs c)

pub ids-set :
    (class : SchedulerClass) (cs : List Waiter) (i : ℕ) {c : Waiter} (d : Waiter)
    → get_elem? cs i ≡ some c
    → d.ticket ≡ c.ticket
    → ids class (set cs i d) ≡ ids class cs
unfolding ids
ids-set class [] i d e f = refl
ids-set class (x ∷ cs) zero d e f = ground arith
ids-set class (x ∷ cs) (suc i) {c} d e f = ground (arith, ids-set class cs i {c = c} d e f)

pub ids-remove_at :
    (class : SchedulerClass) (lo hi : ℕ) (cs : List Waiter) (i : ℕ) (c : Waiter)
    → Between lo hi cs
    → get_elem? cs i ≡ some c
    → ids class (remove_at cs i)
      ≡ (if class_eq c.ticket.class class then without c.ticket.id (ids class cs) else ids class cs)
unfolding ids
ids-remove_at class lo hi [] i c b e = absurd (ground arith)
ids-remove_at class lo hi (x ∷ cs) zero c b e =
    ground (arith, without-front x.ticket.id (ids class cs))
ids-remove_at class lo hi (x ∷ cs) (suc i) c b e = ground (
  arith,
  ids-remove_at class x.ticket.id hi cs i c b.1 e,
  Between-lt x.ticket.id hi cs i b.1 e,
  without_other c.ticket.id x.ticket.id (ids class cs),
)

-- Each waiting call is in one of the two queues.
pub length-ids :
    (cs : List Waiter)
    → length (ids SchedulerClass.prefill cs) + length (ids SchedulerClass.decode cs) ≡ length cs
unfolding ids
length-ids [] = omega arith
length-ids (c ∷ cs) = ground (arith, length-ids cs)
