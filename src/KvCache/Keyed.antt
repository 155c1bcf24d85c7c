-- ===== src/KvCache/Keyed.antt =====
-- crates/llm-kv-cache/src/block_pool.rs: the sessions stand in the map under their numbers.
pub mod Sessions
pub mod Copies
pub mod Reached
use kir_ai.Prelude.{
  ℕ, ◌≡◌, refl, sym, subst, Bool, true, false, Option, none, some, List, [], ◌∷◌, inl, inr, ◌==◌,
  if◌then◌else◌, Option-cases, Bool-cases, arith, Map, get, insert, remove, back,
}
use kir_ai.KvCache.Block.{BlockId, ok, CacheBlock, Outcome-cases}
use kir_ai.KvCache.Table.{
  SessionId, SessionBlockTable, append_id, new_session, append_owned_block, replace,
  replace_owned_block, touch_session,
}
use kir_ai.KvCache.Pool.{
  BlockPool, next_access, take_block, set_block, with_metrics, share_block, retain, release_block,
  release, allocate, touch_live,
}
use kir_ai.KvCache.Sessions.{set_session}

-- Every session stands in the map under its number.
unfoldable pub IsKeyed : Map SessionBlockTable → Type 0
IsKeyed [] = Unit {0}
IsKeyed ((id, t) ∷ m) = (t.session_id ≡ id) × IsKeyed m

abbrev pub HasKeys : BlockPool → Type 0
HasKeys p = IsKeyed p.sessions

pub remove-IsKeyed :
    (id : SessionId) (m : Map SessionBlockTable) → IsKeyed m → IsKeyed (remove id m)
unfolding IsKeyed remove
remove-IsKeyed id [] h = tt
remove-IsKeyed id ((k, t) ∷ m) h = elim (Bool-cases (k == id)) [
  | inl e ↦ rw e (remove-IsKeyed id m h.1)
  | inr e ↦ rw e (h.0, remove-IsKeyed id m h.1)
]

pub get-IsKeyed :
    (id : SessionId) (m : Map SessionBlockTable) (t : SessionBlockTable)
    → IsKeyed m
    → get id m ≡ some t
    → t.session_id ≡ id
unfolding IsKeyed get
get-IsKeyed id [] t h e = absurd (ground (arith, e))
get-IsKeyed id ((k, s) ∷ m) t h e = elim (Bool-cases (k == id)) [
  | inl y ↦ ground (arith, y, e, h.0)
  | inr n ↦ get-IsKeyed id m t h.1 (ground (arith, n, e))
]

pub insert-IsKeyed :
    (id : SessionId) (t : SessionBlockTable) (m : Map SessionBlockTable)
    → t.session_id ≡ id
    → IsKeyed m
    → IsKeyed (insert id t m)
unfolding IsKeyed insert
insert-IsKeyed id t [] e h = (e, tt)
insert-IsKeyed id t ((k, s) ∷ m) e h = elim (Bool-cases (k == id)) [
  | inl y ↦ rw y (ground (arith, y, e), h.1)
  | inr n ↦ rw n (h.0, insert-IsKeyed id t m e h.1)
]

pub set_session-HasKeys :
    (id : SessionId) (t : SessionBlockTable) (p : BlockPool)
    → t.session_id ≡ id
    → HasKeys p
    → HasKeys (set_session id t p)
unfolding set_session
set_session-HasKeys id t p e h = insert-IsKeyed id t p.sessions e h

pub new_session-id :
    (id access : ℕ) (t : SessionBlockTable) → new_session id access ≡ ok t → t.session_id ≡ id
unfolding new_session
new_session-id id access t e = ground (arith, e)

pub append_owned_block-id :
    (t : SessionBlockTable) (id : BlockId) (newly : Bool) (t' : SessionBlockTable)
    → append_owned_block t id ≡ ok (newly, t')
    → t'.session_id ≡ t.session_id
unfolding append_owned_block
append_owned_block-id t id newly t' e = ground (arith, e)

pub replace_owned_block-id :
    (t : SessionBlockTable) (index : ℕ) (id previous : BlockId) (r : Bool) (t' : SessionBlockTable)
    → replace_owned_block t index id ≡ ok ((previous, r), t')
    → t'.session_id ≡ t.session_id
unfolding replace_owned_block
replace_owned_block-id t index id previous r t' e = ground (arith, e)

pub release-sessions : (id : BlockId) (p : BlockPool) → (release id p).1.sessions ≡ p.sessions
unfolding release release_block set_block
release-sessions id p = elim (Option-cases (get id p.blocks)) [
  | inl n ↦ rw (n, release) refl
  | inr (b, e) ↦ elim (Bool-cases (b.ref_count == 0)) [
    | inl z ↦ rw (e, release) (rw z refl)
    | inr z ↦ rw (e, release) (rw z (ground arith))
  ]
]

pub release-HasKeys : (id : BlockId) (p : BlockPool) → HasKeys p → HasKeys (release id p).1
release-HasKeys id p h = subst IsKeyed (sym (release-sessions id p)) h

pub touch_live-HasKeys : (id : BlockId) (p : BlockPool) → HasKeys p → HasKeys (touch_live id p).1
unfolding touch_live set_block
touch_live-HasKeys id p h = elim (Option-cases (get id p.blocks)) [
  | inl n ↦ rw (n, touch_live) h
  | inr (b, e) ↦ elim (Bool-cases (b.ref_count == 0)) [
    | inl z ↦ rw (e, touch_live) (rw z h)
    | inr z ↦ rw (e, touch_live) (rw z h)
  ]
]

pub share_block-HasKeys :
    (id : BlockId) (b : CacheBlock) (p : BlockPool) → HasKeys p → HasKeys (share_block b id p)
unfolding share_block set_block with_metrics
share_block-HasKeys id b p h = h

pub retain-HasKeys : (id : BlockId) (p : BlockPool) → HasKeys p → HasKeys (retain id p).1
unfolding retain
retain-HasKeys id p h = elim (Option-cases (get id p.blocks)) [
  | inl n ↦ rw (n, retain) h
  | inr (b, e) ↦ elim (Bool-cases (b.ref_count == 0)) [
    | inl z ↦ rw (e, retain) (rw z h)
    | inr z ↦ rw (e, retain) (rw z (share_block-HasKeys id b p h))
  ]
]

pub allocate-HasKeys : (p : BlockPool) → HasKeys p → HasKeys (allocate p).1
unfolding allocate take_block next_access set_block with_metrics
allocate-HasKeys p h = elim (Option-cases (back p.free_list)) [
  | inl n ↦ rw (n, allocate) h
  | inr (id, e) ↦ elim (Option-cases (get id p.blocks)) [
    | inl n ↦ rw (e, allocate) (rw (n, take_block) h)
    | inr (b, g) ↦ rw (e, allocate) (rw (g, take_block) h)
  ]
]
