-- ===== src/KvCache/FreeList/Sessions.antt =====
-- crates/llm-kv-cache/src/block_pool.rs: the free list against the reference counts, at each
-- operation on the sessions.
use kir_ai.Prelude.{
  ℕ, suc, zero, ◌+◌, u64_max, ◌≡◌, Bool, true, false, ◌&&◌, some, List, [], ◌∷◌, inl, inr, is_empty,
  length, ◌==◌, ltb, if◌then◌else◌, get, Option-cases, Bool-cases, saturating_add, remove,
}
use kir_ai.KvCache.Block.{BlockId, Outcome-cases, CacheBlock}
use kir_ai.KvCache.Table.{SessionId, new_session, append_owned_block, read_block, touch_session}
use kir_ai.KvCache.Pool.{
  BlockPool, next_access, with_metrics, share_block, release, allocate, record_eviction,
  resident_blocks_from_free_list,
}
use kir_ai.KvCache.Sessions.{
  set_session, next_session_id, add_session, create_session, is_resident, is_unreferenced,
  release_owned, release_session_inner, release_session, own_block, append_to_session,
  append_block_to_session_inner, read_touched,
}
use kir_ai.KvCache.Eviction.{
  lru_session_except, evict_loop, evict_sessions_until_free, evict_if_full, allocate_and_append,
  allocate_for_session,
}
use kir_ai.KvCache.FreeList.{
  IsFreeListed, share_block-IsFreeListed, release-IsFreeListed, touch_live-IsFreeListed,
  allocate-IsFreeListed,
}

add_session-IsFreeListed :
    (id : SessionId) (p : BlockPool) → IsFreeListed p → IsFreeListed (add_session id p).1
unfolding add_session set_session IsFreeListed
add_session-IsFreeListed id p h = elim (Outcome-cases (new_session id p.access_clock)) [
  | inl (t, e) ↦ rw (e, add_session) h
  | inr (x, e) ↦ rw (e, add_session) h
]

pub create_session-IsFreeListed :
    (p : BlockPool) → IsFreeListed p → IsFreeListed (create_session p).1
unfolding create_session next_session_id next_access IsFreeListed
create_session-IsFreeListed p h = elim (Bool-cases (ltb p.next_session_id u64_max)) [
  | inl e ↦
      rw (e, create_session)
        (add_session-IsFreeListed p.next_session_id
          (next_access (record p { next_session_id = p.next_session_id + 1 })) h)
  | inr e ↦ rw (e, create_session) h
]

release_owned-IsFreeListed :
    (ids : List BlockId) (n : ℕ) (p : BlockPool)
    → IsFreeListed p
    → IsFreeListed (release_owned ids n p).1
unfolding release_owned
release_owned-IsFreeListed [] n p h = h
release_owned-IsFreeListed (id ∷ ids) n p h =
    let p' = (release id p).1 in
    release_owned-IsFreeListed ids
      (if (release id p).0 && (is_resident id p && is_unreferenced id p')
        then saturating_add n 1
        else n)
      p' (release-IsFreeListed id p h)

pub release_session_inner-IsFreeListed :
    (id : SessionId) (p : BlockPool) → IsFreeListed p → IsFreeListed (release_session_inner id p).1
unfolding release_session_inner IsFreeListed
release_session_inner-IsFreeListed id p h = elim (Option-cases (get id p.sessions)) [
  | inl n ↦ rw (n, release_session_inner) h
  | inr (t, e) ↦
      rw (e, release_session_inner)
        (release_owned-IsFreeListed t.owned_blocks 0 (record p { sessions = remove id p.sessions })
          h)
]

pub release_session-IsFreeListed :
    (id : SessionId) (p : BlockPool) → IsFreeListed p → IsFreeListed (release_session id p).1
unfolding release_session
release_session-IsFreeListed id p h = elim (Option-cases (release_session_inner id p).0) [
  | inl e ↦ rw (e, release_session) (release_session_inner-IsFreeListed id p h)
  | inr (n, e) ↦ rw (e, release_session) (release_session_inner-IsFreeListed id p h)
]

own_block-IsFreeListed :
    (retained : Bool) (id : BlockId) (b : CacheBlock) (p : BlockPool)
    → get id p.blocks ≡ some b
    → (b.ref_count == 0) ≡ false
    → IsFreeListed p
    → IsFreeListed (own_block retained id b p)
unfolding own_block
own_block-IsFreeListed true id b p e z h =
    touch_live-IsFreeListed id (share_block b id p) (share_block-IsFreeListed id b p e z h)
own_block-IsFreeListed false id b p e z h = touch_live-IsFreeListed id p h

append_to_session-IsFreeListed :
    (session_id : SessionId) (id : BlockId) (retain_new_owner : Bool) (b : CacheBlock)
    (p : BlockPool)
    → get id p.blocks ≡ some b
    → (b.ref_count == 0) ≡ false
    → IsFreeListed p
    → IsFreeListed (append_to_session session_id id retain_new_owner b p).1
unfolding append_to_session set_session IsFreeListed
append_to_session-IsFreeListed session_id id r b p e z h =
    elim (Option-cases (get session_id p.sessions)) [
      | inl n ↦ rw (n, append_to_session) h
      | inr (t, et) ↦ elim (Outcome-cases (append_owned_block t id)) [
        | inl ((newly, t'), eo) ↦
            rw (et, append_to_session)
              (rw eo (
                own_block-IsFreeListed (r && newly) id b
                  (set_session session_id (touch_session p.access_clock t') p) e z h))
        | inr (x, eo) ↦ rw (et, append_to_session) (rw eo h)
      ]
    ]

pub append_block_to_session_inner-IsFreeListed :
    (session_id : SessionId) (id : BlockId) (retain_new_owner : Bool) (p : BlockPool)
    → IsFreeListed p
    → IsFreeListed (append_block_to_session_inner session_id id retain_new_owner p).1
unfolding append_block_to_session_inner next_access IsFreeListed
append_block_to_session_inner-IsFreeListed session_id id r p h =
    elim (Option-cases (get id p.blocks)) [
      | inl n ↦ rw (n, append_block_to_session_inner) h
      | inr (b, e) ↦ elim (Bool-cases (b.ref_count == 0)) [
        | inl z ↦ rw (e, append_block_to_session_inner) (rw z h)
        | inr z ↦
            rw (e, append_block_to_session_inner)
              (rw z (append_to_session-IsFreeListed session_id id r b (next_access p) e z h))
      ]
    ]

evict_loop-IsFreeListed :
    (fuel : ℕ) (excluded : SessionId) (p : BlockPool)
    → IsFreeListed p
    → IsFreeListed (evict_loop fuel excluded p)
unfolding evict_loop with_metrics IsFreeListed
evict_loop-IsFreeListed zero excluded p h = h
evict_loop-IsFreeListed (suc fuel) excluded p h = elim (Bool-cases (is_empty p.free_list)) [
  | inr n ↦ rw (n, evict_loop) h
  | inl n ↦ elim (Option-cases (lru_session_except (some excluded) p)) [
    | inl l ↦ rw (n, evict_loop) (rw l h)
    | inr (id, l) ↦
        let h' = release_session_inner-IsFreeListed id p h in
        elim (Option-cases (release_session_inner id p).0) [
          | inl r ↦ rw (n, evict_loop) (rw l (rw r h'))
          | inr (freed, r) ↦
              rw (n, evict_loop)
                (rw l (
                  rw r (
                    evict_loop-IsFreeListed fuel excluded
                      (with_metrics (record_eviction freed (resident_blocks_from_free_list p))
                        (release_session_inner id p).1)
                      h')))
        ]
  ]
]

pub evict_if_full-IsFreeListed :
    (id : SessionId) (p : BlockPool) → IsFreeListed p → IsFreeListed (evict_if_full id p)
unfolding evict_if_full evict_sessions_until_free
evict_if_full-IsFreeListed id p h = elim (Bool-cases (is_empty p.free_list)) [
  | inl n ↦ rw (n, evict_if_full) (evict_loop-IsFreeListed (length p.sessions) id p h)
  | inr n ↦ rw (n, evict_if_full) h
]

allocate_and_append-IsFreeListed :
    (id : SessionId) (p : BlockPool) → IsFreeListed p → IsFreeListed (allocate_and_append id p).1
unfolding allocate_and_append
allocate_and_append-IsFreeListed id p h =
    let h' = allocate-IsFreeListed p h in
    elim (Option-cases (allocate p).0) [
      | inl a ↦ rw (a, allocate_and_append) h'
      | inr (block, a) ↦
          let h'' = append_block_to_session_inner-IsFreeListed id block false (allocate p).1 h' in
          elim (Outcome-cases (append_block_to_session_inner id block false (allocate p).1).0) [
            | inl (u, o) ↦ rw (a, allocate_and_append) (rw o h'')
            | inr (x, o) ↦ rw (a, allocate_and_append) (rw o h'')
          ]
    ]

pub allocate_for_session-IsFreeListed :
    (id : SessionId) (p : BlockPool) → IsFreeListed p → IsFreeListed (allocate_for_session id p).1
unfolding allocate_for_session
allocate_for_session-IsFreeListed id p h = elim (Option-cases (get id p.sessions)) [
  | inl n ↦ rw (n, allocate_for_session) h
  | inr (t, e) ↦
      rw (e, allocate_for_session)
        (allocate_and_append-IsFreeListed id (evict_if_full id p)
          (evict_if_full-IsFreeListed id p h))
]

pub read_touched-IsFreeListed :
    (id : SessionId) (index : ℕ) (p : BlockPool)
    → IsFreeListed p
    → IsFreeListed (read_touched id index p).1
unfolding read_touched set_session IsFreeListed
read_touched-IsFreeListed id index p h = elim (Option-cases (get id p.sessions)) [
  | inl n ↦ rw (n, read_touched) h
  | inr (t, e) ↦ elim (Option-cases (read_block t index)) [
    | inl n ↦ rw (e, read_touched) (rw n h)
    | inr (block, r) ↦
        rw (e, read_touched)
          (rw r
            (touch_live-IsFreeListed block (set_session id (touch_session p.access_clock t) p) h))
  ]
]
