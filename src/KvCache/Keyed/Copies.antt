-- ===== src/KvCache/Keyed/Copies.antt =====
-- crates/llm-kv-cache/src/block_pool.rs: the numbers of the sessions, at the copy on write and at the
-- sharing of a prefix.
use kir_ai.Prelude.{
  ℕ, Bool, true, false, List, [], ◌∷◌, inl, inr, ◌∙◌, ◌==◌, get, Option-cases, Bool-cases,
}
use kir_ai.KvCache.Block.{BlockId, CacheBlockHash, Outcome-cases}
use kir_ai.KvCache.Contents.{copy_contents_from}
use kir_ai.KvCache.Table.{SessionId, replace_owned_block, touch_session}
use kir_ai.KvCache.Pool.{BlockPool, next_access, set_block, with_metrics, allocate}
use kir_ai.KvCache.Sessions.{set_session, append_block_to_session_inner}
use kir_ai.KvCache.Eviction.{evict_if_full}
use kir_ai.KvCache.CopyOnWrite.{
  touch_in_session, touch_session_block, live_block, session_block, keep_block, fail_released,
  release_previous, exchange_block, copy_block, allocate_and_copy, copy_after_eviction,
  copy_on_write_session_block,
}
use kir_ai.KvCache.Prefixes.{lookup_prefix, append_all, attach_prefix_to_session}
use kir_ai.KvCache.Keyed.{
  HasKeys, get-IsKeyed, set_session-HasKeys, replace_owned_block-id, release-HasKeys,
  touch_live-HasKeys, allocate-HasKeys,
}
use kir_ai.KvCache.Keyed.Sessions.{append_block_to_session_inner-HasKeys, evict_if_full-HasKeys}

touch_in_session-HasKeys :
    (session_id : SessionId) (id : BlockId) (p : BlockPool)
    → HasKeys p
    → HasKeys (touch_in_session session_id id p).1
unfolding touch_in_session set_session
touch_in_session-HasKeys session_id id p h = elim (Option-cases (get session_id p.sessions)) [
  | inl n ↦ rw (n, touch_in_session) h
  | inr (t, e) ↦
      rw (e, touch_in_session)
        (touch_live-HasKeys id (set_session session_id (touch_session p.access_clock t) p) (
          set_session-HasKeys session_id (touch_session p.access_clock t) p
            (get-IsKeyed session_id p.sessions t h e) h))
]

keep_block-HasKeys :
    (session_id : SessionId) (id : BlockId) (p : BlockPool)
    → HasKeys p
    → HasKeys (keep_block session_id id p).1
unfolding keep_block touch_session_block next_access
keep_block-HasKeys session_id id p h =
    let h' = touch_in_session-HasKeys session_id id (next_access p) h in
    elim (Outcome-cases (touch_session_block session_id id p).0) [
      | inl (u, o) ↦ rw (o, keep_block) h'
      | inr (x, o) ↦ rw (o, keep_block) h'
    ]

release_previous-HasKeys :
    (r : Bool) (id : BlockId) (p : BlockPool) → HasKeys p → HasKeys (release_previous r id p)
unfolding release_previous
release_previous-HasKeys true id p h = release-HasKeys id p h
release_previous-HasKeys false id p h = h

exchange_block-HasKeys :
    (session_id : SessionId) (index : ℕ) (id new_id : BlockId) (p : BlockPool)
    → HasKeys p
    → HasKeys (exchange_block session_id index id new_id p).1
unfolding exchange_block set_session fail_released with_metrics
exchange_block-HasKeys session_id index id new_id p h =
    elim (Option-cases (get session_id p.sessions)) [
      | inl n ↦ rw (n, exchange_block) h
      | inr (t, e) ↦ elim (Outcome-cases (replace_owned_block t index new_id)) [
        | inl (((previous, r), t'), o) ↦
            rw (e, exchange_block)
              (rw o (
                release_previous-HasKeys r id
                  (set_session session_id (touch_session p.access_clock t') p)
                  (set_session-HasKeys session_id (touch_session p.access_clock t') p
                    (replace_owned_block-id t index new_id previous r t' o
                      ∙ get-IsKeyed session_id p.sessions t h e)
                    h)))
        | inr (x, o) ↦
            rw (e, exchange_block)
              (rw o (
                release-HasKeys new_id (set_session session_id (touch_session p.access_clock t) p) (
                  set_session-HasKeys session_id (touch_session p.access_clock t) p
                    (get-IsKeyed session_id p.sessions t h e) h)))
      ]
    ]

copy_block-HasKeys :
    (session_id : SessionId) (index : ℕ) (id new_id : BlockId) (p : BlockPool)
    → HasKeys p
    → HasKeys (copy_block session_id index id new_id p).1
unfolding copy_block fail_released set_block
copy_block-HasKeys session_id index id new_id p h = elim (Option-cases (get id p.blocks)) [
  | inl n ↦ rw (n, copy_block) (release-HasKeys new_id p h)
  | inr (source, e) ↦ elim (Option-cases (get new_id p.blocks)) [
    | inl n ↦ rw (e, copy_block) (rw n (release-HasKeys new_id p h))
    | inr (destination, d) ↦
        elim (Outcome-cases (copy_contents_from destination source p.access_clock)) [
          | inr (x, o) ↦ rw (e, copy_block) (rw d (rw o (release-HasKeys new_id p h)))
          | inl (copied, o) ↦
              rw (e, copy_block)
                (rw d (
                  rw o (
                    exchange_block-HasKeys session_id index id new_id (set_block new_id copied p)
                      h)))
        ]
  ]
]

allocate_and_copy-HasKeys :
    (session_id : SessionId) (index : ℕ) (id : BlockId) (p : BlockPool)
    → HasKeys p
    → HasKeys (allocate_and_copy session_id index id p).1
unfolding allocate_and_copy next_access
allocate_and_copy-HasKeys session_id index id p h =
    let h' = allocate-HasKeys p h in
    elim (Option-cases (allocate p).0) [
      | inl a ↦ rw (a, allocate_and_copy) h'
      | inr (new_id, a) ↦
          rw (a, allocate_and_copy)
            (copy_block-HasKeys session_id index id new_id (next_access (allocate p).1) h')
    ]

copy_after_eviction-HasKeys :
    (session_id : SessionId) (index : ℕ) (id : BlockId) (p : BlockPool)
    → HasKeys p
    → HasKeys (copy_after_eviction session_id index id p).1
unfolding copy_after_eviction
copy_after_eviction-HasKeys session_id index id p h = elim (Option-cases (live_block id p)) [
  | inl n ↦ rw (n, copy_after_eviction) h
  | inr (b, e) ↦ elim (Bool-cases (b.ref_count == 1)) [
    | inl one ↦ rw (e, copy_after_eviction) (rw one (keep_block-HasKeys session_id id p h))
    | inr more ↦
        rw (e, copy_after_eviction) (rw more (allocate_and_copy-HasKeys session_id index id p h))
  ]
]

pub copy_on_write_session_block-HasKeys :
    (session_id : SessionId) (index : ℕ) (p : BlockPool)
    → HasKeys p
    → HasKeys (copy_on_write_session_block session_id index p).1
unfolding copy_on_write_session_block
copy_on_write_session_block-HasKeys session_id index p h =
    elim (Option-cases (session_block session_id index p)) [
      | inl n ↦ rw (n, copy_on_write_session_block) h
      | inr (id, e) ↦ elim (Option-cases (live_block id p)) [
        | inl n ↦ rw (e, copy_on_write_session_block) (rw n h)
        | inr (b, l) ↦ elim (Bool-cases (b.ref_count == 1)) [
          | inl one ↦
              rw (e, copy_on_write_session_block)
                (rw l (rw one (keep_block-HasKeys session_id id p h)))
          | inr more ↦
              rw (e, copy_on_write_session_block)
                (rw l (
                  rw more (
                    copy_after_eviction-HasKeys session_id index id (evict_if_full session_id p)
                      (evict_if_full-HasKeys session_id p h))))
        ]
      ]
    ]

append_all-HasKeys :
    (session_id : SessionId) (ids : List BlockId) (p : BlockPool)
    → HasKeys p
    → HasKeys (append_all session_id ids p).1
unfolding append_all
append_all-HasKeys session_id [] p h = h
append_all-HasKeys session_id (id ∷ ids) p h =
    let h' = append_block_to_session_inner-HasKeys session_id id true p h in
    elim (Outcome-cases (append_block_to_session_inner session_id id true p).0) [
      | inl (u, o) ↦
          rw (o, append_all)
            (append_all-HasKeys session_id ids
              (append_block_to_session_inner session_id id true p).1 h')
      | inr (x, o) ↦ rw (o, append_all) h'
    ]

pub attach_prefix_to_session-HasKeys :
    (session_id : SessionId) (hash : CacheBlockHash) (p : BlockPool)
    → HasKeys p
    → HasKeys (attach_prefix_to_session session_id hash p).1
unfolding attach_prefix_to_session
attach_prefix_to_session-HasKeys session_id hash p h =
    elim (Option-cases (get session_id p.sessions)) [
      | inl n ↦ rw (n, attach_prefix_to_session) h
      | inr (t, e) ↦ elim (Option-cases (lookup_prefix hash p)) [
        | inl n ↦ rw (e, attach_prefix_to_session) (rw n h)
        | inr (ids, l) ↦
            rw (e, attach_prefix_to_session) (rw l (append_all-HasKeys session_id ids p h))
      ]
    ]
