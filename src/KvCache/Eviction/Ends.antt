-- ===== src/KvCache/Eviction/Ends.antt =====
-- crates/llm-kv-cache/src/block_pool.rs: the end of the loop of `evict_sessions_until_free`.
use kir_ai.Prelude.{
  ℕ, zero, suc, ◌≤◌, ◌≡◌, refl, sym, ap, subst, ◌∙◌, ◌⊎◌, true, false, ◌&&◌, Option, none, some,
  List, [], ◌∷◌, length, is_empty, if◌then◌else◌, inl, inr, Option-cases, Bool-cases, arith,
  saturating_add, Map, get, remove, length-remove,
}
use kir_ai.KvCache.Block.{BlockId}
use kir_ai.KvCache.Table.{SessionId, SessionBlockTable}
use kir_ai.KvCache.Pool.{
  BlockPool, with_metrics, release, record_eviction, resident_blocks_from_free_list,
}
use kir_ai.KvCache.Keyed.{IsKeyed, remove-IsKeyed, release-sessions}
use kir_ai.KvCache.Keyed.Reached.{Reached-HasKeys}
use kir_ai.KvCache.History.{Reached}
use kir_ai.KvCache.Sessions.{is_resident, is_unreferenced, release_owned, release_session_inner}
use kir_ai.KvCache.Eviction.{
  is_evictable, older, older_of, oldest, lru_session_except, evict_loop, evict_sessions_until_free,
}

-- No session but one has blocks.
unfoldable pub NoBlocksBut : SessionId → Map SessionBlockTable → Type 0
NoBlocksBut excluded [] = Unit {0}
NoBlocksBut excluded ((id, t) ∷ m) =
    ((id ≡ excluded) ⊎ (is_empty t.block_table ≡ true)) × NoBlocksBut excluded m

-- A block is free, or no other session has blocks.
unfoldable pub IsEvicted : SessionId → BlockPool → Type 0
unfolding NoBlocksBut
IsEvicted excluded p = (is_empty p.free_list ≡ false) ⊎ NoBlocksBut excluded p.sessions

-- Where no session is to be evicted, no other has blocks.
oldest-none :
    (excluded : SessionId) (m : Map SessionBlockTable)
    → IsKeyed m
    → oldest (some excluded) m ≡ none
    → NoBlocksBut excluded m
unfolding IsKeyed NoBlocksBut oldest is_evictable
oldest-none excluded [] h e = tt
oldest-none excluded ((id, t) ∷ m) h e = elim (Bool-cases (is_evictable (some excluded) t)) [
  | inl y ↦ absurd (ground (arith, e, y))
  | inr n ↦ (
    elim (Bool-cases (is_empty t.block_table)) [
      | inl w ↦ inr w
      | inr w ↦ inl (ground (arith, n, w, h.0))
    ],
    oldest-none excluded m h.1 (ground (arith, e, n)),
  )
]

oldest_cases :
    (excluded : Option SessionId) (id : SessionId) (s : SessionBlockTable)
    (m : Map SessionBlockTable) (t : SessionBlockTable)
    → oldest excluded ((id, s) ∷ m) ≡ some t
    → (s ≡ t) ⊎ (oldest excluded m ≡ some t)
unfolding oldest older_of
oldest_cases excluded id s m t e = elim (Bool-cases (is_evictable excluded s)) [
  | inr n ↦ inr (ground (arith, e, n))
  | inl y ↦ elim (Option-cases (oldest excluded m)) [
    | inl none_left ↦ inl (ground (arith, e, y, none_left))
    | inr (r, o) ↦ elim (Bool-cases (older r s)) [
      | inl w ↦ inr (ground (arith, e, y, o, w))
      | inr w ↦ inl (ground (arith, e, y, o, w))
    ]
  ]
]

-- The session to evict stands in the map.
oldest_there :
    (excluded : Option SessionId) (m : Map SessionBlockTable) (t : SessionBlockTable)
    → IsKeyed m
    → oldest excluded m ≡ some t
    → get t.session_id m ≡ none
    → ⊥
unfolding IsKeyed get
oldest_there excluded [] t h e g = unfold oldest in absurd (ground (arith, e))
oldest_there excluded ((id, s) ∷ m) t h e g = elim (oldest_cases excluded id s m t e) [
  | inl same ↦ absurd (ground (arith, same, h.0, g))
  | inr later ↦ oldest_there excluded m t h.1 later (ground (arith, g))
]

release_owned-sessions :
    (ids : List BlockId) (n : ℕ) (p : BlockPool) → (release_owned ids n p).1.sessions ≡ p.sessions
unfolding release_owned
release_owned-sessions [] n p = refl
release_owned-sessions (id ∷ ids) n p =
    let p' = (release id p).1 in
    release_owned-sessions ids
      (if (release id p).0 && (is_resident id p && is_unreferenced id p')
        then saturating_add n 1
        else n)
      p'
    ∙ release-sessions id p

-- A session that is there leaves the map.
released_session :
    (id : SessionId) (t : SessionBlockTable) (p : BlockPool)
    → get id p.sessions ≡ some t
    → ((n : ℕ) × ((release_session_inner id p).0 ≡ some n)
        × (suc (length (release_session_inner id p).1.sessions) ≤ length p.sessions)
        × ((release_session_inner id p).1.sessions ≡ remove id p.sessions))
unfolding release_session_inner
released_session id t p e =
    let q = record p { sessions = remove id p.sessions } in
    let kept = ap length (release_owned-sessions t.owned_blocks 0 q) in
    rw (e, release_session_inner)
      (
        (release_owned t.owned_blocks 0 q).0,
        refl,
        omega (arith, kept, length-remove id p.sessions t e),
        release_owned-sessions t.owned_blocks 0 q,
      )

-- No session is left.
no_sessions :
    (excluded : SessionId) (m : Map SessionBlockTable) → length m ≡ 0 → NoBlocksBut excluded m
unfolding NoBlocksBut
no_sessions excluded [] e = tt
no_sessions excluded (x ∷ m) e = absurd (omega (arith, e))

none_to_evict :
    (excluded : SessionId) (p : BlockPool)
    → IsKeyed p.sessions
    → lru_session_except (some excluded) p ≡ none
    → NoBlocksBut excluded p.sessions
unfolding lru_session_except
none_to_evict excluded p h l = elim (Option-cases (oldest (some excluded) p.sessions)) [
  | inl e ↦ oldest-none excluded p.sessions h e
  | inr (t, e) ↦ absurd (ground (arith, l, e))
]

some_to_evict :
    (excluded id : SessionId) (p : BlockPool)
    → IsKeyed p.sessions
    → lru_session_except (some excluded) p ≡ some id
    → get id p.sessions ≡ none
    → ⊥
unfolding lru_session_except
some_to_evict excluded id p h l g = elim (Option-cases (oldest (some excluded) p.sessions)) [
  | inl e ↦ absurd (ground (arith, l, e))
  | inr (t, e) ↦
      let same : t.session_id ≡ id = ground (arith, l, e) in
      oldest_there (some excluded) p.sessions t h e
        (subst (λ k. get k p.sessions ≡ none) (sym same) g)
]

-- One round, where a session is there to evict.
evict_loop_round :
    (fuel : ℕ) (excluded id : SessionId) (t : SessionBlockTable) (p : BlockPool)
    → is_empty p.free_list ≡ true
    → lru_session_except (some excluded) p ≡ some id
    → get id p.sessions ≡ some t
    → ((q : BlockPool) × (suc (length q.sessions) ≤ length p.sessions)
        × (q.sessions ≡ remove id p.sessions)
        × (evict_loop (suc fuel) excluded p ≡ evict_loop fuel excluded q))
unfolding evict_loop with_metrics
evict_loop_round fuel excluded id t p n l g =
    let (released, r, less, left) = released_session id t p g in
    (
      with_metrics (record_eviction released (resident_blocks_from_free_list p))
          (release_session_inner id p).1,
      less,
      left,
      rw (n, evict_loop) (rw (l, evict_loop) (rw (r, evict_loop) refl)),
    )

evict_loop-IsEvicted :
    (fuel : ℕ) (excluded : SessionId) (p : BlockPool)
    → IsKeyed p.sessions
    → length p.sessions ≤ fuel
    → IsEvicted excluded (evict_loop fuel excluded p)
unfolding evict_loop IsEvicted
evict_loop-IsEvicted zero excluded p h le =
    inr (no_sessions excluded p.sessions (omega (arith, le)))
evict_loop-IsEvicted (suc fuel) excluded p h le = elim (Bool-cases (is_empty p.free_list)) [
  | inr n ↦ rw (n, evict_loop) (inl n)
  | inl n ↦ elim (Option-cases (lru_session_except (some excluded) p)) [
    | inl l ↦ rw (n, evict_loop) (rw (l, evict_loop) (inr (none_to_evict excluded p h l)))
    | inr (id, l) ↦ elim (Option-cases (get id p.sessions)) [
      | inl g ↦ absurd (some_to_evict excluded id p h l g)
      | inr (t, g) ↦
          let (q, less, left, same) = evict_loop_round fuel excluded id t p n l g in
          subst (IsEvicted excluded) (sym same) (
            evict_loop-IsEvicted fuel excluded q
              (subst IsKeyed (sym left) (remove-IsKeyed id p.sessions h)) (omega (arith, le, less)))
    ]
  ]
]

-- In every pool that is reached from a new one the loop ends by itself: with a round for each session of
-- the pool it always comes to a state where a block is free, or no session but the excluded one has
-- blocks.
pub evict_sessions_until_free-IsEvicted :
    (excluded : SessionId) (p : BlockPool)
    → Reached p
    → IsEvicted excluded (evict_sessions_until_free excluded p)
unfolding evict_sessions_until_free
evict_sessions_until_free-IsEvicted excluded p r =
    evict_loop-IsEvicted (length p.sessions) excluded p (Reached-HasKeys p r) (omega arith)
