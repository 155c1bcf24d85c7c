-- ===== src/KvCache/Table.antt =====
-- crates/llm-kv-cache/src/block_table.rs: `BlockTable` and `SessionBlockTable`. The set of the
-- owned blocks is a list without repetition.
use kir_ai.Prelude.{
  ℕ, Bool, true, false, not, Option, none, some, List, [], ◌∷◌, ◌++◌, get_elem?, set, ◌==◌,
  if◌then◌else◌,
}
use kir_ai.KvCache.Block.{BlockId, KvCacheError, Outcome, ok, err, is_invalid}

-- The `blocks` of a `BlockTable`.
abbrev pub BlockTable : Type 0
BlockTable = List BlockId

abbrev pub SessionId : Type 0
SessionId = ℕ

-- `contains`, of a `Vec` and of a `HashSet`
unfoldable pub contains : List BlockId → BlockId → Bool
contains [] id = false
contains (x ∷ xs) id = let rest = contains xs id in if x == id then true else rest

-- `HashSet::insert`: the set after it.
unfoldable pub add : List BlockId → BlockId → List BlockId
unfolding contains
add ids id = if contains ids id then ids else id ∷ ids

-- `HashSet::remove`
unfoldable pub discard : List BlockId → BlockId → List BlockId
discard [] id = []
discard (x ∷ xs) id = let rest = discard xs id in if x == id then rest else x ∷ rest

-- `BlockTable::append`
unfoldable pub append_id : BlockTable → BlockId → Outcome BlockTable
append_id blocks id =
    if is_invalid id then err KvCacheError.invalid_shape else ok (blocks ++ id ∷ [])

-- `BlockTable::replace`: the identity before it and the table after it.
unfoldable pub replace : BlockTable → ℕ → BlockId → Outcome (BlockId × BlockTable)
replace blocks index id =
    if is_invalid id then err KvCacheError.invalid_shape else elim (get_elem? blocks index) [
      | none ↦ err KvCacheError.invalid_shape
      | some previous ↦ ok (previous, set blocks index id)
    ]

pub record SessionBlockTable : Type 0 where
  pub session_id : SessionId
  pub created_at : ℕ
  pub last_access : ℕ
  pub block_table : BlockTable
  pub owned_blocks : List BlockId

unfoldable pub new_session : SessionId → ℕ → Outcome SessionBlockTable
new_session session_id created_at =
    if session_id == 0
    then err KvCacheError.invalid_shape
    else ok (record {
      session_id = session_id;
      created_at = created_at;
      last_access = created_at;
      block_table = [];
      owned_blocks = [];
    })

-- Whether the block is newly owned, and the table after it.
unfoldable pub append_owned_block : SessionBlockTable → BlockId → Outcome (Bool × SessionBlockTable)
unfolding append_id contains add
append_owned_block t id =
    if is_invalid id then err KvCacheError.invalid_shape else elim (append_id t.block_table id) [
      | err e ↦ err e
      | ok blocks ↦ ok (
        not (contains t.owned_blocks id),
        record t { block_table = blocks; owned_blocks = add t.owned_blocks id },
      )
    ]

unfoldable pub read_block : SessionBlockTable → ℕ → Option BlockId
read_block t index = get_elem? t.block_table index

-- The owned blocks of `replace_owned_block`, once the new one is in.
unfoldable pub owned_after : Bool → List BlockId → BlockId → List BlockId
unfolding discard
owned_after should_release_previous owned previous =
    if should_release_previous then discard owned previous else owned

-- The block before it, whether to release that one, and the table after it.
unfoldable pub replace_owned_block :
    SessionBlockTable → ℕ → BlockId → Outcome ((BlockId × Bool) × SessionBlockTable)
unfolding replace contains add owned_after
replace_owned_block t index id = elim (replace t.block_table index id) [
  | err e ↦ err e
  | ok (previous, blocks) ↦
      let should_release_previous = not (contains blocks previous) in
      ok (
        (previous, should_release_previous),
        record t {
          block_table = blocks;
          owned_blocks = owned_after should_release_previous (add t.owned_blocks id) previous;
        },
      )
]

unfoldable pub touch_session : ℕ → SessionBlockTable → SessionBlockTable
touch_session access t = record t { last_access = access }
