-- ===== src/KvCache/Block.antt =====
-- crates/llm-kv-cache/src/block_id.rs and block.rs: the identities of blocks and `CacheBlock`, a
-- block of keys and values. An `f32` is its bit pattern, which the block only copies, a
-- `CacheBlockHash` is its 32 bytes read as one number, and `strong_count` is what
-- `Arc::strong_count` answers for the storage of the block.
use kir_ai.Prelude.{
  ℕ, ◌≡◌, refl, ◌⊎◌, inl, inr, ◌+◌, ◌*◌, Bool, false, Option, none, List, ◌||◌, length, replicate,
  ltb, ◌==◌, if◌then◌else◌, u64_max, saturating_add, saturating_sub,
}

-- A `BlockId`, whose raw number 0 is `INVALID`.
abbrev pub BlockId : Type 0
BlockId = ℕ

abbrev pub CacheBlockHash : Type 0
CacheBlockHash = ℕ

abbrev pub F32 : Type 0
F32 = ℕ

pub data KvCacheError : Type 0 where
  capacity_exceeded : (requested available : ℕ) → KvCacheError
  shape_mismatch : (expected actual : ℕ) → KvCacheError
  invalid_shape : KvCacheError

-- The `Result` of an operation of the cache.
pub data Outcome (A : Type 0) : Type 0 where
  ok : A → Outcome A
  err : KvCacheError → Outcome A

pub Outcome-cases :
    {A : Type 0} (x : Outcome A) → ((a : A) × (x ≡ ok a)) ⊎ ((e : KvCacheError) × (x ≡ err e))
Outcome-cases (ok a) = inl (a, refl)
Outcome-cases (err e) = inr (e, refl)

abbrev pub is_invalid : BlockId → Bool
is_invalid id = id == 0

-- `BlockId::next` on the counter `NEXT_BLOCK_ID`: the identity and the counter after it.
unfoldable pub next_block_id : ℕ → Outcome (BlockId × ℕ)
next_block_id current =
    if ltb current u64_max then ok (current, current + 1) else err KvCacheError.invalid_shape

pub record CacheBlockStorage : Type 0 where
  pub keys : List F32
  pub values : List F32

pub record CacheBlock : Type 0 where
  pub id : BlockId
  pub revision : ℕ
  pub shared : Bool
  pub capacity_tokens : ℕ
  pub vector_len : ℕ
  pub token_count : ℕ
  pub ref_count : ℕ
  pub content_hash : Option CacheBlockHash
  pub last_access : ℕ
  pub storage : CacheBlockStorage
  pub strong_count : ℕ

-- `CacheBlockStorage::new`
unfoldable pub new_storage : ℕ → CacheBlockStorage
new_storage storage_len = record {
  keys = replicate storage_len 0;
  values = replicate storage_len 0;
}

-- `CacheBlockStorage::fill_zero`
unfoldable pub fill_zero : CacheBlockStorage → CacheBlockStorage
fill_zero s = record { keys = replicate (length s.keys) 0; values = replicate (length s.values) 0 }

-- The block that `CacheBlock::new` returns with its identity.
unfoldable pub empty_block : ℕ → ℕ → BlockId → CacheBlock
unfolding new_storage
empty_block capacity_tokens vector_len id = record {
  id = id;
  revision = 0;
  shared = false;
  capacity_tokens = capacity_tokens;
  vector_len = vector_len;
  token_count = 0;
  ref_count = 0;
  content_hash = none;
  last_access = 0;
  storage = new_storage (capacity_tokens * vector_len);
  strong_count = 1;
}

-- `CacheBlock::new` on the counter of identities.
unfoldable pub new_block : ℕ → ℕ → ℕ → Outcome (CacheBlock × ℕ)
unfolding next_block_id empty_block
new_block capacity_tokens vector_len counter =
    if (capacity_tokens == 0 || vector_len == 0) || ltb u64_max (capacity_tokens * vector_len)
    then err KvCacheError.invalid_shape
    else elim (next_block_id counter) [
      | ok (id, counter') ↦ ok (empty_block capacity_tokens vector_len id, counter')
      | err e ↦ err e
    ]

unfoldable pub is_full : CacheBlock → Bool
is_full b = b.token_count == b.capacity_tokens

-- `f32_bytes`
unfoldable pub f32_bytes : List F32 → ℕ
f32_bytes values = if ltb u64_max (length values * 4) then u64_max else length values * 4

unfoldable pub payload_bytes : CacheBlock → ℕ
unfolding f32_bytes
payload_bytes b = saturating_add (f32_bytes b.storage.keys) (f32_bytes b.storage.values)

unfoldable pub increment_ref_count : CacheBlock → CacheBlock
increment_ref_count b = record b { ref_count = saturating_add b.ref_count 1 }

unfoldable pub decrement_ref_count : CacheBlock → CacheBlock
decrement_ref_count b = record b { ref_count = saturating_sub b.ref_count 1 }

unfoldable pub touch_block : ℕ → CacheBlock → CacheBlock
touch_block access b = record b { last_access = access }

unfoldable pub clear : CacheBlock → CacheBlock
unfolding new_storage fill_zero
clear b =
    let held = ltb 1 b.strong_count in
    record b {
      token_count = 0;
      ref_count = 0;
      content_hash = none;
      last_access = 0;
      storage = if held then new_storage (length b.storage.keys) else fill_zero b.storage;
      strong_count = if held then 1 else b.strong_count;
      shared = held;
      revision = saturating_add b.revision 1;
    }

unfoldable pub reset_for_allocation : ℕ → CacheBlock → CacheBlock
unfolding clear
reset_for_allocation access b = record (clear b) { ref_count = 1; last_access = access }
