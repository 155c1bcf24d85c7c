-- ===== src/KvCache/Contents.antt =====
-- crates/llm-kv-cache/src/block.rs: the tokens that a block holds. A slice `[start..end]` of the
-- storage is in range for a block of the shape that `CacheBlock::new` gives.
use kir_ai.Prelude.{
  ℕ, zero, suc, ◌+◌, ◌*◌, Option, none, some, List, [], ◌∷◌, ◌++◌, length, take, drop, leb, ◌==◌,
  if◌then◌else◌, saturating_add, ◌||◌, not,
}
use kir_ai.KvCache.Block.{F32, KvCacheError, Outcome, ok, err, CacheBlock, is_full}

-- `storage[start..start + source.len()].copy_from_slice(source)`
unfoldable pub overwrite : List F32 → ℕ → List F32 → List F32
overwrite xs zero source = source ++ drop (length source) xs
overwrite [] (suc start) source = []
overwrite (x ∷ xs) (suc start) source = x ∷ overwrite xs start source

unfoldable pub validate_token_shape : CacheBlock → List F32 → List F32 → Option KvCacheError
validate_token_shape b key value =
    if not (length key == b.vector_len)
    then some (KvCacheError.shape_mismatch b.vector_len (length key))
    else (if not (length value == b.vector_len)
        then some (KvCacheError.shape_mismatch b.vector_len (length value))
        else none)

-- The writes to the storage at a token, which `Arc::make_mut` makes on a copy where it is shared.
unfoldable pub write_token : ℕ → List F32 → List F32 → CacheBlock → CacheBlock
unfolding overwrite
write_token token_index key value b = record b {
  storage = record {
    keys = overwrite b.storage.keys (token_index * b.vector_len) key;
    values = overwrite b.storage.values (token_index * b.vector_len) value;
  };
  strong_count = 1;
  content_hash = none;
  revision = saturating_add b.revision 1;
}

-- The index of the token and the block after it.
unfoldable pub append : CacheBlock → List F32 → List F32 → Outcome (ℕ × CacheBlock)
unfolding validate_token_shape is_full write_token
append b key value = elim (validate_token_shape b key value) [
  | some e ↦ err e
  | none ↦
      if is_full b
      then err (KvCacheError.capacity_exceeded 1 0)
      else ok (
        b.token_count,
        record (write_token b.token_count key value b) { token_count = b.token_count + 1 },
      )
]

unfoldable pub write_at : CacheBlock → ℕ → List F32 → List F32 → Outcome CacheBlock
unfolding validate_token_shape write_token
write_at b token_index key value = elim (validate_token_shape b key value) [
  | some e ↦ err e
  | none ↦
      if leb b.token_count token_index
      then err KvCacheError.invalid_shape
      else ok (write_token token_index key value b)
]

unfoldable pub slice : List F32 → ℕ → ℕ → List F32
slice xs start len = take len (drop start xs)

unfoldable pub token_slice : CacheBlock → List F32 → ℕ → Option (List F32)
unfolding slice
token_slice b storage token_index =
    if leb b.token_count token_index
    then none
    else some (slice storage (token_index * b.vector_len) b.vector_len)

unfoldable pub key : CacheBlock → ℕ → Option (List F32)
unfolding token_slice
key b token_index = token_slice b b.storage.keys token_index

unfoldable pub value : CacheBlock → ℕ → Option (List F32)
unfolding token_slice
value b token_index = token_slice b b.storage.values token_index

unfoldable pub copy_contents_from : CacheBlock → CacheBlock → ℕ → Outcome CacheBlock
copy_contents_from b source access =
    if not (b.capacity_tokens == source.capacity_tokens) || not (b.vector_len == source.vector_len)
    then err KvCacheError.invalid_shape
    else ok (record b {
      token_count = source.token_count;
      ref_count = 1;
      content_hash = source.content_hash;
      last_access = access;
      storage = source.storage;
      strong_count = 1;
      revision = saturating_add b.revision 1;
    })
