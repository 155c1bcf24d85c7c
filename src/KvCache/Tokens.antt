-- ===== src/KvCache/Tokens.antt =====
-- crates/llm-kv-cache/src/block.rs: the tokens of a block, written and read back.
mod Slices
use native.Mathlib.Nat.{mul-le-mul_right}
use kir_ai.Prelude.{
  ℕ, zero, suc, ◌+◌, ◌*◌, ◌≤◌, ◌<◌, ◌≡◌, refl, ◌⊎◌, sym, ap, subst, ◌∙◌, Bool, true, false, Option,
  none, some, List, length, leb, ltb, ◌==◌, if◌then◌else◌, inl, inr, Option-cases, Bool-cases,
  arith, saturating_add, not,
}
use kir_ai.KvCache.Block.{F32, KvCacheError, Outcome, ok, err, CacheBlock, is_full}
use kir_ai.KvCache.Contents.{
  overwrite, validate_token_shape, write_token, append, write_at, slice, token_slice, key, value,
}
use Slices.{length-overwrite, slice-overwrite_same, slice-overwrite_other}

-- The shape of a block: the storage has room for the capacity, and the tokens are within it.
unfoldable pub IsShaped : CacheBlock → Type 0
IsShaped b =
    (b.token_count ≤ b.capacity_tokens)
    × (length b.storage.keys ≡ b.capacity_tokens * b.vector_len)
    × (length b.storage.values ≡ b.capacity_tokens * b.vector_len)

-- A token below another ends before it starts.
token_end : (i j width : ℕ) → i < j → i * width + width ≤ j * width
token_end i j width h = omega (arith, mul-le-mul_right {m = suc i} {n = j} width (omega (arith, h)))

apart :
    (i index width n : ℕ)
    → n ≡ width
    → (i == index) ≡ false
    → (i * width + width ≤ index * width) ⊎ (index * width + n ≤ i * width)
apart i index width n w e = elim (Bool-cases (ltb i index)) [
  | inl l ↦ inl (token_end i index width (ground arith))
  | inr l ↦ inr (omega (arith, w, token_end index i width (ground arith)))
]

slice_write :
    (xs source : List F32) (i index capacity width : ℕ)
    → length xs ≡ capacity * width
    → length source ≡ width
    → index < capacity
    → slice (overwrite xs (index * width) source) (i * width) width
      ≡ (if i == index then source else slice xs (i * width) width)
slice_write xs source i index capacity width len w h =
    let room : index * width + length source ≤ length xs =
      omega (arith, token_end index capacity width h, len, w) in
    elim (Bool-cases (i == index)) [
      | inl e ↦
          let same : i ≡ index = ground arith in
          rw e (
            subst (λ n. slice (overwrite xs (index * width) source) (i * width) n ≡ source) w
              (subst
                (λ k.
                  slice (overwrite xs (index * width) source) (k * width) (length source) ≡ source)
                (sym same) (slice-overwrite_same xs (index * width) source room)))
      | inr e ↦ rw e (
          slice-overwrite_other xs (index * width) source (i * width) width room
            (apart i index width (length source) w e))
    ]

-- A block of the shape, after a write to the token `index`.
pub IsWritten : CacheBlock → ℕ → List F32 → List F32 → CacheBlock → Type 0
IsWritten b index k v b' =
    IsShaped b'
    × (b'.content_hash ≡ none)
    × ((i : ℕ) → key b' i ≡ (if i == index then some k else key b i))
    × ((i : ℕ) → value b' i ≡ (if i == index then some v else value b i))

write_token-IsShaped :
    (b : CacheBlock) (index : ℕ) (k v : List F32)
    → IsShaped b
    → length k ≡ b.vector_len
    → length v ≡ b.vector_len
    → index < b.capacity_tokens
    → IsShaped (write_token index k v b)
unfolding write_token IsShaped
write_token-IsShaped b index k v h lk lv lt =
    let end = token_end index b.capacity_tokens b.vector_len lt in
    (
      h.0,
      length-overwrite b.storage.keys (index * b.vector_len) k (omega (arith, end, lk, h.1)) ∙ h.1,
      length-overwrite b.storage.values (index * b.vector_len) v (omega (arith, end, lv, h.2))
          ∙ h.2,
    )

-- A slice of a written storage, at the tokens that a block of `count` tokens has.
token_write :
    (xs source : List F32) (i index count count' capacity width : ℕ)
    → length xs ≡ capacity * width
    → length source ≡ width
    → index < capacity
    → index < count'
    → (count ≡ count') ⊎ ((count ≡ index) × (count' ≡ count + 1))
    → (if leb count' i
        then none
        else some (slice (overwrite xs (index * width) source) (i * width) width))
      ≡ (if i == index
          then some source
          else (if leb count i then none else some (slice xs (i * width) width)))
token_write xs source i index count count' capacity width len w h lt c =
    ground (arith, slice_write xs source i index capacity width len w h, c)

validate_ok :
    (b : CacheBlock) (k v : List F32)
    → length k ≡ b.vector_len
    → length v ≡ b.vector_len
    → validate_token_shape b k v ≡ none
unfolding validate_token_shape
validate_ok b k v lk lv = ground (arith, lk, lv)

-- For a block of the shape that `CacheBlock::new` gives, a write to one of its tokens of a key and a
-- value of its width succeeds, keeps the shape and clears the content hash; that token reads back
-- as written, and every other one as before.
pub write_at-key :
    (b : CacheBlock) (index : ℕ) (k v : List F32)
    → IsShaped b
    → length k ≡ b.vector_len
    → length v ≡ b.vector_len
    → index < b.token_count
    → (b' : CacheBlock) × ((write_at b index k v ≡ ok b') × IsWritten b index k v b')
unfolding write_at IsWritten key value token_slice write_token IsShaped
write_at-key b index k v h lk lv lt =
    let inside : index < b.capacity_tokens = omega (arith, lt, h.0) in
    let written : IsWritten b index k v (write_token index k v b) = (
      write_token-IsShaped b index k v h lk lv inside,
      refl,
      (λ i.
          token_write b.storage.keys k i index b.token_count b.token_count b.capacity_tokens
            b.vector_len h.1 lk inside lt (inl refl)),
      (λ i.
          token_write b.storage.values v i index b.token_count b.token_count b.capacity_tokens
            b.vector_len h.2 lv inside lt (inl refl)),
    ) in
    let before : leb b.token_count index ≡ false = ground (arith, lt) in
    (
      write_token index k v b,
      (rw (validate_ok b k v lk lv, write_at) (rw (before, write_at) refl), written),
    )

-- For a block of the shape that `CacheBlock::new` gives, an append of a key and a value of its width
-- fails on a full block, with the error that tells so; on another it answers the index of the new
-- token, which reads back as written, and every token before it reads as before; the shape is kept,
-- the content hash is cleared, and there is one token more.
pub append-key :
    (b : CacheBlock) (k v : List F32)
    → IsShaped b
    → length k ≡ b.vector_len
    → length v ≡ b.vector_len
    → ((b.token_count ≡ b.capacity_tokens)
        × (append b k v ≡ err (KvCacheError.capacity_exceeded 1 0)))
      ⊎ ((b' : CacheBlock) × ((append b k v ≡ ok (b.token_count, b'))
            × (b'.token_count ≡ b.token_count + 1)
            × IsWritten b b.token_count k v b'))
unfolding append IsWritten key value token_slice write_token IsShaped is_full
append-key b k v h lk lv = elim (Bool-cases (is_full b)) [
  | inl f ↦ inl (ground (arith, f), rw (validate_ok b k v lk lv, append) (rw (f, append) refl))
  | inr f ↦
      let inside : b.token_count < b.capacity_tokens = ground (arith, h.0, f) in
      let b' : CacheBlock = record (write_token b.token_count k v b) {
        token_count = b.token_count + 1;
      } in
      let shape = write_token-IsShaped b b.token_count k v h lk lv inside in
      let written : IsWritten b b.token_count k v b' = (
        (omega (arith, inside), shape.1, shape.2),
        refl,
        (λ i.
            token_write b.storage.keys k i b.token_count b.token_count (b.token_count + 1)
              b.capacity_tokens b.vector_len h.1 lk inside (omega arith) (inr (refl, refl))),
        (λ i.
            token_write b.storage.values v i b.token_count b.token_count (b.token_count + 1)
              b.capacity_tokens b.vector_len h.2 lv inside (omega arith) (inr (refl, refl))),
      ) in
      inr (b', (rw (validate_ok b k v lk lv, append) (rw (f, append) refl), refl, written))
]
