-- ===== src/KvCache/Tokens/Slices.antt =====
-- crates/llm-kv-cache/src/block.rs: a write to the storage of a block, and its slices after it.
use kir_ai.Prelude.{
  ℕ, zero, suc, ◌+◌, ◌≤◌, ◌≡◌, refl, ◌⊎◌, ap, List, [], ◌∷◌, ◌++◌, length, length-append, take,
  drop, inl, inr, arith,
}
use kir_ai.KvCache.Block.{F32}
use kir_ai.KvCache.Contents.{overwrite, slice}

length-drop : (n : ℕ) (xs : List F32) → n ≤ length xs → length (drop n xs) + n ≡ length xs
length-drop zero xs h = omega arith
length-drop (suc n) [] h = absurd (omega (arith, h))
length-drop (suc n) (x ∷ xs) h = omega (arith, h, length-drop n xs)

take-append : (xs ys : List F32) → take (length xs) (xs ++ ys) ≡ xs
take-append [] ys = refl
take-append (x ∷ xs) ys = ap (λ zs. x ∷ zs) (take-append xs ys)

pub length-overwrite :
    (xs : List F32) (start : ℕ) (source : List F32)
    → start + length source ≤ length xs
    → length (overwrite xs start source) ≡ length xs
unfolding overwrite
length-overwrite xs zero source h =
    omega (arith, h, length-append source (drop (length source) xs), length-drop (length source) xs)
length-overwrite [] (suc start) source h = refl
length-overwrite (x ∷ xs) (suc start) source h = omega (arith, h, length-overwrite xs start source)

pub slice-overwrite_same :
    (xs : List F32) (start : ℕ) (source : List F32)
    → start + length source ≤ length xs
    → slice (overwrite xs start source) start (length source) ≡ source
unfolding slice overwrite
slice-overwrite_same xs zero source h = take-append source (drop (length source) xs)
slice-overwrite_same [] (suc start) source h = absurd (omega (arith, h))
slice-overwrite_same (x ∷ xs) (suc start) source h =
    slice-overwrite_same xs start source (omega (arith, h))

take-overwrite :
    (xs : List F32) (start : ℕ) (source : List F32) (n : ℕ)
    → n ≤ start
    → take n (overwrite xs start source) ≡ take n xs
unfolding overwrite
take-overwrite xs start source zero h = refl
take-overwrite xs zero source (suc n) h = absurd (omega (arith, h))
take-overwrite [] (suc start) source (suc n) h = refl
take-overwrite (x ∷ xs) (suc start) source (suc n) h =
    ap (λ zs. x ∷ zs) (take-overwrite xs start source n (omega (arith, h)))

slice-overwrite_before :
    (xs : List F32) (start : ℕ) (source : List F32) (from n : ℕ)
    → from + n ≤ start
    → slice (overwrite xs start source) from n ≡ slice xs from n
unfolding slice overwrite
slice-overwrite_before xs start source zero n h =
    take-overwrite xs start source n (omega (arith, h))
slice-overwrite_before xs zero source (suc from) n h = absurd (omega (arith, h))
slice-overwrite_before [] (suc start) source (suc from) n h = refl
slice-overwrite_before (x ∷ xs) (suc start) source (suc from) n h =
    slice-overwrite_before xs start source from n (omega (arith, h))

drop-rest :
    (xs source : List F32) (n : ℕ)
    → length source ≤ length xs
    → length source ≤ n
    → drop n (source ++ drop (length source) xs) ≡ drop n xs
drop-rest xs [] n h le = refl
drop-rest xs (y ∷ ys) zero h le = absurd (omega (arith, le))
drop-rest [] (y ∷ ys) (suc n) h le = absurd (omega (arith, h))
drop-rest (x ∷ xs) (y ∷ ys) (suc n) h le = drop-rest xs ys n (omega (arith, h)) (omega (arith, le))

drop-overwrite :
    (xs : List F32) (start : ℕ) (source : List F32) (from : ℕ)
    → start + length source ≤ length xs
    → start + length source ≤ from
    → drop from (overwrite xs start source) ≡ drop from xs
unfolding overwrite
drop-overwrite xs zero source from h le =
    drop-rest xs source from (omega (arith, h)) (omega (arith, le))
drop-overwrite xs (suc start) source zero h le = absurd (omega (arith, le))
drop-overwrite [] (suc start) source (suc from) h le = refl
drop-overwrite (x ∷ xs) (suc start) source (suc from) h le =
    drop-overwrite xs start source from (omega (arith, h)) (omega (arith, le))

-- Another slice of as many values is not touched.
pub slice-overwrite_other :
    (xs : List F32) (start : ℕ) (source : List F32) (from n : ℕ)
    → start + length source ≤ length xs
    → (from + n ≤ start) ⊎ (start + length source ≤ from)
    → slice (overwrite xs start source) from n ≡ slice xs from n
unfolding slice
slice-overwrite_other xs start source from n h (inl before) =
    slice-overwrite_before xs start source from n before
slice-overwrite_other xs start source from n h (inr after) =
    ap (take n) (drop-overwrite xs start source from h after)
