-- ===== src/Web/Blocks/Cover.antt =====
-- The blocks cover the bytes, in order, and have the sizes that they should.
use mathlib.Core.Path.{subst}
use dropbox_go_grpc_microser.Prelude.{
  ℕ, zero, suc, ◌+◌, ◌-◌, ◌≤◌, ◌<◌, ◌≡◌, refl, ap, sym, ◌∙◌, Option, none, some, List, [], ◌∷◌,
  ◌++◌, arith, length, take, drop, ltb, min, Bool-cases, inl, inr, length-drop, length-take,
  take-append-drop, if◌then◌else◌,
}
use dropbox_go_grpc_microser.Web.Blocks.{Bytes, subarray, push_front, split_from, split_blocks}

abbrev pub concat : List Bytes → Bytes
concat [] = []
concat (b ∷ bs) = b ++ concat bs

-- Every block is full but the last, which has between one byte and a full block.
abbrev pub AreBlocks : ℕ → List Bytes → Type 0
AreBlocks size [] = Unit
AreBlocks size (b ∷ []) = (0 < length b) × (length b ≤ size)
AreBlocks size (b ∷ c ∷ bs) = (length b ≡ size) × AreBlocks size (c ∷ bs)

module _ {ℓ} {A : Type ℓ} where
  take-min : (n : ℕ) (xs : List A) → take (min n (length xs)) xs ≡ take n xs
  take-min zero xs = let e : min 0 (length xs) ≡ 0 = omega arith in rw e
  take-min (suc n) [] = let e : min (suc n) 0 ≡ 0 = omega arith in rw e
  take-min (suc n) (x ∷ xs) =
      let e : min (suc n) (suc (length xs)) ≡ suc (min n (length xs)) = omega arith in
      rw e (ap (λ r. x ∷ r) (take-min n xs))

  drop-nil : (m : ℕ) → drop {A = A} m [] ≡ []
  drop-nil zero = refl
  drop-nil (suc m) = refl

  pub drop-drop : (n m : ℕ) (xs : List A) → drop (n + m) xs ≡ drop m (drop n xs)
  drop-drop zero m xs = let e : 0 + m ≡ m = omega arith in rw e
  drop-drop (suc n) m [] = let e : suc n + m ≡ suc (n + m) = omega arith in rw e (sym (drop-nil m))
  drop-drop (suc n) m (x ∷ xs) =
      let e : suc n + m ≡ suc (n + m) = omega arith in rw e (drop-drop n m xs)

-- A block is the front of what is left at its offset.
subarray-eq-take :
    (bytes : Bytes) (offset size : ℕ)
    → subarray bytes offset (min (offset + size) (length bytes)) ≡ take size (drop offset bytes)
subarray-eq-take bytes offset size =
    let e : min (offset + size) (length bytes) - offset ≡ min size (length (drop offset bytes)) =
      omega (arith, length-drop offset bytes) in
    rw e (take-min size (drop offset bytes))

-- The blocks that the loop makes, without offsets.
chunks : ℕ → ℕ → Bytes → Option (List Bytes)
chunks zero size left = none
chunks (suc fuel) size left =
    let rest = chunks fuel size (drop size left) in
    if ltb 0 (length left) then push_front (take size left) rest else some []

split_from-eq-chunks :
    (fuel : ℕ) (bytes : Bytes) (offset size : ℕ)
    → split_from fuel bytes offset size ≡ chunks fuel size (drop offset bytes)
unfolding split_from chunks
split_from-eq-chunks zero bytes offset size = refl
split_from-eq-chunks (suc fuel) bytes offset size = ground (
  arith,
  subarray-eq-take bytes offset size,
  split_from-eq-chunks fuel bytes (offset + size) size,
  drop-drop offset size bytes,
  length-drop offset bytes,
)

chunks-total :
    (fuel size : ℕ) (left : Bytes)
    → 0 < size
    → length left < fuel
    → (blocks : List Bytes) × (chunks fuel size left ≡ some blocks)
unfolding chunks
chunks-total zero size left pos h = absurd (omega arith)
chunks-total (suc fuel) size left pos h = elim (Bool-cases (ltb 0 (length left))) [
  | inr done ↦ ([], rw done)
  | inl more ↦
      let (blocks, made) =
        chunks-total fuel size (drop size left) pos (ground (arith, length-drop size left)) in
      (take size left ∷ blocks, rw (more, made))
]

chunks-concat :
    (fuel size : ℕ) (left : Bytes) (blocks : List Bytes)
    → chunks fuel size left ≡ some blocks
    → concat blocks ≡ left
unfolding chunks
chunks-concat zero size left blocks h = cc
chunks-concat (suc fuel) size [] [] h = refl
chunks-concat (suc fuel) size [] (b ∷ bs) h = ground arith
chunks-concat (suc fuel) size (x ∷ left) [] h = ground arith
chunks-concat (suc fuel) size (x ∷ left) (b ∷ bs) h =
    ground
      (arith, chunks-concat fuel size (drop size (x ∷ left)) bs, take-append-drop size (x ∷ left))

chunks-length :
    (fuel size : ℕ) (left : Bytes) (blocks : List Bytes)
    → chunks fuel size left ≡ some blocks
    → (blocks ≡ [] → length left ≡ 0) × (length left ≡ 0 → blocks ≡ [])
unfolding chunks
chunks-length zero size left blocks h = cc
chunks-length (suc fuel) size left blocks h = ground arith

AreBlocks-cons :
    (size : ℕ) (left : Bytes) (bs : List Bytes)
    → 0 < size
    → 0 < length left
    → (bs ≡ [] → length (drop size left) ≡ 0) × (length (drop size left) ≡ 0 → bs ≡ [])
    → AreBlocks size bs
    → AreBlocks size (take size left ∷ bs)
AreBlocks-cons size left [] pos more ends ok = (
  omega (arith, length-take size left),
  omega (arith, length-take size left, length-drop size left, ends.0 refl),
)
AreBlocks-cons size left (b ∷ bs) pos more ends ok =
    (ground (arith, length-take size left, length-drop size left, ends.1), ok)

chunks-AreBlocks :
    (fuel size : ℕ) (left : Bytes) (blocks : List Bytes)
    → 0 < size
    → chunks fuel size left ≡ some blocks
    → AreBlocks size blocks
unfolding chunks
chunks-AreBlocks zero size left blocks pos h = cc
chunks-AreBlocks (suc fuel) size left [] pos h = tt
chunks-AreBlocks (suc fuel) size left (b ∷ bs) pos h =
    let more : 0 < length left = ground arith in
    let made : chunks fuel size (drop size left) ≡ some bs = ground arith in
    let front : b ≡ take size left = ground arith in
    subst (λ t. AreBlocks size (t ∷ bs)) (sym front)
      (AreBlocks-cons size left bs pos more (chunks-length fuel size (drop size left) bs made)
        (chunks-AreBlocks fuel size (drop size left) bs pos made))

-- At a positive block size the loop ends, within its rounds; the blocks joined are the bytes, and
-- all have the block size but the last, which has between one byte and the block size.
pub split_blocks-covers :
    (bytes : Bytes) (block_size : ℕ)
    → 0 < block_size
    → (blocks : List Bytes) × (split_blocks bytes block_size ≡ some blocks)
      × (concat blocks ≡ bytes)
      × AreBlocks block_size blocks
unfolding split_blocks
split_blocks-covers bytes size pos =
    let (blocks, made) = chunks-total (suc (length bytes)) size bytes pos (omega arith) in
    (
      blocks,
      split_from-eq-chunks (suc (length bytes)) bytes 0 size ∙ made,
      chunks-concat (suc (length bytes)) size bytes blocks made,
      chunks-AreBlocks (suc (length bytes)) size bytes blocks pos made,
    )
