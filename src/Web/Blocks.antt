-- ===== src/Web/Blocks.antt =====
-- `splitBlocks` of web/src/modules/files/lib/edit-commit.ts. A `Uint8Array` is the list of its bytes.
pub mod Cover
use dropbox_go_grpc_microser.Prelude.{
  ℕ, zero, suc, ◌+◌, ◌-◌, Option, none, some, List, [], ◌∷◌, length, take, drop, ltb, min,
  if◌then◌else◌,
}

abbrev pub Bytes : Type 0
Bytes = List ℕ

-- bytes.subarray(from, to)
abbrev pub subarray : Bytes → ℕ → ℕ → Bytes
subarray bytes from to = take (to - from) (drop from bytes)

abbrev pub push_front : Bytes → Option (List Bytes) → Option (List Bytes)
push_front block none = none
push_front block (some blocks) = some (block ∷ blocks)

-- The loop, from `offset` on, with the rounds that are left; `none` means that they ran out.
unfoldable pub split_from : ℕ → Bytes → ℕ → ℕ → Option (List Bytes)
split_from zero bytes offset block_size = none
split_from (suc fuel) bytes offset block_size =
    let rest = split_from fuel bytes (offset + block_size) block_size in
    if ltb offset (length bytes)
    then push_front (subarray bytes offset (min (offset + block_size) (length bytes))) rest
    else some []

-- At a positive block size there are at most as many rounds as bytes, and one more that ends.
unfoldable pub split_blocks : Bytes → ℕ → Option (List Bytes)
unfolding split_from
split_blocks bytes block_size = split_from (suc (length bytes)) bytes 0 block_size
