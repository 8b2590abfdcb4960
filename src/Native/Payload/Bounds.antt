-- ===== src/Native/Payload/Bounds.antt =====
-- What `atob` is handed: padded to whole groups, and with no character of base64url alone.
use dropbox_go_grpc_microser.Prelude.{
  ℕ, zero, suc, ◌-◌, ◌%◌, ◌≡◌, ◌≢◌, refl, ap, some, inl, inr, Option-cases, List, [], ◌∷◌, ◌++◌,
  map, arith, length, length-append, All,
}
use dropbox_go_grpc_microser.Native.Payload.{
  split_at, second_part, to_base64, replicate, padded, payload_text,
}

length-replicate : (n c : ℕ) → length (replicate n c) ≡ n
length-replicate zero c = refl
length-replicate (suc n) c = ap suc (length-replicate n c)

pub length-padded_mod : (s : List ℕ) → length (padded s) % 4 ≡ 0
unfolding padded
length-padded_mod s = omega (
  arith,
  length-append s (replicate ((4 - length s % 4) % 4) b'='),
  length-replicate ((4 - length s % 4) % 4) b'=',
)

abbrev pub IsBase64 : ℕ → Type 0
IsBase64 c = (c ≢ b'-') × (c ≢ b'_') × (c ≢ b'.')

All-append : (xs ys : List ℕ) → All IsBase64 xs → All IsBase64 ys → All IsBase64 (xs ++ ys)
All-append [] ys h k = k
All-append (x ∷ xs) ys (p, h) k = (p, All-append xs ys h k)

All-replicate : (n : ℕ) → All IsBase64 (replicate n b'=')
All-replicate zero = tt
All-replicate (suc n) = (omega arith, All-replicate n)

abbrev NoDot : ℕ → Type 0
NoDot c = c ≢ b'.'

to_base64-IsBase64 : (c : ℕ) → c ≢ b'.' → IsBase64 (to_base64 c)
unfolding to_base64
to_base64-IsBase64 c h = ground arith

map-to_base64-IsBase64 : (s : List ℕ) → All NoDot s → All IsBase64 (map to_base64 s)
map-to_base64-IsBase64 [] h = tt
map-to_base64-IsBase64 (c ∷ s) (p, h) = (to_base64-IsBase64 c p, map-to_base64-IsBase64 s h)

abbrev AllParts : List ℕ × List (List ℕ) → Type 0
AllParts parts = All NoDot parts.0 × All (All NoDot) parts.1

split_at-NoDot : (s : List ℕ) → AllParts (split_at b'.' s)
unfolding split_at
split_at-NoDot [] = (tt, tt)
split_at-NoDot (c ∷ s) = ground (arith, split_at-NoDot s)

second_part-NoDot : (token part : List ℕ) → second_part token ≡ some part → All NoDot part
unfolding second_part
second_part-NoDot token part h = ground (arith, split_at-NoDot token)

padded-IsBase64 : (s : List ℕ) → All NoDot s → All IsBase64 (padded (map to_base64 s))
unfolding padded
padded-IsBase64 s h = All-append _ _ (map-to_base64-IsBase64 s h) (All-replicate _)

-- The text that is decoded is a whole number of groups of four characters, and holds none of the
-- characters "-", "_" and "." that base64 does not have.
pub payload_text-IsBase64 :
    (token text : List ℕ)
    → payload_text token ≡ some text
    → (length text % 4 ≡ 0) × All IsBase64 text
unfolding payload_text
payload_text-IsBase64 token text h = elim (Option-cases (second_part token)) [
  | inl missing ↦ absurd (ground arith)
  | inr (part, found) ↦
      let nonempty : text ≡ padded (map to_base64 part) = from_part part found in
      rw nonempty (
        length-padded_mod (map to_base64 part),
        padded-IsBase64 part (second_part-NoDot token part found),
      )
]
  where
    from_part : (part : List ℕ) → second_part token ≡ some part → text ≡ padded (map to_base64 part)
    from_part [] found = ground arith
    from_part (c ∷ s) found = ground arith
