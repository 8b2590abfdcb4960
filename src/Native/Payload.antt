-- ===== src/Native/Payload.antt =====
-- The text of `decodeJwtPayload` of native/src/auth/tokenManager.ts that is handed to `atob`: a
-- token's second part, from base64url to padded base64. Texts are lists of code units.
pub mod Bounds
use dropbox_go_grpc_microser.Prelude.{
  ℕ, zero, suc, ◌-◌, ◌%◌, Option, none, some, List, [], ◌∷◌, ◌++◌, map, ◌==◌, length, if◌then◌else◌,
}

-- `text.split(separator)`, never empty.
unfoldable pub split_at : ℕ → List ℕ → List ℕ × List (List ℕ)
split_at sep [] = ([], [])
split_at sep (c ∷ s) =
    let (part, parts) = split_at sep s in if c == sep then ([], part ∷ parts) else (c ∷ part, parts)

-- `token.split('.')[1]`
unfoldable pub second_part : List ℕ → Option (List ℕ)
unfolding split_at
second_part token = elim (split_at b'.' token).1 [ [] ↦ none | part ∷ parts ↦ some part ]

-- `.replace(/-/g, '+').replace(/_/g, '/')`
unfoldable pub to_base64 : ℕ → ℕ
to_base64 c = if c == b'-' then b'+' else if c == b'_' then b'/' else c

abbrev pub replicate : ℕ → ℕ → List ℕ
replicate zero c = []
replicate (suc n) c = c ∷ replicate n c

-- `base64.padEnd(base64.length + ((4 - (base64.length % 4)) % 4), '=')`
unfoldable pub padded : List ℕ → List ℕ
padded s = s ++ replicate ((4 - length s % 4) % 4) b'='

unfoldable pub payload_text : List ℕ → Option (List ℕ)
unfolding second_part to_base64 padded
payload_text token = elim (second_part token) [
  | none ↦ none
  | some [] ↦ none
  | some (c ∷ s) ↦ some (padded (map to_base64 (c ∷ s)))
]

-- `decodeJwtPayload`, where `decode` is `JSON.parse(globalThis.atob(padded))`, `none` if it throws.
unfoldable pub decode_jwt_payload : {C : Type 0} → (List ℕ → Option C) → List ℕ → Option C
unfolding payload_text
decode_jwt_payload decode token = elim (payload_text token) [
  | none ↦ none
  | some text ↦ decode text
]
