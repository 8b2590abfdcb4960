-- ===== src/Web/Hex.antt =====
-- `toHex` of web/src/modules/files/lib/edit-commit.ts, and of web/src/lib/uppy-connectrpc-uploader.ts
-- in the same words but for `map` and `join`. A text is the list of its code units.
pub mod Decode
use dropbox_go_grpc_microser.Prelude.{
  ℕ, zero, suc, ◌+◌, ◌-◌, ◌/◌, ◌%◌, List, [], ◌∷◌, ◌++◌, length, ltb, if◌then◌else◌,
}

unfoldable pub digit : ℕ → ℕ
digit n = if ltb n 10 then b'0' + n else b'a' + (n - 10)

-- byte.toString(16), of a byte: one digit, or two.
unfoldable pub to_string_16 : ℕ → List ℕ
unfolding digit
to_string_16 byte =
    if ltb byte 16 then digit byte ∷ [] else digit (byte / 16) ∷ digit (byte % 16) ∷ []

abbrev replicate : ℕ → ℕ → List ℕ
replicate zero c = []
replicate (suc n) c = c ∷ replicate n c

-- text.padStart(width, "0")
unfoldable pub pad_start : ℕ → List ℕ → List ℕ
pad_start width s = replicate (width - length s) b'0' ++ s

unfoldable pub to_hex : List ℕ → List ℕ
unfolding to_string_16 pad_start
to_hex [] = []
to_hex (byte ∷ bytes) = pad_start 2 (to_string_16 byte) ++ to_hex bytes
