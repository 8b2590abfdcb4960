-- ===== src/Web/Hex/Decode.antt =====
-- A hash in hexadecimal stands for one sequence of bytes.
use dropbox_go_grpc_microser.Prelude.{
  ℕ, ◌+◌, ◌-◌, ◌*◌, ◌/◌, ◌%◌, ◌<◌, ◌≡◌, refl, List, [], ◌∷◌, arith, length, ltb, All, if◌then◌else◌,
}
use dropbox_go_grpc_microser.Web.Hex.{digit, to_string_16, pad_start, to_hex}

-- The value of a lower-case hexadecimal digit.
value : ℕ → ℕ
value c = if ltb c b'a' then c - b'0' else c - b'a' + 10

-- The bytes that a text of digit pairs stands for.
pub from_hex : List ℕ → List ℕ
from_hex (c ∷ d ∷ s) = (value c * 16 + value d) ∷ from_hex s
from_hex _ = []

abbrev pub IsByte : ℕ → Type 0
IsByte b = b < 256

pad_start-byte : (b : ℕ) → pad_start 2 (to_string_16 b) ≡ digit (b / 16) ∷ digit (b % 16) ∷ []
unfolding pad_start to_string_16 digit
pad_start-byte b = ground arith

value-digit : (n : ℕ) → n < 16 → value (digit n) ≡ n
unfolding value digit
value-digit n h = ground arith

-- A hash in hexadecimal has two characters for each byte, and the bytes can be read back from it: no
-- two hashes have one text.
pub to_hex_roundtrip :
    (bytes : List ℕ)
    → All IsByte bytes
    → (from_hex (to_hex bytes) ≡ bytes) × (length (to_hex bytes) ≡ 2 * length bytes)
unfolding to_hex from_hex
to_hex_roundtrip [] h = (refl, refl)
to_hex_roundtrip (b ∷ bytes) (byte, h) =
    let (back, size) = to_hex_roundtrip bytes h in
    rw
      (
        pad_start-byte b,
        value-digit (b / 16) (omega arith),
        value-digit (b % 16) (omega arith),
        back,
      )
      (ground arith, ground arith)
