-- ===== src/Web/Preview/Extension.antt =====
-- The extension that is shown, and the zoom.
use dropbox_go_grpc_microser.Prelude.{
  ℕ, ◌+◌, ◌-◌, ◌*◌, leb, Bool-cases, inl, inr, ◌≤◌, ◌≡◌, ◌≢◌, refl, false, none, some, List, [],
  ◌∷◌, ◌++◌, arith, any, map, length, drop, length-append,
}
use dropbox_go_grpc_microser.Web.Preview.{
  last_dot, upper, is_dot, file_extension, zoom_out, zoom_in, reset_zoom,
}

last_dot-none : (s : List ℕ) → any is_dot s ≡ false → last_dot s ≡ none
unfolding last_dot
last_dot-none [] h = refl
last_dot-none (c ∷ s) h = ground (arith, last_dot-none s)

last_dot-append :
    (base ext : List ℕ)
    → any is_dot ext ≡ false
    → last_dot (base ++ b'.' ∷ ext) ≡ some (length base)
unfolding last_dot
last_dot-append [] ext h = ground (arith, last_dot-none ext h)
last_dot-append (c ∷ base) ext h = ground (arith, last_dot-append base ext h)

drop-append : (base ext : List ℕ) (c : ℕ) → drop (length base + 1) (base ++ c ∷ ext) ≡ ext
drop-append [] ext c = refl
drop-append (b ∷ base) ext c = ground (arith, drop-append base ext c)

-- The extension of a name is what follows its last dot, in capitals, if neither what precedes the dot
-- nor what follows it is empty.
pub file_extension-append :
    (base ext : List ℕ)
    → base ≢ []
    → ext ≢ []
    → any is_dot ext ≡ false
    → file_extension (base ++ b'.' ∷ ext) ≡ map upper ext
unfolding file_extension
file_extension-append [] ext named typed plain = absurd (named refl)
file_extension-append base [] named typed plain = absurd (typed refl)
file_extension-append (b ∷ base) (c ∷ ext) named typed plain = ground (
  arith,
  last_dot-append (b ∷ base) (c ∷ ext) plain,
  drop-append (b ∷ base) (c ∷ ext) b'.',
  length-append (b ∷ base) (b'.' ∷ c ∷ ext),
)

pub data Zoomed : ℕ → Type 0 where
  here : Zoomed reset_zoom
  out : {z : ℕ} → Zoomed z → Zoomed (zoom_out z)
  closer : {z : ℕ} → Zoomed z → Zoomed (zoom_in z)

-- The zoom is between 25 and 200 percent, in steps of 25.
pub Zoomed-bounds : {z : ℕ} → Zoomed z → (25 ≤ z) × (z ≤ 200) × ((k : ℕ) × (z ≡ 25 * k))
unfolding zoom_out zoom_in
Zoomed-bounds here = (omega arith, omega arith, (4, refl))
Zoomed-bounds (out {z = z} r) =
    let (low, high, (k, whole)) = Zoomed-bounds r in
    (
      ground arith,
      ground arith,
      elim (Bool-cases (leb k 1)) [
        | inl least ↦ (1, ground arith)
        | inr more ↦ (k - 1, ground arith)
      ],
    )
Zoomed-bounds (closer {z = z} r) =
    let (low, high, (k, whole)) = Zoomed-bounds r in
    (
      ground arith,
      ground arith,
      elim (Bool-cases (leb k 7)) [
        | inl less ↦ (k + 1, ground arith)
        | inr most ↦ (8, ground arith)
      ],
    )
