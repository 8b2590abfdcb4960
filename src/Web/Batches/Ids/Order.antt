-- ===== src/Web/Batches/Ids/Order.antt =====
-- The order of texts is strict and total.
use Prim.Native.Char.{code}
use mathlib.Core.Path.{ap₂}
use text.Mathlib.TextEquality.{Char-path}
use dropbox_go_grpc_microser.Prelude.{
  ℕ, String, ◌≡◌, ◌≢◌, inl, inr, refl, true, false, List, [], ◌∷◌, arith, Bool-cases,
}
use dropbox_go_grpc_microser.Text.{codes}
use dropbox_go_grpc_microser.Web.Batches.Ids.{comes_before, before}

pub comes_before_irrefl : (s : List ℕ) → comes_before s s ≡ false
unfolding comes_before
comes_before_irrefl [] = refl
comes_before_irrefl (c ∷ s) = ground (arith, comes_before_irrefl s)

pub comes_before_trans :
    (s t u : List ℕ) → comes_before s t ≡ true → comes_before t u ≡ true → comes_before s u ≡ true
unfolding comes_before
comes_before_trans [] [] u p q = cc
comes_before_trans [] (d ∷ t) [] p q = cc
comes_before_trans [] (d ∷ t) (e ∷ u) p q = refl
comes_before_trans (c ∷ s) [] u p q = cc
comes_before_trans (c ∷ s) (d ∷ t) [] p q = cc
comes_before_trans (c ∷ s) (d ∷ t) (e ∷ u) p q = ground (arith, comes_before_trans s t u)

-- Texts of which neither comes before the other are one.
comes_before_total : (s t : List ℕ) → comes_before s t ≡ false → comes_before t s ≡ false → s ≡ t
unfolding comes_before
comes_before_total [] [] p q = refl
comes_before_total [] (d ∷ t) p q = cc
comes_before_total (c ∷ s) [] p q = cc
comes_before_total (c ∷ s) (d ∷ t) p q = ground (arith, comes_before_total s t)

codes_injective : (a b : String) → codes a ≡ codes b → a ≡ b
unfolding codes
codes_injective String.[] String.[] h = refl
codes_injective String.[] (String.◌∷◌ d t) h = cc
codes_injective (String.◌∷◌ c s) String.[] h = cc
codes_injective (String.◌∷◌ c s) (String.◌∷◌ d t) h =
    let heads : code c ≡ code d = ground arith in
    let tails : codes s ≡ codes t = ground arith in
    ap₂ String.◌∷◌ (Char-path c d heads) (codes_injective s t tails)

pub before_total : (a b : String) → a ≢ b → before a b ≡ false → before b a ≡ true
before_total a b other p = elim (Bool-cases (before b a)) [
  | inl h ↦ h
  | inr q ↦ absurd (other (codes_injective a b (comes_before_total (codes a) (codes b) p q)))
]
