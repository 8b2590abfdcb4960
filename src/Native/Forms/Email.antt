-- ===== src/Native/Forms/Email.antt =====
-- What the pattern of an email address accepts.
use mathlib.Core.Path.{subst}
use dropbox_go_grpc_microser.Prelude.{
  ℕ, ◌≡◌, ◌↔◌, refl, Bool, true, List, [], ◌∷◌, ◌++◌, arith, all, Bool-cases, inl, inr, append-nil,
  sym, ap, ◌∙◌,
}
use dropbox_go_grpc_microser.Native.Forms.{is_part, plus, one, at_end, is_email}

-- One character at least, all of which pass the test.
abbrev pub IsRun : (ℕ → Bool) → List ℕ → Type 0
IsRun p [] = ⊥
IsRun p (c ∷ s) = (p c ≡ true) × (all p s ≡ true)

abbrev Splits : (ℕ → Bool) → (List ℕ → Bool) → List ℕ → Type 0
Splits p rest s = (xs : List ℕ) × (ys : List ℕ) × (s ≡ xs ++ ys) × IsRun p xs × (rest ys ≡ true)

plus-Splits :
    (p : ℕ → Bool) (rest : List ℕ → Bool) (s : List ℕ) → plus p rest s ≡ true → Splits p rest s
unfolding plus
plus-Splits p rest [] h = cc
plus-Splits p rest (c ∷ s) h = elim (Bool-cases (rest s)) [
  | inl done ↦ (c ∷ [], s, refl, (ground arith, refl), done)
  | inr goes_on ↦
      let (xs, ys, cut, run, ends) = plus-Splits p rest s (ground arith) in
      (c ∷ xs, ys, rw cut refl, (ground arith, run-all p xs run), ends)
]
  where
    run-all : (p : ℕ → Bool) (xs : List ℕ) → IsRun p xs → all p xs ≡ true
    run-all p [] h = absurd h
    run-all p (x ∷ xs) h = ground arith

plus-joins :
    (p : ℕ → Bool) (rest : List ℕ → Bool) (xs ys : List ℕ)
    → IsRun p xs
    → rest ys ≡ true
    → plus p rest (xs ++ ys) ≡ true
unfolding plus
plus-joins p rest [] ys h ends = absurd h
plus-joins p rest (x ∷ []) ys h ends = ground arith
plus-joins p rest (x ∷ y ∷ xs) ys h ends =
    ground (arith, plus-joins p rest (y ∷ xs) ys (ground arith) ends)

one-splits :
    (a : ℕ) (rest : List ℕ → Bool) (s : List ℕ)
    → one a rest s ≡ true
    → (ys : List ℕ) × (s ≡ a ∷ ys) × (rest ys ≡ true)
one-splits a rest [] h = cc
one-splits a rest (c ∷ s) h = (s, ground arith, ground arith)

at_end-eq : (s : List ℕ) → at_end s ≡ true → s ≡ []
at_end-eq [] h = refl
at_end-eq (c ∷ s) h = cc

plus_end-IsRun : (p : ℕ → Bool) (s : List ℕ) → plus p at_end s ≡ true → IsRun p s
plus_end-IsRun p s h =
    let (xs, ys, cut, run, ends) = plus-Splits p at_end s h in
    last xs ys cut run (at_end-eq ys ends)
  where
    last : (xs ys : List ℕ) → s ≡ xs ++ ys → IsRun p xs → ys ≡ [] → IsRun p s
    last xs ys cut run e =
        let whole : s ≡ xs = cut ∙ ap (λ r. xs ++ r) e ∙ append-nil xs in
        subst (IsRun p) (sym whole) run

-- A text passes for an email address exactly if it is three parts, each of one character at least and
-- with neither white space nor "@", of which the first is followed by "@" and the second by a dot.
pub is_email_iff :
    (s : List ℕ)
    → (is_email s ≡ true) ↔ (
        (local : List ℕ) × (host : List ℕ) × (top : List ℕ) × (s
          ≡ local ++ b'@' ∷ (host ++ b'.' ∷ top))
        × IsRun is_part local
        × IsRun is_part host
        × IsRun is_part top)
unfolding is_email
is_email_iff s = (
  (λ accepted.
      let (local, s1, cut1, run1, rest1) = plus-Splits is_part _ s accepted in
      let (s2, cut2, rest2) = one-splits b'@' _ s1 rest1 in
      let (host, s3, cut3, run2, rest3) = plus-Splits is_part _ s2 rest2 in
      let (top, cut4, rest4) = one-splits b'.' _ s3 rest3 in
      (local, host, top, cc, run1, run2, plus_end-IsRun is_part top rest4)),
  (λ (local, host, top, cut, run1, run2, run3).
      let third : plus is_part at_end (top ++ []) ≡ true =
        plus-joins is_part at_end top [] run3 refl in
      let second : plus is_part (one b'.' (plus is_part at_end)) (host ++ b'.' ∷ top) ≡ true =
        plus-joins is_part (one b'.' (plus is_part at_end)) host (b'.' ∷ top) run2
          (ground (arith, append-nil top)) in
      rw cut (plus-joins is_part _ local (b'@' ∷ (host ++ b'.' ∷ top)) run1 (ground arith))),
)
