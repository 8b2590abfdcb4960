-- ===== src/Text/Trim.antt =====
-- What `trim` leaves: no white space at either end, and nothing more to trim.
use Prim.Native.Char.{Char, code}
use dropbox_go_grpc_microser.Prelude.{
  String, ◌≡◌, refl, ◌∙◌, ap, false, str_eq, eq_iff, ◌&&◌, Bool-cases, inl, inr,
}
use dropbox_go_grpc_microser.Text.{is_space, trim_start, trim_end, trim}

-- The first character is no white space.
abbrev pub StartsInked : String → Type 0
StartsInked String.[] = Unit
StartsInked (String.◌∷◌ c s) = is_space (code c) ≡ false

-- The last character is no white space.
abbrev pub EndsInked : String → Type 0
EndsInked String.[] = Unit
EndsInked (String.◌∷◌ c String.[]) = is_space (code c) ≡ false
EndsInked (String.◌∷◌ c (String.◌∷◌ d s)) = EndsInked (String.◌∷◌ d s)

trim_start-StartsInked : (s : String) → StartsInked (trim_start s)
unfolding trim_start
trim_start-StartsInked String.[] = tt
trim_start-StartsInked (String.◌∷◌ c s) = elim (Bool-cases (is_space (code c))) [
  | inl space ↦ rw space (trim_start-StartsInked s)
  | inr ink ↦ rw ink ink
]

EndsInked-cons :
    (c : Char) (s : String)
    → EndsInked s
    → (str_eq s "" && is_space (code c)) ≡ false
    → EndsInked (String.◌∷◌ c s)
EndsInked-cons c String.[] h t = t
EndsInked-cons c (String.◌∷◌ d s) h t = h

trim_end-EndsInked : (s : String) → EndsInked (trim_end s)
unfolding trim_end
trim_end-EndsInked String.[] = tt
trim_end-EndsInked (String.◌∷◌ c s) =
    elim (Bool-cases (str_eq (trim_end s) "" && is_space (code c))) [
      | inl space ↦ rw space tt
      | inr ink ↦ rw ink (EndsInked-cons c (trim_end s) (trim_end-EndsInked s) ink)
    ]

trim_end-StartsInked : (s : String) → StartsInked s → StartsInked (trim_end s)
unfolding trim_end
trim_end-StartsInked String.[] h = tt
trim_end-StartsInked (String.◌∷◌ c s) h =
    elim (Bool-cases (str_eq (trim_end s) "" && is_space (code c))) [
      | inl space ↦ rw space tt
      | inr ink ↦ rw ink h
    ]

-- What `trim` returns neither starts nor ends with white space.
pub trim_inked : (s : String) → StartsInked (trim s) × EndsInked (trim s)
unfolding trim
trim_inked s = (
  trim_end-StartsInked (trim_start s) (trim_start-StartsInked s),
  trim_end-EndsInked (trim_start s),
)

trim_start_of_StartsInked : (s : String) → StartsInked s → trim_start s ≡ s
unfolding trim_start
trim_start_of_StartsInked String.[] h = refl
trim_start_of_StartsInked (String.◌∷◌ c s) h = rw h

cons-ne-empty : (c : Char) (s : String) → str_eq (String.◌∷◌ c s) "" ≡ false
cons-ne-empty c s = elim (Bool-cases (str_eq (String.◌∷◌ c s) "")) [
  | inl empty ↦ let p : String.◌∷◌ c s ≡ "" = (eq_iff (String.◌∷◌ c s) "").0 empty in cc
  | inr full ↦ full
]

trim_end_of_EndsInked : (s : String) → EndsInked s → trim_end s ≡ s
unfolding trim_end
trim_end_of_EndsInked String.[] h = refl
trim_end_of_EndsInked (String.◌∷◌ c String.[]) h = rw h
trim_end_of_EndsInked (String.◌∷◌ c (String.◌∷◌ d s)) h =
    rw (trim_end_of_EndsInked (String.◌∷◌ d s) h, cons-ne-empty d s)

-- Trimming a second time changes nothing, so what a form sends trimmed is not trimmed again.
pub trim_idempotent : (s : String) → trim (trim s) ≡ trim s
unfolding trim
trim_idempotent s =
    let (starts, ends) = trim_inked s in
    ap trim_end (trim_start_of_StartsInked (trim s) starts) ∙ trim_end_of_EndsInked (trim s) ends
