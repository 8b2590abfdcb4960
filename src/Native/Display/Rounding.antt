-- ===== src/Native/Display/Rounding.antt =====
-- How far a printed size or age is from what it stands for.
use dropbox_go_grpc_microser.Prelude.{ℕ, suc, ◌+◌, ◌*◌, ◌≤◌, ◌<◌, ◌≡◌, ◌⊎◌, some, arith}
use dropbox_go_grpc_microser.Native.Display.{
  unit_of, power_of_ten, format_bytes, TimeUnit, minute, hour, day, month, year, Age, unknown,
  just_now, ago, age_of,
}

-- Twice the difference of two numbers is at most `bound`.
abbrev pub IsNear : ℕ → ℕ → ℕ → Type 0
IsNear a b bound = (2 * a ≤ 2 * b + bound) × (2 * b ≤ 2 * a + bound)

-- A size of one byte or more: the unit is the largest of the five that it reaches, there is one decimal
-- below a hundred of a unit that is not the byte, and none else, and what is printed differs from the size
-- by half of its last digit at most.
pub format_bytes-IsNear :
    (n : ℕ)
    → IsNear
        ((format_bytes (some (suc n))).number * unit_of (format_bytes (some (suc n))).exponent)
        (power_of_ten (format_bytes (some (suc n))).digits * suc n)
        (unit_of (format_bytes (some (suc n))).exponent)
      × (unit_of (format_bytes (some (suc n))).exponent ≤ suc n)
      × ((suc n < 1024 * unit_of (format_bytes (some (suc n))).exponent)
          ⊎ ((format_bytes (some (suc n))).exponent ≡ 4))
      × ((((format_bytes (some (suc n))).digits ≡ 1)
            × (1 ≤ (format_bytes (some (suc n))).exponent)
            × (suc n < 100 * unit_of (format_bytes (some (suc n))).exponent))
          ⊎ (((format_bytes (some (suc n))).digits ≡ 0)
              × (((format_bytes (some (suc n))).exponent ≡ 0)
                  ⊎ (100 * unit_of (format_bytes (some (suc n))).exponent ≤ suc n))))
unfolding format_bytes
format_bytes-IsNear n = ground arith

abbrev pub seconds_of : TimeUnit → ℕ
seconds_of minute = 60
seconds_of hour = 3600
seconds_of day = 86400
seconds_of month = 2592000
seconds_of year = 31536000

-- The most of a unit that is printed; years have no bound.
abbrev pub FitsUnit : ℕ → TimeUnit → Type 0
FitsUnit n minute = n ≤ 60
FitsUnit n hour = n ≤ 24
FitsUnit n day = n ≤ 30
FitsUnit n month = n ≤ 12
FitsUnit n year = Unit

abbrev pub IsFair : ℕ → Age → Type 0
IsFair seconds unknown = ⊥
IsFair seconds just_now = seconds < 45
IsFair seconds (ago n unit) =
    (1 ≤ n) × FitsUnit n unit × IsNear (n * seconds_of unit) seconds (seconds_of unit)

-- An age that is printed is one of its unit at least, at most as many as make up the next unit, and
-- differs from the age by half of its unit at most.
pub age_of-IsFair : (seconds : ℕ) → IsFair seconds (age_of seconds)
unfolding age_of
age_of-IsFair seconds = ground arith
