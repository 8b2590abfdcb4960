-- ===== src/Web/RelativeTime/Bounds.antt =====
-- How far a phrase is from the time that it stands for.
use dropbox_go_grpc_microser.Prelude.{
  ℕ, ◌+◌, ◌-◌, ◌*◌, ◌≤◌, ◌<◌, ◌≡◌, Bool, true, false, some, leb, arith, if◌then◌else◌, Bool-cases,
  inl, inr,
}
use dropbox_go_grpc_microser.Native.Display.Rounding.{IsNear, FitsUnit, seconds_of}
use dropbox_go_grpc_microser.Web.RelativeTime.{
  Relative, empty, just_now, phrase, rounded, phrase_of, format_relative_time,
}

abbrev pub IsFair : (ahead : Bool) → ℕ → Relative → Type 0
IsFair ahead seconds empty = ⊥
IsFair ahead seconds just_now = seconds < 60
IsFair ahead seconds (phrase direction n unit) =
    (direction ≡ ahead)
    × (1 ≤ n)
    × FitsUnit n unit
    × IsNear (n * seconds_of unit) seconds (seconds_of unit)

phrase_of-IsFair : (ahead : Bool) (seconds : ℕ) → IsFair ahead seconds (phrase_of ahead seconds)
unfolding phrase_of
phrase_of-IsFair true seconds = ground arith
phrase_of-IsFair false seconds = ground arith

abbrev pub IsTimely : (now time : ℕ) → Relative → Type 0
IsTimely now time empty = ⊥
IsTimely now time just_now = (now < time + 60000) × (time < now + 60000)
IsTimely now time (phrase direction n unit) =
    let apart = if leb now time then time - now else now - time in
    (direction ≡ leb now time)
    × (1 ≤ n)
    × FitsUnit n unit
    × IsNear (1000 * (n * seconds_of unit)) apart (1000 * seconds_of unit + 1000)

-- The seconds are rounded too, by half a second at most.
from_seconds :
    (now time : ℕ) (r : Relative)
    → (ahead : Bool) (seconds : ℕ) → leb now time ≡ ahead
    → IsNear (1000 * seconds) (if leb now time then time - now else now - time) 1000
    → IsFair ahead seconds r
    → IsTimely now time r
from_seconds now time empty ahead seconds side near fair = fair
from_seconds now time just_now ahead seconds side near fair = ground arith
from_seconds now time (phrase direction n unit) ahead seconds side near (same, least, fits, fair) =
    (ground arith, least, fits, (omega (arith, near, fair), omega (arith, near, fair)))

-- A time that is shown lies on the side that is told; it is one of its unit at least, at most as many as
-- make up the next unit, and differs from the clock by half of its unit and half a second at most. "Just
-- now" is said of less than a minute, rounded to seconds.
pub format_relative_time-IsTimely :
    (now time : ℕ) → IsTimely now time (format_relative_time now (some time))
unfolding format_relative_time
format_relative_time-IsTimely now time = elim (Bool-cases (leb now time)) [
  | inl ahead ↦
      let seconds = rounded true (time - now) 1000 in
      rw ahead (
        from_seconds now time (phrase_of true seconds) true seconds ahead (ground arith)
          (phrase_of-IsFair true seconds))
  | inr behind ↦
      let seconds = rounded false (now - time) 1000 in
      rw behind (
        from_seconds now time (phrase_of false seconds) false seconds behind (ground arith)
          (phrase_of-IsFair false seconds))
]
