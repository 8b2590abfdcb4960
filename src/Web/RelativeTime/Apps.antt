-- ===== src/Web/RelativeTime/Apps.antt =====
-- The two apps: `formatRelativeTime` here and in native/src/modules/files/lib/file-display.ts.
use dropbox_go_grpc_microser.Prelude.{
  ℕ, suc, ◌+◌, ◌-◌, ◌*◌, ◌≤◌, ◌≡◌, ◌⊎◌, sym, Bool, true, false, some, leb, arith, if◌then◌else◌,
  Bool-cases, inl, inr,
}
use dropbox_go_grpc_microser.Native.Display
use dropbox_go_grpc_microser.Native.Display.{Age, unknown, just_now, ago, age_of, seconds_apart}
use dropbox_go_grpc_microser.Native.Display.Rounding.{seconds_of}
use dropbox_go_grpc_microser.Web.RelativeTime.{
  Relative, empty, phrase, rounded, phrase_of, format_relative_time,
}

-- The same unit, and the same number, unless the time has passed by exactly so many units and a half.
abbrev pub IsSame : (seconds : ℕ) → Relative → Age → Type 0
IsSame seconds empty age = ⊥
IsSame seconds Relative.just_now age = age ≡ just_now
IsSame seconds (phrase ahead n unit) unknown = ⊥
IsSame seconds (phrase ahead n unit) just_now = ⊥
IsSame seconds (phrase ahead n unit) (ago m other) =
    (unit ≡ other)
    × ((n ≡ m) ⊎ ((ahead ≡ false) × (m ≡ suc n) × (2 * seconds ≡ (2 * n + 1) * seconds_of unit)))

pub phrase_of-age_of :
    (ahead : Bool) (seconds : ℕ)
    → 60 ≤ seconds
    → IsSame seconds (phrase_of ahead seconds) (age_of seconds)
unfolding phrase_of age_of
phrase_of-age_of true seconds long = ground arith
phrase_of-age_of false seconds long = ground arith

rounded-seconds_apart :
    (now time : ℕ)
    → (if leb now time then rounded true (time - now) 1000 else rounded false (now - time) 1000)
      ≡ seconds_apart now time
unfolding seconds_apart
rounded-seconds_apart now time = ground arith

-- Of a time that is a minute or more away, the two apps show the same number of the same unit, unless it
-- has passed by exactly so many units and a half: there the mobile app rounds up, and the web app down.
pub format_relative_time-apps :
    (now time : ℕ)
    → 60 ≤ seconds_apart now time
    → IsSame
        (seconds_apart now time)
        (format_relative_time now (some time))
        (Display.format_relative_time now (some time))
unfolding format_relative_time Display.format_relative_time
format_relative_time-apps now time long = elim (Bool-cases (leb now time)) [
  | inl ahead ↦
      let same : rounded true (time - now) 1000 ≡ seconds_apart now time =
        rw (sym (rounded-seconds_apart now time)) (ground arith) in
      rw (ahead, same) (phrase_of-age_of true (seconds_apart now time) long)
  | inr behind ↦
      let same : rounded false (now - time) 1000 ≡ seconds_apart now time =
        rw (sym (rounded-seconds_apart now time)) (ground arith) in
      rw (behind, same) (phrase_of-age_of false (seconds_apart now time) long)
]
