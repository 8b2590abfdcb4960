-- ===== src/Web/RelativeTime.antt =====
-- `formatRelativeTime` of web/src/lib/utils.ts. What `Intl.RelativeTimeFormat` makes of a number and a
-- unit is outside: a phrase is what it is given. Times are those of dates from 1970 on.
pub mod Bounds
pub mod Apps
use dropbox_go_grpc_microser.Prelude.{
  ℕ, ◌+◌, ◌-◌, ◌*◌, ◌/◌, Bool, true, false, Option, none, some, leb, ltb, if◌then◌else◌,
}
use dropbox_go_grpc_microser.Native.Display.{TimeUnit, minute, hour, day, month, year}

pub data Relative : Type 0 where
  empty just_now : Relative
  -- Whether the time is ahead, and how many units it is away.
  phrase : Bool → ℕ → TimeUnit → Relative

-- `Math.round(n / d)`, or the amount of `Math.round(-n / d)`, which rounds a half towards zero.
abbrev pub rounded : (ahead : Bool) → ℕ → ℕ → ℕ
rounded true n d = (2 * n + d) / (2 * d)
rounded false n d = (2 * n + d - 1) / (2 * d)

-- What is shown for an amount of seconds.
unfoldable pub phrase_of : Bool → ℕ → Relative
phrase_of ahead abs =
    if ltb abs 60
    then just_now
    else if ltb abs 3600
    then phrase ahead (rounded ahead abs 60) minute
    else if ltb abs 86400
    then phrase ahead (rounded ahead abs 3600) hour
    else if ltb abs 2592000
    then phrase ahead (rounded ahead abs 86400) day
    else if ltb abs 31536000
    then phrase ahead (rounded ahead abs 2592000) month
    else phrase ahead (rounded ahead abs 31536000) year

-- Of `Date.now()` and the date's time in milliseconds; `none` where there is no text or no date.
unfoldable pub format_relative_time : ℕ → Option ℕ → Relative
unfolding phrase_of
format_relative_time now none = empty
format_relative_time now (some time) =
    if leb now time
    then phrase_of true (rounded true (time - now) 1000)
    else phrase_of false (rounded false (now - time) 1000)
