-- ===== src/Web/Retry/Sleep/Settles.antt =====
-- How a wait is settled, in whatever order its events come.
use dropbox_go_grpc_microser.Prelude.{
  ℕ, ◌≡◌, ◌⊎◌, refl, Bool, true, false, [], ◌∷◌, arith, ◌+◌, length, if◌then◌else◌,
}
use dropbox_go_grpc_microser.Web.Retry.Sleep.{Sleeper, rejected, sleep, fire, abort}

pub data Step : Sleeper → Sleeper → Type 0 where
  fires : (s : Sleeper) → Step s (fire s)
  aborts : (s : Sleeper) → Step s (abort s)

pub data Reach (ms : ℕ) (has_signal aborted : Bool) : Sleeper → Type 0 where
  here : Reach ms has_signal aborted (sleep ms has_signal aborted)
  next : {s t : Sleeper} → Reach ms has_signal aborted s → Step s t → Reach ms has_signal aborted t

-- The timer runs as long as the wait lasts, and so does the listener, if there is a signal.
abbrev pub IsOnce : Sleeper → Type 0
IsOnce s =
    (length s.settled + (if s.timer_runs then 1 else 0) ≡ 1)
    × ((s.listens ≡ false) ⊎ ((s.listens ≡ s.timer_runs) × (s.has_signal ≡ true)))

Step-IsOnce : {s t : Sleeper} → Step s t → IsOnce s → IsOnce t
unfolding fire abort
Step-IsOnce (fires s) (once, paired) = (ground arith, ground arith)
Step-IsOnce (aborts s) (once, paired) = (ground arith, ground arith)

Reach-IsOnce :
    {ms : ℕ} {has_signal aborted : Bool} {s : Sleeper} → Reach ms has_signal aborted s → IsOnce s
unfolding sleep
Reach-IsOnce {has_signal = has_signal} here = (refl, ground arith)
Reach-IsOnce (next r s) = Step-IsOnce s (Reach-IsOnce r)

-- In whatever order the timer and the signal come, a wait is settled once: either it still lasts, with its
-- timer running, or it has been settled once and neither a timer nor a listener is left.
pub Reach-settled :
    {ms : ℕ} {has_signal aborted : Bool} {s : Sleeper}
    → Reach ms has_signal aborted s
    → ((s.settled ≡ []) × (s.timer_runs ≡ true))
      ⊎ ((length s.settled ≡ 1) × (s.timer_runs ≡ false) × (s.listens ≡ false))
Reach-settled {s = s} r = let (once, paired) = Reach-IsOnce r in ground arith

-- An abort while the wait lasts ends it at once.
abort-rejects :
    (s : Sleeper)
    → s.listens ≡ true
    → s.has_signal ≡ true
    → s.aborted ≡ false
    → (abort s).settled ≡ rejected ∷ s.settled
unfolding abort
abort-rejects s listens has_signal running = ground arith
