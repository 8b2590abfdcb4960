-- ===== src/Web/Retry/Sleep.antt =====
-- `sleep` of web/src/modules/files/lib/edit-commit.ts: the wait between two attempts. The timer and the
-- abort of the signal are events; that a promise is settled is an entry of `settled`, newest first, of
-- which the first one alone counts.
pub mod Settles
use dropbox_go_grpc_microser.Prelude.{ℕ, Bool, true, false, List, [], ◌∷◌, if◌then◌else◌}

pub data Settling : Type 0 where
  resolved rejected : Settling

pub record Sleeper : Type 0 where
  pub ms : ℕ
  pub timer_runs : Bool
  pub listens : Bool
  -- Whether there is a signal, and whether it is aborted.
  pub has_signal : Bool
  pub aborted : Bool
  pub settled : List Settling

-- A signal that is aborted already sends no event.
unfoldable pub sleep : ℕ → (has_signal aborted : Bool) → Sleeper
sleep ms has_signal aborted = record {
  ms = ms;
  timer_runs = true;
  listens = has_signal;
  has_signal = has_signal;
  aborted = aborted;
  settled = [];
}

-- The timer fires: the listener is taken away.
unfoldable pub fire : Sleeper → Sleeper
fire s =
    if s.timer_runs
    then record s { timer_runs = false; listens = false; settled = resolved ∷ s.settled }
    else s

-- `onAbort`, which listens once.
abbrev pub on_abort : Sleeper → Sleeper
on_abort s = record s { timer_runs = false; listens = false; settled = rejected ∷ s.settled }

-- The signal is aborted; it tells its listeners the first time.
unfoldable pub abort : Sleeper → Sleeper
abort s =
    if s.aborted
    then s
    else if s.has_signal
    then (if s.listens then on_abort (record s { aborted = true }) else record s { aborted = true })
    else s
