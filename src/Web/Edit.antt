-- ===== src/Web/Edit.antt =====
-- The edit page of web/src/modules/files/views/file-edit-view.tsx: the state of a save, the guard of
-- unsaved changes, and the handlers. A call of `handleSave` is a run, with the number of its abort
-- controller; where it awaits, it is cut into events. A handler sees the state as it is when it is called:
-- presses between a change of the state and the next rendering are left out. The refetches of the query
-- library do not reject.
pub mod Request
pub mod Messages
pub mod Runs
pub mod Overlap
pub mod Committed
pub mod Surface
use dropbox_go_grpc_microser.Prelude.{
  ℕ, suc, String, Bool, true, false, not, ◌&&◌, ◌||◌, Option, none, some, List, [], ◌∷◌, ◌==◌, any,
  str_eq, if◌then◌else◌,
}
use dropbox_go_grpc_microser.Exec.{Reply, ok, err}
use dropbox_go_grpc_microser.Native.Display.{Size, format_bytes}
use dropbox_go_grpc_microser.Web.Blocks.{Bytes}
use dropbox_go_grpc_microser.Web.Save.{Input, SaveResult}
use dropbox_go_grpc_microser.Web.Save

pub data Phase : Type 0 where
  hashing uploading committing : Phase

pub record Progress : Type 0 where
  pub phase : Phase
  pub completed : ℕ
  pub total : ℕ
  pub bytes_uploaded : ℕ
  pub bytes_to_upload : ℕ

pub data SaveState : Type 0 where
  idle : SaveState
  saving : Progress → SaveState
  saved : (version bytes_uploaded : ℕ) → SaveState
  conflict : (head_version : ℕ) → SaveState
  failed : String → SaveState

-- What is read of the edit session.
pub record EditSession : Type 0 where
  pub version : ℕ
  pub block_size : ℕ
  pub filename : String
  pub unavailable_reason : String
  pub size_bytes : ℕ
  pub max_edit_bytes : ℕ

-- A run of `handleSave`; it is settled when the save has ended and the refetches are awaited.
pub record Run : Type 0 where
  pub controller : ℕ
  pub is_settled : Bool

pub record EditView : Type 0 where
  pub session : Option EditSession
  pub save_state : SaveState
  pub is_dirty : Bool
  -- abortRef.current
  pub abort_ref : Option ℕ
  pub aborted : List ℕ
  pub next_controller : ℕ
  pub runs : List Run

abbrev pub init : Option EditSession → EditView
init session = record {
  session = session;
  save_state = idle;
  is_dirty = false;
  abort_ref = none;
  aborted = [];
  next_controller = 0;
  runs = [];
}

-- How the `try` of `handleSave` ends.
pub data Outcome : Type 0 where
  committed : (version bytes_uploaded : ℕ) → Outcome
  conflicted : (head_version : ℕ) → Outcome
  cancelled : Outcome
  broken : (message : String) → Outcome

abbrev pub is_saving : SaveState → Bool
is_saving (saving p) = true
is_saving _ = false

abbrev first_progress : Progress
first_progress = record {
  phase = hashing;
  completed = 0;
  total = 0;
  bytes_uploaded = 0;
  bytes_to_upload = 0;
}

abbrev pub has_session : Option EditSession → Bool
has_session none = false
has_session (some session) = true

-- `handleSave`, up to its first `await`.
unfoldable pub begin_save : EditView → EditView
begin_save v = if not (has_session v.session) || is_saving v.save_state then v else record v {
  abort_ref = some v.next_controller;
  next_controller = suc v.next_controller;
  save_state = saving first_progress;
  runs = record { controller = v.next_controller; is_settled = false } ∷ v.runs;
}

abbrev pub is_run : ℕ → Bool → Run → Bool
is_run n settled r =
    r.controller == n && (elim settled [ true ↦ r.is_settled | false ↦ not r.is_settled ])

abbrev pub has_run : ℕ → Bool → List Run → Bool
has_run n settled runs = any (is_run n settled) runs

abbrev pub settle_run : ℕ → List Run → List Run
settle_run n [] = []
settle_run n (r ∷ rs) =
    if is_run n false r then record r { is_settled = true } ∷ rs else r ∷ settle_run n rs

abbrev pub end_run : ℕ → Bool → List Run → List Run
end_run n settled [] = []
end_run n settled (r ∷ rs) = if is_run n settled r then rs else r ∷ end_run n settled rs

-- `onProgress` of a run that is not settled.
unfoldable pub report : ℕ → Progress → EditView → EditView
report n p v = if has_run n false v.runs then record v { save_state = saving p } else v

abbrev settled : Outcome → ℕ → EditView → EditView
settled (committed version sent) n v = record v {
  is_dirty = false;
  save_state = saved version sent;
  runs = settle_run n v.runs;
}
settled (conflicted head) n v = record v { save_state = conflict head; runs = settle_run n v.runs }
settled cancelled n v = record v {
  save_state = idle;
  abort_ref = none;
  runs = end_run n false v.runs;
}
settled (broken message) n v = record v {
  save_state = failed message;
  abort_ref = none;
  runs = end_run n false v.runs;
}

-- The save of a run ends: what follows up to the refetches, or to the end of the `finally`.
unfoldable pub settle : ℕ → Outcome → EditView → EditView
settle n outcome v = if has_run n false v.runs then settled outcome n v else v

-- The refetches of a run have ended, and its `finally` runs.
unfoldable pub conclude : ℕ → EditView → EditView
conclude n v =
    if has_run n true v.runs then record v { abort_ref = none; runs = end_run n true v.runs } else v

-- `handleCancelSave`
unfoldable pub cancel_save : EditView → EditView
cancel_save v = elim v.abort_ref [ none ↦ v | some c ↦ record v { aborted = c ∷ v.aborted } ]

unfoldable pub track_interaction : EditView → EditView
track_interaction v = record v { is_dirty = true }

-- `leaveEdit`: whether the user is asked, and whether the page is left, given the user's answer.
unfoldable pub leave_edit : Bool → EditView → Bool × Bool
leave_edit confirmed v = (v.is_dirty, not v.is_dirty || confirmed)
