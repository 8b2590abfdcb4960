-- ===== src/Native/Sheet.antt =====
-- The sheet behind the "+" button: native/src/modules/upload/components/create-sheet.tsx. The state of
-- the provider and of the sheet, and the handlers. A timer is a number; that it fires is an event.
-- Left out: the unmounting of the sheet, and what is drawn.
pub mod Notices
pub mod Visit
use dropbox_go_grpc_microser.Prelude.{
  ℕ, suc, String, Bool, true, false, not, ◌||◌, Option, none, some, List, [], ◌∷◌, ◌++◌, ◌==◌, keep,
  any, truthy, present, if◌then◌else◌,
}
use dropbox_go_grpc_microser.Exec.{Reply, ok, err}
use dropbox_go_grpc_microser.Text.{trim}

pub data Mode : Type 0 where
  menu_mode folder_mode : Mode

-- The state of the mutation `createFolder`.
pub data Creation : Type 0 where
  idle : Creation
  pending : Creation
  failed : String → Creation

pub record Sheet : Type 0 where
  pub is_open : Bool
  pub mode : Mode
  pub creating_folder : Bool
  pub folder_name : String
  pub notice : Option String
  -- noticeTimer.current
  pub notice_timer : Option ℕ
  -- The timers that were set and neither fired nor were cleared.
  pub timers : List ℕ
  pub next_timer : ℕ
  pub creation : Creation
  -- What `createFolder.mutate` was called with, newest last.
  pub requests : List String

unfoldable pub init : Sheet
init = record {
  is_open = false;
  mode = menu_mode;
  creating_folder = false;
  folder_name = "";
  notice = none;
  notice_timer = none;
  timers = [];
  next_timer = 0;
  creation = idle;
  requests = [];
}

abbrev mode_of : Option Mode → Mode
mode_of none = menu_mode
mode_of (some mode) = mode

unfoldable pub open_create_sheet : Option Mode → Sheet → Sheet
open_create_sheet mode s = record s { is_open = true; mode = mode_of mode }

abbrev clear_timeout : Option ℕ → List ℕ → List ℕ
clear_timeout none timers = timers
clear_timeout (some t) timers = keep (λ k. not (k == t)) timers

unfoldable pub show_notice : String → Sheet → Sheet
show_notice message s = record s {
  notice = some message;
  notice_timer = some s.next_timer;
  timers = s.next_timer ∷ clear_timeout s.notice_timer s.timers;
  next_timer = suc s.next_timer;
}

-- A timer fires: `setNotice(null)`.
unfoldable pub fire : ℕ → Sheet → Sheet
fire t s =
    if any (λ k. k == t) s.timers
    then record s { notice = none; timers = keep (λ k. not (k == t)) s.timers }
    else s

unfoldable pub close_sheet : Sheet → Sheet
close_sheet s = record s {
  is_open = false;
  creating_folder = false;
  folder_name = "";
  notice = none;
  creation = idle;
}

-- `onOpenChange` of the sheet.
unfoldable pub change_open : Bool → Sheet → Sheet
change_open true s = record s { is_open = true }
change_open false s = close_sheet s

-- `setFolderName` and `setCreatingFolder(true)`.
unfoldable pub type_name : String → Sheet → Sheet
type_name name s = record s { folder_name = name }

unfoldable pub start_folder : Sheet → Sheet
start_folder s = record s { creating_folder = true }

abbrev pub is_pending : Creation → Bool
is_pending pending = true
is_pending _ = false

unfoldable pub submit_folder : Sheet → Sheet
submit_folder s =
    if not (truthy (trim s.folder_name)) || is_pending s.creation
    then s
    else record s { creation = pending; requests = s.requests ++ trim s.folder_name ∷ [] }

-- `mutationFn`: what the folder service answers to the name, `none` where there is no root folder.
unfoldable pub create_folder :
    {E : Type 0}
    → E
    → Reply E (Option String)
    → (String → String → Reply E String)
    → String
    → Reply E String
create_folder no_root root create name = elim root [
  | err e ↦ err e
  | ok id ↦ elim (present id) [ none ↦ err no_root | some root_id ↦ create root_id (trim name) ]
]

-- The answer to a folder that is being created.
unfoldable pub created : Sheet → Sheet
created s = close_sheet s

unfoldable pub not_created : String → Sheet → Sheet
not_created message s = record s { creation = failed message }

-- The button "Cancel".
unfoldable pub cancel_folder : Sheet → Sheet
unfolding close_sheet
cancel_folder s =
    let cleared = record s { folder_name = ""; creation = idle } in
    elim s.mode [
      | folder_mode ↦ close_sheet cleared
      | menu_mode ↦ record cleared { creating_folder = false }
    ]
