-- ===== src/Web/Edit/Surface.antt =====
-- What `FileEditView` of web/src/modules/files/views/file-edit-view.tsx shows, and the editor that it
-- mounts: the two queries, and the keys by which the editors of web/src/components/extend are mounted
-- anew (docx-editor.tsx, xlsx-editor.tsx, pdf-editor.tsx). A query that fails keeps its data, as the query
-- library documents; when it fetches is outside. What a user does in an editor is a text.
pub mod Mounting
pub mod Lost
use dropbox_go_grpc_microser.Prelude.{
  ℕ, String, Bool, true, false, not, ◌&&◌, ◌||◌, Option, none, some, List, [], ◌∷◌, present, str_eq,
  truthy, if◌then◌else◌,
}
use dropbox_go_grpc_microser.Web.Edit.{
  EditSession, EditView, Outcome, is_saving, init, begin_save, settle, conclude, track_interaction,
}

-- A session with what the page itself reads of it.
pub record Session : Type 0 where
  pub edit : EditSession
  pub can_edit : Bool
  pub sniffed_type : String
  pub ticket_url : String

pub data EditorKind : Type 0 where
  pdf docx xlsx : EditorKind

abbrev pub kind_of : String → EditorKind
kind_of editor_type =
    if str_eq editor_type "pdf" then pdf else if str_eq editor_type "docx" then docx else xlsx

pub record Editor : Type 0 where
  pub kind : EditorKind
  pub src : String
  pub file_name : String
  -- What the user did since it was mounted, newest first.
  pub edits : List String

pub record EditPage : Type 0 where
  pub view : EditView
  pub session : Option Session
  pub session_failed : Bool
  -- The name of the file.
  pub file : Option String
  pub file_failed : Bool
  pub mounted : Option Editor

abbrev pub is_kind : EditorKind → EditorKind → Bool
is_kind pdf pdf = true
is_kind docx docx = true
is_kind xlsx xlsx = true
is_kind _ _ = false

abbrev pub new_editor : Session → String → Editor
new_editor s file = record {
  kind = kind_of s.sniffed_type;
  src = s.ticket_url;
  file_name = (if truthy s.edit.filename then s.edit.filename else file);
  edits = [];
}

-- Whether an editor stays: `key={src}`, and for the PDF editor its source and its name.
abbrev pub stays : Editor → Editor → Bool
stays old new =
    is_kind old.kind new.kind
    && str_eq old.src new.src
    && (not (is_kind old.kind pdf) || str_eq old.file_name new.file_name)

abbrev pub mount_in : Option Editor → Editor → Editor
mount_in none new = new
mount_in (some old) new = if stays old new then record old { file_name = new.file_name } else new

abbrev pub editor_in : Option Editor → Option String → Option Session → Option Editor
editor_in old none session = none
editor_in old (some file) none = none
editor_in old (some file) (some s) =
    if s.can_edit then some (mount_in old (new_editor s file)) else none

-- The editor after a rendering.
unfoldable pub commit : EditPage → EditPage
commit p = record p {
  mounted =
      (if p.file_failed || p.session_failed then none else editor_in p.mounted p.file p.session);
}

abbrev pub edit_of : Option Session → Option EditSession
edit_of none = none
edit_of (some s) = some s.edit

unfoldable pub open_page :
    (cached_session : Option Session) → (cached_file : Option String) → EditPage
unfolding commit
open_page session file = commit (record {
  view = init (edit_of session);
  session = session;
  session_failed = false;
  file = file;
  file_failed = false;
  mounted = none;
})

unfoldable pub session_arrives : Session → EditPage → EditPage
unfolding commit
session_arrives s p = commit (record p {
  view = record p.view { session = some s.edit };
  session = some s;
  session_failed = false;
})

unfoldable pub session_fails : EditPage → EditPage
unfolding commit
session_fails p = commit (record p { session_failed = true })

unfoldable pub file_arrives : String → EditPage → EditPage
unfolding commit
file_arrives name p = commit (record p { file = some name; file_failed = false })

unfoldable pub file_fails : EditPage → EditPage
unfolding commit
file_fails p = commit (record p { file_failed = true })

abbrev pub typed : String → Option Editor → Option Editor
typed change none = none
typed change (some e) = some (record e { edits = change ∷ e.edits })

-- The user works in the editor, or where it would be.
unfoldable pub change : String → EditPage → EditPage
unfolding track_interaction
change text p = record p { view = track_interaction p.view; mounted = typed text p.mounted }

-- What a save sends: the version that it names as its base, and the editor that gives the bytes.
pub record Submission : Type 0 where
  pub base_version : ℕ
  pub source : Editor

abbrev pub submission_of : Option EditSession → Option Editor → Option Submission
submission_of none e = none
submission_of (some s) none = none
submission_of (some s) (some e) = some (record { base_version = s.version; source = e })

-- The button is enabled where an editor is mounted, and replaced while a save runs.
abbrev pub pressed : Option Editor → EditView → EditView
pressed none v = v
pressed (some e) v = begin_save v

unfoldable pub press_save : EditPage → EditPage × Option Submission
unfolding begin_save
press_save p = (
  record p { view = pressed p.mounted p.view },
  (if is_saving p.view.save_state then none else submission_of p.view.session p.mounted),
)

-- The events of a run, which change the view alone.
unfoldable pub on_view : (EditView → EditView) → EditPage → EditPage
on_view f p = record p { view = f p.view }
