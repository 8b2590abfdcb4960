-- ===== src/Tests/Routes.antt =====
-- A tab that goes to the editor and back, and the edit page, on concrete inputs.
use dropbox_go_grpc_microser.Prelude.{◌≡◌, refl, true, false, none, some, [], ◌∷◌}
use dropbox_go_grpc_microser.Item
use dropbox_go_grpc_microser.Item.{Item}
use dropbox_go_grpc_microser.Web.Edit.{EditSession, init, leave_edit, conflict, conflicted, settle}
use dropbox_go_grpc_microser.Web.Edit.Surface.{
  Session, Editor, EditPage, new_editor, open_page, session_arrives, change, press_save, on_view,
}
use dropbox_go_grpc_microser.Web.Edit.Surface.Mounting
use dropbox_go_grpc_microser.Web.Edit.Surface.Mounting.{press_save-pinned}
use dropbox_go_grpc_microser.Web.Edit.Surface.Lost.{session_arrives-conflict}
use dropbox_go_grpc_microser.Web.History.{
  Tab, Browser, open_preview, click_edit, leave_editor, close,
}
use dropbox_go_grpc_microser.Web.History.Closing.{close-leave_editor}
use dropbox_go_grpc_microser.Web.UrlPreview.{preview_path, edit_path}

abbrev item : Item
item = record {
  item_type = "file";
  item_id = "f1";
  folder_id = "d1";
  details = Item.file (record { file_id = "f1"; filename = "a.docx" });
}

abbrev folder_page : Tab
folder_page = record { shown = "/files/d1"; earlier = "/home" ∷ [] }

abbrev in_editor : Browser
in_editor = click_edit "f1" "d1" item (open_preview "f1" "d1" folder_page)

close-leave_editor_example :
    ((close "f1" "d1" (leave_editor "f1" "d1" (init none) true false in_editor)).tab ≡ record {
      shown = edit_path "f1" "d1" "f1";
      earlier = preview_path "f1" "d1" ∷ "/files/d1" ∷ "/home" ∷ [];
    })
    × ((close "f1" "d1" (leave_editor "f1" "d1" (init none) true true in_editor)).tab ≡ record {
      shown = preview_path "f1" "d1";
      earlier = edit_path "f1" "d1" "f1" ∷ preview_path "f1" "d1" ∷ "/files/d1" ∷ "/home" ∷ [];
    })
unfolding leave_edit
close-leave_editor_example = close-leave_editor "f1" "d1" folder_page item (init none) true refl

abbrev edit : EditSession
edit = record {
  version = 3;
  block_size = 4;
  filename = "a.docx";
  unavailable_reason = "";
  size_bytes = 9;
  max_edit_bytes = 100;
}

abbrev session : Session
session = record { edit = edit; can_edit = true; sniffed_type = "docx"; ticket_url = "/v3" }

abbrev newer : Session
newer = record session { edit = record edit { version = 4 }; ticket_url = "/v4" }

-- The user types, and a save is pressed; meanwhile someone else commits version 4.
abbrev typed : EditPage
typed = change "hello" (open_page (some session) (some "a.docx"))

abbrev saving_page : EditPage
saving_page = (press_save typed).0

abbrev old : Editor
old = record (new_editor session "a.docx") { edits = "hello" ∷ [] }

press_save-pinned_example :
    (s : Session) × (typed.session ≡ some s)
    × (3 ≡ s.edit.version)
    × ("/v3" ≡ s.ticket_url)
    × (s.can_edit ≡ true)
unfolding press_save change open_page
press_save-pinned_example =
    press_save-pinned (record { base_version = 3; source = old })
      (Mounting.next Mounting.here
        (Mounting.types "hello" (open_page (some session) (some "a.docx"))))
      refl

session_arrives-conflict_example :
    let q = session_arrives newer (on_view (settle 0 (conflicted 4)) saving_page) in
    (q.mounted ≡ some (new_editor newer "a.docx"))
    × (q.view.save_state ≡ conflict 4)
    × (q.view.is_dirty ≡ true)
unfolding press_save change open_page
session_arrives-conflict_example =
    session_arrives-conflict saving_page old newer "a.docx" 0 4 refl refl refl refl refl refl
