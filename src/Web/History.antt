-- ===== src/Web/History.antt =====
-- The history of a browser tab under the routes of a folder: what the clicks of
-- web/src/modules/files/views/file-view.tsx and file-edit-view.tsx and of
-- web/src/modules/files/components/url-preview.tsx push onto it and take from it. Going forward is left
-- out; `router.back()` on a tab's first entry stays there.
pub mod Closing
use dropbox_go_grpc_microser.Prelude.{String, Bool, true, false, List, [], ◌∷◌, ◌++◌, length, drop}
use dropbox_go_grpc_microser.Item.{Item}
use dropbox_go_grpc_microser.Web.Edit.{EditView, leave_edit}
use dropbox_go_grpc_microser.Web.UrlPreview.{
  Navigation, back, push, replace, UrlPreview, init, preview_path, in_folder, on_edit,
  on_open_change, visit,
}

pub record Tab : Type 0 where
  pub shown : String
  -- The entries before it, newest first.
  pub earlier : List String

abbrev pub go_back : String → List String → Tab
go_back shown [] = record { shown = shown; earlier = [] }
go_back shown (path ∷ earlier) = record { shown = path; earlier = earlier }

unfoldable pub navigate : Navigation → Tab → Tab
navigate back t = go_back t.shown t.earlier
navigate (push path) t = record { shown = path; earlier = t.shown ∷ t.earlier }
navigate (replace path) t = record t { shown = path }

unfoldable pub navigate_all : List Navigation → Tab → Tab
unfolding navigate
navigate_all [] t = t
navigate_all (n ∷ ns) t = navigate_all ns (navigate n t)

-- A tab in which the preview of a file may be mounted.
pub record Browser : Type 0 where
  pub tab : Tab
  pub preview : UrlPreview

module _ (file_id folder_id : String) where
  -- A handler of the preview, with what it navigates; the preview sees the path that is then shown.
  abbrev pub handled : (UrlPreview → UrlPreview) → Browser → Browser
  handled handler b =
      let after = handler b.preview in
      let tab = navigate_all (drop (length b.preview.navigations) after.navigations) b.tab in
      record { tab = tab; preview = visit file_id folder_id tab.shown after }

  -- The card of a file is clicked: the path is pushed, and the preview is mounted anew.
  unfoldable pub open_preview : Tab → Browser
  unfolding navigate_all
  open_preview t = record {
    tab = navigate (push (preview_path file_id folder_id)) t;
    preview = init file_id folder_id;
  }

  -- The preview's own address is opened, in a new tab.
  unfoldable pub open_link : Browser
  open_link = record {
    tab = record { shown = preview_path file_id folder_id; earlier = [] };
    preview = init file_id folder_id;
  }

  unfoldable pub click_edit : Item → Browser → Browser
  unfolding navigate_all
  click_edit item b = handled (on_edit file_id folder_id item) b

  -- The drawer is closed.
  unfoldable pub close : Browser → Browser
  unfolding navigate_all
  close b = handled (on_open_change file_id folder_id false) b

  -- The edit page is left, or is not. The preview of before may still be mounted, and else it is mounted
  -- anew.
  abbrev pub left : (leaves still_mounted : Bool) → Browser → Browser
  left false still_mounted b = b
  left true true b =
      let path = preview_path file_id folder_id in
      record { tab = navigate (push path) b.tab; preview = visit file_id folder_id path b.preview }
  left true false b =
      let path = preview_path file_id folder_id in
      record { tab = navigate (push path) b.tab; preview = init file_id folder_id }

  -- "Back" on the edit page, which may ask first.
  unfoldable pub leave_editor : EditView → (confirmed still_mounted : Bool) → Browser → Browser
  unfolding navigate
  leave_editor view confirmed still_mounted b = left (leave_edit confirmed view).1 still_mounted b
