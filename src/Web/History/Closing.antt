-- ===== src/Web/History/Closing.antt =====
-- Where closing the preview leads.
use dropbox_go_grpc_microser.Prelude.{String, ◌≡◌, refl, ap, Bool, true, false, ◌∷◌}
use dropbox_go_grpc_microser.Item.{Item}
use dropbox_go_grpc_microser.Web.Edit.{EditView, leave_edit}
use dropbox_go_grpc_microser.Web.UrlPreview.{
  preview_path, edit_path, on_edit, on_open_change, visit,
}
use dropbox_go_grpc_microser.Web.History.{
  Tab, navigate, navigate_all, open_preview, open_link, click_edit, close, leave_editor, left,
}

module _ (file_id folder_id : String) where
  -- A preview that was opened from a page, and is closed, gives that page back with its history; one that
  -- was opened by its own address has no page before it, and stays.
  pub close-open_preview :
      (t : Tab)
      → ((close file_id folder_id (open_preview file_id folder_id t)).tab ≡ t)
        × ((close file_id folder_id (open_link file_id folder_id)).tab
            ≡ (open_link file_id folder_id).tab)
  unfolding close open_preview open_link on_open_change navigate_all navigate
  close-open_preview t = (refl, refl)

  -- A preview to which the user has come back from the editor, with "Back" on the edit page, is
  -- closed. If it was mounted anew, the page that is shown is the editor once more; if it had stayed
  -- mounted, it stays on the screen.
  pub close-leave_editor :
      (t : Tab) (item : Item) (view : EditView) (confirmed : Bool)
      → (leave_edit confirmed view).1 ≡ true
      → let b = click_edit file_id folder_id item (open_preview file_id folder_id t) in
        let edit = edit_path file_id folder_id item.item_id in
        let path = preview_path file_id folder_id in
        ((close file_id folder_id (leave_editor file_id folder_id view confirmed false b)).tab
          ≡ record { shown = edit; earlier = path ∷ t.shown ∷ t.earlier })
        × ((close file_id folder_id (leave_editor file_id folder_id view confirmed true b)).tab
            ≡ record { shown = path; earlier = edit ∷ path ∷ t.shown ∷ t.earlier })
  unfolding close open_preview click_edit leave_editor on_open_change on_edit navigate_all navigate
      visit
  close-leave_editor t item view confirmed agreed =
      let b = click_edit file_id folder_id item (open_preview file_id folder_id t) in
      (
        ap (λ leaves. (close file_id folder_id (left file_id folder_id leaves false b)).tab) agreed,
        ap (λ leaves. (close file_id folder_id (left file_id folder_id leaves true b)).tab) agreed,
      )
