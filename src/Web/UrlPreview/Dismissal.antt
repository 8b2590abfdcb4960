-- ===== src/Web/UrlPreview/Dismissal.antt =====
-- What dismissing the preview does.
use dropbox_go_grpc_microser.Prelude.{
  String, ◌≡◌, refl, Bool, true, false, ◌||◌, some, List, [], ◌∷◌, ◌++◌, arith, any, eq_refl,
  if◌then◌else◌,
}
use dropbox_go_grpc_microser.Item.{Item}
use dropbox_go_grpc_microser.Web.UrlPreview.{
  UrlPreview, FileAnswer, Navigation, back, push, replace, init, preview_path, edit_path, is_open,
  on_edit, on_open_change, answered, refused, visit, in_folder,
}

abbrev pub is_push : Navigation → Bool
is_push (push path) = true
is_push _ = false

abbrev pub went_to_editor : List Navigation → Bool
went_to_editor navigations = any is_push navigations

went_to_editor-append :
    (ns : List Navigation) (n : Navigation)
    → went_to_editor (ns ++ n ∷ []) ≡ (went_to_editor ns || is_push n)
went_to_editor-append [] n = ground arith
went_to_editor-append (m ∷ ns) n = ground (arith, went_to_editor-append ns n)

module _ (file_id folder_id : String) where
  -- What the user, the query and the router do to a mounted preview, in any order.
  pub data Step : UrlPreview → UrlPreview → Type 0 where
    edits : (item : Item) (v : UrlPreview) → Step v (on_edit file_id folder_id item v)
    changes : (opens : Bool) (v : UrlPreview) → Step v (on_open_change file_id folder_id opens v)
    answers : (f : FileAnswer) (v : UrlPreview) → Step v (answered file_id folder_id f v)
    refuses : (v : UrlPreview) → Step v (refused file_id folder_id v)
    visits : (path : String) (v : UrlPreview) → Step v (visit file_id folder_id path v)

  pub data Reach : UrlPreview → Type 0 where
    here : Reach (init file_id folder_id)
    next : {v w : UrlPreview} → Reach v → Step v w → Reach w

  Reach-leaving : {v : UrlPreview} → Reach v → v.leaving_for_editor ≡ went_to_editor v.navigations
  unfolding on_edit on_open_change answered refused visit
  Reach-leaving here = refl
  Reach-leaving (next r (edits item v)) =
      ground (
        arith,
        went_to_editor-append v.navigations (push (edit_path file_id folder_id item.item_id)),
      )
  Reach-leaving (next r (changes opens v)) =
      ground (arith, Reach-leaving r, went_to_editor-append v.navigations back)
  Reach-leaving (next r (answers f v)) = Reach-leaving r
  Reach-leaving (next r (refuses v)) = ground (
    arith,
    Reach-leaving r,
    went_to_editor-append v.navigations (replace (in_folder folder_id "")),
  )
  Reach-leaving (next r (visits path v)) = Reach-leaving r

  -- As long as the preview stays mounted, dismissing it goes back exactly if it was never left for the
  -- editor: once it was, dismissing does nothing, also when the user has come back and it is open again.
  pub on_open_change-goes_back :
      {v : UrlPreview} (f : FileAnswer)
      → Reach v
      → v.file ≡ some f
      → (is_open file_id folder_id (visit file_id folder_id (preview_path file_id folder_id) v)
          ≡ true)
        × ((on_open_change file_id folder_id false
              (visit file_id folder_id (preview_path file_id folder_id) v)).navigations
            ≡ (if went_to_editor v.navigations then v.navigations else v.navigations ++ back ∷ []))
  unfolding is_open on_open_change visit
  on_open_change-goes_back f r loaded =
      let leaving = Reach-leaving r in
      (ground (arith, eq_refl (preview_path file_id folder_id)), ground arith)
