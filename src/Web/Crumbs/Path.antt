-- ===== src/Web/Crumbs/Path.antt =====
-- What the path shows.
use dropbox_go_grpc_microser.Prelude.{
  ◌≡◌, refl, false, some, List, [], ◌∷◌, ◌++◌, arith, map, truthy,
}
use dropbox_go_grpc_microser.Web.Crumbs.{Folder, text, link, label_of, crumbs_from, crumbs}

ancestors_then_current :
    (ancestors : List Folder) (current : Folder)
    → crumbs_from false (ancestors ++ current ∷ [])
      ≡ map (λ f. link f.folder_id (label_of f)) ancestors ++ text (label_of current) ∷ []
unfolding crumbs_from
ancestors_then_current [] current = refl
ancestors_then_current (f ∷ []) current = refl
ancestors_then_current (f ∷ g ∷ fs) current =
    ground (arith, ancestors_then_current (g ∷ fs) current)

-- Below a root without a name the path links to each ancestor in order, and ends with the current folder
-- as a text; the root itself is not shown again.
pub crumbs-path :
    (root : Folder) (ancestors : List Folder) (current : Folder)
    → truthy root.name ≡ false
    → crumbs (some (root ∷ (ancestors ++ current ∷ [])))
      ≡ map (λ f. link f.folder_id (label_of f)) ancestors ++ text (label_of current) ∷ []
unfolding crumbs
crumbs-path root ancestors current unnamed =
    ground (arith, ancestors_then_current ancestors current)
