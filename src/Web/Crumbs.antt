-- ===== src/Web/Crumbs.antt =====
-- The path of folders above the grid: `BreadcrumbBar` of web/src/modules/files/views/file-view.tsx.
pub mod Path
use dropbox_go_grpc_microser.Prelude.{
  ℕ, String, Bool, true, false, not, ◌&&◌, Option, none, some, List, [], ◌∷◌, length, leb, truthy,
  if◌then◌else◌,
}

pub record Folder : Type 0 where
  pub folder_id : String
  pub name : String

-- The current folder is a text, its ancestors are links.
pub data Crumb : Type 0 where
  text : (label : String) → Crumb
  link : (folder_id label : String) → Crumb

abbrev pub label_of : Folder → String
label_of f = if truthy f.name then f.name else "My files"

abbrev pub crumb_of : List Folder → Folder → Crumb
crumb_of [] f = text (label_of f)
crumb_of (next ∷ more) f = link f.folder_id (label_of f)

unfoldable pub crumbs_from : Bool → List Folder → List Crumb
crumbs_from is_first [] = []
crumbs_from is_first (f ∷ fs) =
    let rest = crumbs_from false fs in
    if is_first && not (truthy f.name) then rest else crumb_of fs f ∷ rest

-- What follows the link "My files", where the breadcrumbs are there.
unfoldable pub crumbs : Option (List Folder) → List Crumb
unfolding crumbs_from
crumbs none = []
crumbs (some folders) = crumbs_from true folders

-- Whether "My files" is shown as the current folder.
unfoldable pub is_root : Option (List Folder) → Bool
is_root none = true
is_root (some folders) = leb (length folders) 1
