-- ===== src/Web/Sidebar.antt =====
-- The menu of web/src/modules/dashboard/components/dashboard-sidebar.tsx: which entry is marked as the
-- page that is shown; and the page behind its entry "All files", web/src/app/(dashboard)/files/page.tsx.
pub mod Active
use dropbox_go_grpc_microser.Prelude.{
  ℕ, String, Bool, true, false, Option, none, some, List, [], ◌∷◌, keep, present, str_eq,
  if◌then◌else◌,
}
use dropbox_go_grpc_microser.Exec.{Reply, ok, err}
use dropbox_go_grpc_microser.Web.UrlPreview.{in_folder}
use dropbox_go_grpc_microser.Text.{codes, starts_with}

pub data Match : Type 0 where
  exact prefix : Match

pub record MenuItem : Type 0 where
  pub title : String
  pub url : Option String
  -- An item without a `match` matches by prefix.
  pub matching : Match

abbrev by_url : String → Match → String → Bool
by_url pathname exact url = str_eq pathname url
by_url pathname prefix url =
    if str_eq url "/" then str_eq pathname "/" else starts_with (codes pathname) (codes url)

unfoldable pub is_item_active : String → MenuItem → Bool
is_item_active pathname item = elim (present item.url) [
  | none ↦ false
  | some url ↦ by_url pathname item.matching url
]

abbrev pub page : String → String → MenuItem
page title url = record { title = title; url = some url; matching = exact }

abbrev pub no_page : String → MenuItem
no_page title = record { title = title; url = none; matching = prefix }

abbrev pub home : MenuItem
home = page "Home" "/home"

abbrev pub all_files : MenuItem
all_files = page "All files" "/files"

abbrev pub dashboard_navigation_items : List MenuItem
dashboard_navigation_items =
    home
    ∷ all_files
    ∷ page "Shared" "/shared-files"
    ∷ no_page "File requests"
    ∷ page "Deleted files" "/deleted-files"
    ∷ []

abbrev pub others_menu_items : List MenuItem
others_menu_items =
    no_page "Settings"
    ∷ record {
      title = "Help and support";
      url = some "mailto:business@codewithantonio.com";
      matching = prefix;
    }
    ∷ []

-- The entries of a section that are marked.
abbrev pub marked : String → List MenuItem → List MenuItem
marked pathname items = keep (is_item_active pathname) items

abbrev to_folder : {E : Type 0} → E → Option String → Reply E String
to_folder no_root none = err no_root
to_folder no_root (some folder_id) = ok (in_folder folder_id "")

-- `FilesIndexPage`: where it redirects, for what the service answers of the root folder's id.
unfoldable pub files_index_page : {E : Type 0} → E → Reply E (Option String) → Reply E String
files_index_page no_root (err e) = err e
files_index_page no_root (ok folder_id) = elim folder_id [
  | none ↦ err no_root
  | some id ↦ to_folder no_root (present (some id))
]
