-- ===== src/Web/UrlPreview.antt =====
-- The preview that the URL names: web/src/modules/files/components/url-preview.tsx. A mounted component:
-- the path, the answer of the file's query, and where the router is sent, newest last. That the router
-- shows another path, with the component still mounted, is an event.
pub mod Dismissal
use Prim.Native.String
use dropbox_go_grpc_microser.Prelude.{
  String, Bool, true, false, not, ◌&&◌, ◌||◌, Option, none, some, List, [], ◌∷◌, ◌++◌, str_eq,
  if◌then◌else◌,
}
use dropbox_go_grpc_microser.Item.{Item, FileDetails, file}

pub data Navigation : Type 0 where
  back : Navigation
  push : String → Navigation
  replace : String → Navigation

-- What is read of a file.
pub record FileAnswer : Type 0 where
  pub file_id : String
  pub folder_id : String
  pub filename : String

pub record UrlPreview : Type 0 where
  pub pathname : String
  pub file : Option FileAnswer
  -- leavingForEditor.current
  pub leaving_for_editor : Bool
  pub navigations : List Navigation

unfoldable pub item_from_file : FileAnswer → Item
item_from_file f = record {
  item_type = "file";
  item_id = f.file_id;
  folder_id = f.folder_id;
  details = file (record { file_id = f.file_id; filename = f.filename });
}

abbrev pub has_file : Option FileAnswer → Bool
has_file none = false
has_file (some f) = true

abbrev pub in_folder : String → String → String
in_folder folder_id rest = String.◌++◌ "/files/" (String.◌++◌ folder_id rest)

module _ (file_id folder_id : String) where
  abbrev pub preview_path : String
  preview_path = in_folder folder_id (String.◌++◌ "/preview/" file_id)

  abbrev pub edit_path : String → String
  edit_path item_id = in_folder folder_id (String.◌++◌ "/edit/" item_id)

  abbrev pub init : UrlPreview
  init = record {
    pathname = preview_path;
    file = none;
    leaving_for_editor = false;
    navigations = [];
  }

  -- The drawer's `open`.
  unfoldable pub is_open : UrlPreview → Bool
  is_open v = has_file v.file && str_eq v.pathname preview_path

  unfoldable pub on_edit : Item → UrlPreview → UrlPreview
  on_edit item v = record v {
    leaving_for_editor = true;
    navigations = v.navigations ++ push (edit_path item.item_id) ∷ [];
  }

  unfoldable pub on_open_change : Bool → UrlPreview → UrlPreview
  on_open_change opens v =
      if opens || v.leaving_for_editor
      then v
      else record v { navigations = v.navigations ++ back ∷ [] }

  -- The file's query answers; where it fails, the effect leaves for the folder.
  unfoldable pub answered : FileAnswer → UrlPreview → UrlPreview
  answered f v = record v { file = some f }

  unfoldable pub refused : UrlPreview → UrlPreview
  refused v = record v { navigations = v.navigations ++ replace (in_folder folder_id "") ∷ [] }

  -- The router shows a path.
  unfoldable pub visit : String → UrlPreview → UrlPreview
  visit path v = record v { pathname = path }
