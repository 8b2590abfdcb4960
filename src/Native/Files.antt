-- ===== src/Native/Files.antt =====
-- The folder browser of native/src/modules/files/views/files-view.tsx: the stack of crumbs, the
-- selection, and the handlers. The dialogs that wait for a press are entries of `alerts`, newest last;
-- the keys of an object are kept in the order of their addition.
pub mod Unique
pub mod Browse
use Prim.Native.String
use dropbox_go_grpc_microser.Prelude.{
  ℕ, String, Bool, true, false, Option, none, some, List, [], ◌∷◌, ◌++◌, map, any, keep, length,
  truthy, str_eq, if◌then◌else◌,
}
use dropbox_go_grpc_microser.Exec.{Reply, ok, err}
use dropbox_go_grpc_microser.Dict.{Dict, lookup, insert, erase}
use dropbox_go_grpc_microser.Item.{Item, file, folder, missing, is_file}

-- `${item.itemType}-${item.itemId}`
abbrev pub key_of : Item → String
key_of item = String.◌++◌ item.item_type (String.◌++◌ "-" item.item_id)

abbrev pub seen_before : List String → String → Bool
seen_before seen key = any (λ k. str_eq k key) seen

-- The items of all pages, each key at its first occurrence; `seen` holds the keys so far. The same
-- loop stands in native/src/modules/home/views/home-view.tsx.
unfoldable pub unique_from : List String → List Item → List Item
unique_from seen [] = []
unique_from seen (item ∷ items) =
    let rest = unique_from (key_of item ∷ seen) items in
    elim (seen_before seen (key_of item)) [ true ↦ unique_from seen items | false ↦ item ∷ rest ]

abbrev pub concat_pages : List (List Item) → List Item
concat_pages [] = []
concat_pages (page ∷ pages) = page ++ concat_pages pages

unfoldable pub unique_items : List (List Item) → List Item
unfolding unique_from
unique_items pages = unique_from [] (concat_pages pages)

-- The ids of the files among the items, for their thumbnails.
unfoldable pub file_ids : List Item → List String
file_ids items = map (λ item. item.item_id) (keep is_file items)

pub record Crumb : Type 0 where
  pub id : String
  pub name : String

pub data FileSort : Type 0 where
  by_name by_updated_at : FileSort

pub data Alert : Type 0 where
  file_alert : (file_id filename : String) → Alert
  folder_alert : (item_id name : String) → Alert

pub record FilesView : Type 0 where
  -- The innermost folder comes first: `path[path.length - 1]` is the head.
  pub path : List Crumb
  pub sort : FileSort
  pub grid : Bool
  pub selecting : Bool
  pub selected : Dict Item
  pub alerts : List Alert

abbrev pub init : FilesView
init = record {
  path = [];
  sort = by_name;
  grid = false;
  selecting = false;
  selected = [];
  alerts = [];
}

-- `current?.id ?? root.data?.folderId ?? ''`
unfoldable pub folder_id : Option String → FilesView → String
folder_id root v = elim v.path [
  | crumb ∷ path ↦ crumb.id
  | [] ↦ elim root [ some id ↦ id | none ↦ "" ]
]

-- The title: how many are selected, or a text.
pub data Title : Type 0 where
  count_selected : ℕ → Title
  titled : String → Title

abbrev or_else : String → String → String
or_else s otherwise = if truthy s then s else otherwise

unfoldable pub title_of : FilesView → Title
title_of v = if v.selecting then count_selected (length v.selected) else (elim v.path [
  | [] ↦ titled "Dropbox"
  | crumb ∷ path ↦ titled (or_else crumb.name "Dropbox")
])

abbrev toggled : Option Item → Item → Dict Item → Dict Item
toggled none item selected = insert item.item_id item selected
toggled (some there) item selected = erase item.item_id selected

unfoldable pub toggle_selected : Item → FilesView → FilesView
toggle_selected item v = record v {
  selected = toggled (lookup item.item_id v.selected) item v.selected;
}

abbrev pub push : Crumb → FilesView → FilesView
push crumb v = record v { path = crumb ∷ v.path }

unfoldable pub open_item : Item → FilesView → FilesView
unfolding toggle_selected
open_item item v = if v.selecting then toggle_selected item v else (elim item.details [
  | folder f ↦
      push (record { id = or_else f.folder_id item.item_id; name = or_else f.name "Folder" }) v
  | file f ↦ record v { alerts = v.alerts ++ file_alert f.file_id f.filename ∷ [] }
  | missing ↦ v
])

-- The button "More" of a row, `onMore`.
unfoldable pub show_more : Item → FilesView → FilesView
show_more item v = elim item.details [
  | folder f ↦ record v {
    alerts = v.alerts ++ folder_alert item.item_id (or_else f.name "Folder") ∷ [];
  }
  | file f ↦ record v { alerts = v.alerts ++ file_alert f.file_id f.filename ∷ [] }
  | missing ↦ v
]

-- The button "Open" of the dialog of a folder.
unfoldable pub open_from_alert : String → String → FilesView → FilesView
open_from_alert item_id name v = push (record { id = item_id; name = name }) v

abbrev message_or : String → Option String → String
message_or otherwise none = otherwise
message_or otherwise (some message) = message

-- `showDownload`: the alert, if the ticket is refused or its URL cannot be opened; an error has a
-- message if it is an `Error`. The text for the other case names the file.
unfoldable pub show_download :
    {E : Type 0}
    → (E → Option String)
    → (String → Reply E String)
    → (String → Reply E Unit)
    → String
    → String
    → Option String
show_download message_of ticket open_url file_id otherwise = elim (ticket file_id) [
  | err e ↦ some (message_or otherwise (message_of e))
  | ok url ↦ elim (open_url url) [
    | err e ↦ some (message_or otherwise (message_of e))
    | ok done ↦ none
  ]
]

-- `previous.slice(0, -1)`
unfoldable pub go_up : FilesView → FilesView
go_up v = elim v.path [ [] ↦ v | crumb ∷ path ↦ record v { path = path } ]

unfoldable pub cycle_sort : FilesView → FilesView
cycle_sort v = elim v.sort [
  | by_name ↦ record v { sort = by_updated_at }
  | by_updated_at ↦ record v { sort = by_name }
]

-- The buttons "Select items", "Cancel selection" and the switch of the grid.
unfoldable pub start_selecting : FilesView → FilesView
start_selecting v = record v { selecting = true; selected = [] }

unfoldable pub cancel_selecting : FilesView → FilesView
cancel_selecting v = record v { selecting = false; selected = [] }

unfoldable pub switch_grid : FilesView → FilesView
switch_grid v = record v { grid = if v.grid then false else true }

pub data Deletion : Type 0 where
  delete_folder : String → Deletion
  delete_file : String → Deletion

-- `useDeleteItem`: files and folders live on different services.
abbrev pub deletion_of : Item → Deletion
deletion_of item =
    if str_eq item.item_type "folder" then delete_folder item.item_id else delete_file item.item_id

-- `runDelete` whose dialog is confirmed: what is sent, whatever is answered, and the view after all of
-- it has settled.
unfoldable pub run_delete : FilesView → List Deletion × FilesView
unfolding cancel_selecting
run_delete v = elim v.selected [
  | [] ↦ ([], v)
  | target ∷ targets ↦ (map (λ entry. deletion_of entry.1) (target ∷ targets), cancel_selecting v)
]
