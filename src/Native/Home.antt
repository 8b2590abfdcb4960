-- ===== src/Native/Home.antt =====
-- The home screen of native/src/modules/home/views/home-view.tsx and the queries behind it of
-- native/src/modules/files/api/use-files.ts: the two decks, the labels of parent folders, and the root
-- folder. The services' answers are arguments.
pub mod Decks
use dropbox_go_grpc_microser.Prelude.{
  ℕ, zero, suc, ◌+◌, ◌/◌, String, Bool, true, false, Option, none, some, List, [], ◌∷◌, map, length,
  take, drop, max, keep, truthy, if◌then◌else◌,
}
use dropbox_go_grpc_microser.Exec.{Reply, ok, err}
use dropbox_go_grpc_microser.Dict.{Dict, insert, lookup}
use dropbox_go_grpc_microser.Item.{Item, file, folder, missing}
use dropbox_go_grpc_microser.Native.Files.{unique_items, show_download}

-- Math.max(1, Math.ceil(items.length / 2))
unfoldable pub split_at : List Item → ℕ
split_at items = max 1 ((length items + 1) / 2)

unfoldable pub lead_items : List (List Item) → List Item
unfolding split_at
lead_items pages = take (split_at (unique_items pages)) (unique_items pages)

unfoldable pub trail_items : List (List Item) → List Item
unfolding split_at
trail_items pages = drop (split_at (unique_items pages)) (unique_items pages)

abbrev pub root_label : String
root_label = "Dropbox"

-- The segments of a label, which " › " joins: the product's name and the names of the folders, of which
-- the root's is empty.
unfoldable pub label_of : List String → List String
label_of names = root_label ∷ keep truthy names

-- The labels of the folders that answered, `getBreadcrumbs` of each of them at most once.
unfoldable pub folder_labels :
    {E : Type 0}
    → (String → Reply E (List String))
    → List String
    → Dict (List String)
    → Dict (List String)
unfolding label_of
folder_labels get_breadcrumbs [] labels = labels
folder_labels get_breadcrumbs (id ∷ ids) labels =
    folder_labels get_breadcrumbs ids
      (elim (get_breadcrumbs id) [ err e ↦ labels | ok names ↦ insert id (label_of names) labels ])

-- The root folder's query; `none` is an answer without a folder.
unfoldable pub root_folder : {E A : Type 0} → E → Reply E (Option A) → Reply E A
root_folder no_folder (err e) = err e
root_folder no_folder (ok none) = err no_folder
root_folder no_folder (ok (some root)) = ok root

-- The dialog of a card: its title, and the folder it is in or the file that "Download" fetches.
pub data CardAlert : Type 0 where
  folder_card : (title : String) (location : List String) → CardAlert
  file_card : (title file_id : String) → CardAlert

abbrev location_of : Option (List String) → List String
location_of none = root_label ∷ []
location_of (some label) = label

-- `showItemActions`, with the labels of the parent folders.
unfoldable pub show_item_actions : Dict (List String) → Item → Option CardAlert
show_item_actions labels item = elim item.details [
  | folder f ↦ some (
      folder_card (if truthy f.name then f.name else "Folder")
        (location_of (lookup item.folder_id labels)))
  | file f ↦ some (file_card f.filename f.file_id)
  | missing ↦ none
]

-- The mutation `download`, and its alert.
unfoldable pub download :
    {E : Type 0}
    → (E → Option String)
    → (String → Reply E String)
    → (String → Reply E Unit)
    → String
    → Option String
download message_of ticket open_url file_id =
    show_download message_of ticket open_url file_id "Please try again."
