-- ===== src/Web/Grid.antt =====
-- The file grid of web/src/modules/files/views/file-view.tsx: the items of the loaded pages, the
-- selection, and what is deleted, downloaded and moved. A `Set` of texts is the list of them in the
-- order of their addition; the answers of the mutations are arguments.
pub mod Listing
pub mod Selection
pub mod Moves
pub mod Drops
use Prim.Native.String
use dropbox_go_grpc_microser.Prelude.{
  ℕ, String, Bool, true, false, not, ◌&&◌, Option, none, some, List, [], ◌∷◌, ◌++◌, map, any, keep,
  length, take, ltb, ◌==◌, str_eq, if◌then◌else◌,
}
use dropbox_go_grpc_microser.Exec.{Reply, ok, err}
use dropbox_go_grpc_microser.Dict.{Dict, lookup, insert}
use dropbox_go_grpc_microser.Item
use dropbox_go_grpc_microser.Item.{Item, Details, missing, is_file, is_folder}
use dropbox_go_grpc_microser.Web.Move.{
  Unknown, MoveItemPayload, MoveItem, MoveItemResult, moved, not_moved, on_drop,
}
use dropbox_go_grpc_microser.Web.Move

-- `${item.itemType}:${item.itemId}`
abbrev pub key_of : Item → String
key_of item = String.◌++◌ item.item_type (String.◌++◌ ":" item.item_id)

abbrev pub concat_pages : List (List Item) → List Item
concat_pages [] = []
concat_pages (page ∷ pages) = page ++ concat_pages pages

-- The map of the items by their keys.
unfoldable pub by_key : List Item → Dict Item → Dict Item
by_key [] entries = entries
by_key (item ∷ items) entries = by_key items (insert (key_of item) item entries)

unfoldable pub items_of : List (List Item) → List Item
unfolding by_key
items_of pages = map (λ entry. entry.1) (by_key (concat_pages pages) [])

abbrev pub has : List String → String → Bool
has ids id = any (λ k. str_eq k id) ids

unfoldable pub add : String → List String → List String
add id ids = if has ids id then ids else ids ++ id ∷ []

unfoldable pub remove : String → List String → List String
remove id ids = keep (λ k. not (str_eq k id)) ids

unfoldable pub set_item_selected : String → Bool → List String → List String
unfolding add remove
set_item_selected id true ids = add id ids
set_item_selected id false ids = remove id ids

unfoldable pub set_of : List String → List String → List String
unfolding add
set_of [] ids = ids
set_of (id ∷ more) ids = set_of more (add id ids)

unfoldable pub toggle_all : Bool → List Item → List String
unfolding set_of
toggle_all true items = set_of (map (λ item. item.item_id) items) []
toggle_all false items = []

unfoldable pub selected_items : List Item → List String → List Item
selected_items items ids = keep (λ item. has ids item.item_id) items

unfoldable pub all_selected : List Item → List String → Bool
unfolding selected_items
all_selected items ids = ltb 0 (length items) && length (selected_items items ids) == length items

-- What a drop reads of the selection.
abbrev payload_of : Item → MoveItemPayload
payload_of item = record {
  item_id = item.item_id;
  item_type = if is_folder item then Move.folder else Move.file;
}

unfoldable pub get_selected_items : List Item → List String → List MoveItemPayload
unfolding selected_items
get_selected_items items ids = map payload_of (selected_items items ids)

abbrev pub by_id : List Item → Dict Item → Dict Item
by_id [] entries = entries
by_id (item ∷ items) entries = by_id items (insert item.item_id item entries)

-- `skipped`: an item that vanished, or is in the folder already.
abbrev pub is_skipped : Option Item → String → Bool
is_skipped none target = true
is_skipped (some item) target = str_eq item.folder_id target

abbrev pub name_of : Option Item → Option String
name_of none = none
name_of (some item) = elim item.details [
  | Item.file f ↦ some f.filename
  | Item.folder f ↦ some f.name
  | missing ↦ none
]

abbrev pub move_item : Dict Item → MoveItemPayload → MoveItem
move_item items m = record {
  item_id = m.item_id;
  item_type = m.item_type;
  name = name_of (lookup m.item_id items);
}

unfoldable pub actionable : Dict Item → List MoveItemPayload → String → List MoveItemPayload
actionable items moves target = keep (λ m. not (is_skipped (lookup m.item_id items) target)) moves

-- `moveSelection`: what `moveItems` is called with, if it is.
unfoldable pub move_selection :
    List Item → List MoveItemPayload → String → Option (List MoveItem × String)
unfolding actionable
move_selection items moves target = elim (actionable (by_id items []) moves target) [
  | [] ↦ none
  | m ∷ ms ↦ some (map (move_item (by_id items [])) (m ∷ ms), target)
]

-- A drop on the view: the monitor's handler, with the selection, and `moveSelection` as its
-- `onMoveItems`.
unfoldable pub drop_items :
    Unknown → List Unknown → List Item → List String → Option (List MoveItem × String)
drop_items source drop_targets items ids =
    elim (on_drop source drop_targets (get_selected_items items ids)) [
      | none ↦ none
      | some (moves, target) ↦ move_selection items moves target
    ]

abbrev pub shown_name : MoveItemResult → String
shown_name (moved id) = id
shown_name (not_moved id none) = id
shown_name (not_moved id (some name)) = name

abbrev pub is_failed : MoveItemResult → Bool
is_failed (moved id) = false
is_failed (not_moved id name) = true

-- The alert after the moves: how many failed, and the names of the first five.
unfoldable pub move_alert : List MoveItemResult → Option (ℕ × List String)
move_alert results = elim (keep is_failed results) [
  | [] ↦ none
  | r ∷ rs ↦ some (length (r ∷ rs), take 5 (map shown_name (r ∷ rs)))
]

pub data Deletion : Type 0 where
  delete_folder : String → Deletion
  delete_file : String → Deletion

abbrev pub deletion_of : Item → Deletion
deletion_of item = if is_folder item then delete_folder item.item_id else delete_file item.item_id

abbrev pub all_ok : {E : Type 0} → List (Reply E Unit) → Bool
all_ok [] = true
all_ok (ok done ∷ rs) = all_ok rs
all_ok (err e ∷ rs) = false

-- `deleteSelected`: what is sent, and the selection afterwards, which stays if one of the calls rejects.
unfoldable pub delete_selected :
    {E : Type 0}
    → (Deletion → Reply E Unit)
    → Bool
    → List Item
    → List String
    → List Deletion × List String
unfolding selected_items
delete_selected answer false items ids = ([], ids)
delete_selected answer true items ids =
    let sent = map deletion_of (selected_items items ids) in
    (sent, if all_ok (map answer sent) then [] else ids)

pub data DownloadAlert (E : Type 0) : Type 0 where
  nothing_to_download : DownloadAlert E
  not_started : (name : String) (error : E) → DownloadAlert E

abbrev filename_or : Item → String → String
filename_or item otherwise = elim item.details [
  | Item.file f ↦ f.filename
  | Item.folder f ↦ otherwise
  | missing ↦ otherwise
]

-- The loop over the files: the ids that were asked for, and the alert of the first failure.
unfoldable pub download_files :
    {E : Type 0}
    → (String → String → Reply E Unit)
    → List Item
    → List String × Option (DownloadAlert E)
download_files download [] = ([], none)
download_files download (item ∷ items) =
    let (asked, alert) = download_files download items in
    elim (download item.item_id (filename_or item "download")) [
      | err e ↦ (item.item_id ∷ [], some (not_started (filename_or item item.item_id) e))
      | ok done ↦ (item.item_id ∷ asked, alert)
    ]

unfoldable pub download_selected :
    {E : Type 0}
    → (String → String → Reply E Unit)
    → List Item
    → List String
    → List String × Option (DownloadAlert E)
unfolding selected_items download_files
download_selected download items ids = elim (keep is_file (selected_items items ids)) [
  | [] ↦ ([], some nothing_to_download)
  | f ∷ fs ↦ download_files download (f ∷ fs)
]
