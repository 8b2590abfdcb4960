-- ===== src/Web/Move.antt =====
-- Drag and drop of web/src/modules/files/dnd: the guards of dnd-types.ts and the drop handler of
-- use-item-move-monitor.ts; and the results of `useMoveItems` of web/src/modules/files/api/use-files.ts.
-- A payload of the drag-and-drop library is `unknown`: here, the members that the guards read.
pub mod Drop
pub mod Drag
use dropbox_go_grpc_microser.Prelude.{
  ℕ, String, Bool, true, false, not, ◌&&◌, ◌||◌, Option, none, some, List, [], ◌∷◌, map, any, ltb,
  str_eq, if◌then◌else◌,
}
use dropbox_go_grpc_microser.Exec.{Reply, ok, err}

pub data ItemType : Type 0 where
  file folder : ItemType

-- A value of unknown type: an object with the members below, each missing where it has another type,
-- or anything else.
pub data Unknown : Type 0 where
  other : Unknown
  object :
      (kind item_id folder_id name from_folder_id : Option String) (item_type : ItemType)
      (drag_count : Option ℕ)
      → Unknown

pub record ItemDragData : Type 0 where
  pub item_type : ItemType
  pub item_id : String
  pub from_folder_id : String

pub record MoveItemPayload : Type 0 where
  pub item_id : String
  pub item_type : ItemType

abbrev is_text : Option String → String → Bool
is_text none s = false
is_text (some t) s = str_eq t s

abbrev is_string : Option String → Bool
is_string none = false
is_string (some t) = true

abbrev is_positive : Option ℕ → Bool
is_positive none = false
is_positive (some n) = ltb 0 n

unfoldable pub is_item_drag_data : Unknown → Bool
is_item_drag_data other = false
is_item_drag_data (object kind item_id folder_id name from item_type count) =
    is_text kind "file-view-item" && is_string item_id && is_positive count

unfoldable pub is_file_view_drop_data : Unknown → Bool
is_file_view_drop_data other = false
is_file_view_drop_data (object kind item_id folder_id name from item_type count) =
    is_text kind "file-view-folder" || is_text kind "file-view-root"

abbrev pub text_of : Option String → String
text_of none = ""
text_of (some t) = t

-- What the handler reads of a payload that passed the guard.
abbrev pub drag_data : Unknown → ItemDragData
drag_data other = record { item_type = file; item_id = ""; from_folder_id = "" }
drag_data (object kind item_id folder_id name from item_type count) = record {
  item_type = item_type;
  item_id = text_of item_id;
  from_folder_id = text_of from;
}

abbrev pub target_folder_id : Unknown → String
target_folder_id other = ""
target_folder_id (object kind item_id folder_id name from item_type count) =
    if is_text kind "file-view-folder" then text_of folder_id else ""

-- `dropTargets.map((t) => t.data).find(isFileViewDropData)`
unfoldable pub find_target : List Unknown → Option Unknown
find_target [] = none
find_target (t ∷ ts) =
    let rest = find_target ts in if is_file_view_drop_data t then some t else rest

abbrev pub is_folder : ItemType → Bool
is_folder folder = true
is_folder file = false

abbrev pub is_selected : String → List MoveItemPayload → Bool
is_selected id selected = any (λ s. str_eq s.item_id id) selected

-- The moves, and the folder that they go to.
abbrev pub Moves : Type 0
Moves = List MoveItemPayload × String

unfoldable pub decide : ItemDragData → String → List MoveItemPayload → Option Moves
decide d target selected =
    if is_folder d.item_type && str_eq d.item_id target
    then none
    else if not (is_selected d.item_id selected) && str_eq d.from_folder_id target
    then none
    else some (
      (if is_selected d.item_id selected
          then selected
          else record { item_id = d.item_id; item_type = d.item_type } ∷ []),
      target,
    )

-- `onDrop`: what `onMoveItems` is called with, if it is. `drop_targets` come innermost first.
unfoldable pub on_drop : Unknown → List Unknown → List MoveItemPayload → Option Moves
on_drop source drop_targets selected =
    if not (is_item_drag_data source) then none else elim (find_target drop_targets) [
      | none ↦ none
      | some target ↦ decide (drag_data source) (target_folder_id target) selected
    ]

pub record MoveItem : Type 0 where
  pub item_id : String
  pub item_type : ItemType
  pub name : Option String

pub data MoveItemResult : Type 0 where
  moved : String → MoveItemResult
  not_moved : String → Option String → MoveItemResult

-- What `useMoveItems` makes of its items, with the answers of the two services.
module _ {E : Type 0} (move_folder move_file : String → String → Reply E Unit) where
  abbrev pub answer : MoveItem → String → Reply E Unit
  answer it target =
      if is_folder it.item_type then move_folder it.item_id target else move_file it.item_id target

  abbrev pub result : MoveItem → Reply E Unit → MoveItemResult
  result it (ok done) = moved it.item_id
  result it (err e) = not_moved it.item_id it.name

  unfoldable pub move_items : List MoveItem → String → List MoveItemResult
  move_items items target = map (λ it. result it (answer it target)) items
