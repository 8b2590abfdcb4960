-- ===== src/Web/Move/Drag.antt =====
-- The hooks of web/src/modules/files/dnd that register the elements: use-draggable-item.ts with the pill
-- that follows the pointer, and use-drop-target.ts. Both read what they carry through a ref, since they
-- register once. When the library sends which event is outside.
pub mod Fresh
use dropbox_go_grpc_microser.Prelude.{
  ℕ, String, Bool, true, false, ◌&&◌, ◌||◌, not, Option, none, some, List, [], ◌∷◌, ltb,
  if◌then◌else◌,
}
use dropbox_go_grpc_microser.Web.Move.{
  ItemType, Unknown, other, object, is_folder, is_item_drag_data, text_of,
}

-- An element that can be dragged; `marked` is `data-dragging` and the two styles.
pub record DraggableItem : Type 0 where
  pub data_ref : Unknown
  pub registered : Bool
  pub marked : Bool

pub data DragEvent : Type 0 where
  -- The card is drawn again, with this payload.
  render : Unknown → DragEvent
  drag_start drop : DragEvent

-- The first rendering, and the effect after it.
unfoldable pub mount : Unknown → (has_element : Bool) → DraggableItem
mount payload has_element = record { data_ref = payload; registered = has_element; marked = false }

unfoldable pub dragged : DraggableItem → DragEvent → DraggableItem
dragged d (render payload) = record d { data_ref = payload }
dragged d drag_start = if d.registered then record d { marked = true } else d
dragged d drop = if d.registered then record d { marked = false } else d

unfoldable pub dragged_all : DraggableItem → List DragEvent → DraggableItem
unfolding dragged
dragged_all d [] = d
dragged_all d (e ∷ es) = dragged_all (dragged d e) es

-- `getInitialData`
unfoldable pub get_initial_data : DraggableItem → Option Unknown
get_initial_data d = if d.registered then some d.data_ref else none

pub record Pill : Type 0 where
  pub dot_is_folder : Bool
  pub label : String
  -- The number before " files".
  pub count : Option ℕ

abbrev counted : Option ℕ → Option ℕ
counted none = none
counted (some n) = if ltb 1 n then some n else none

-- `textContent` of a missing name is empty.
abbrev pill_of : Unknown → Option Pill
pill_of other = none
pill_of (object kind item_id folder_id name from item_type count) =
    some
      (record { dot_is_folder = is_folder item_type; label = text_of name; count = counted count })

-- `onGenerateDragPreview`
unfoldable pub drag_preview : (can_set_image : Bool) → Unknown → Option Pill
drag_preview can_set_image source =
    if is_item_drag_data source && can_set_image then pill_of source else none

-- A drop target; its ref holds a function, and here what that gives.
pub record DropTarget : Type 0 where
  pub data_ref : Unknown
  pub registered : Bool
  pub is_drag_over : Bool

pub data TargetEvent : Type 0 where
  render_target : Unknown → TargetEvent
  drag_enter drag_leave drop_here : TargetEvent

unfoldable pub mount_target : Unknown → (has_element : Bool) → DropTarget
mount_target payload has_element = record {
  data_ref = payload;
  registered = has_element;
  is_drag_over = false;
}

-- `source` is what is dragged; the library sends the events of a target that `canDrop` admits.
unfoldable pub hovered : Unknown → DropTarget → TargetEvent → DropTarget
hovered source t (render_target payload) = record t { data_ref = payload }
hovered source t drag_enter =
    if t.registered && is_item_drag_data source then record t { is_drag_over = true } else t
hovered source t drag_leave =
    if t.registered && is_item_drag_data source then record t { is_drag_over = false } else t
hovered source t drop_here =
    if t.registered && is_item_drag_data source then record t { is_drag_over = false } else t

unfoldable pub hovered_all : Unknown → DropTarget → List TargetEvent → DropTarget
unfolding hovered
hovered_all source t [] = t
hovered_all source t (e ∷ es) = hovered_all source (hovered source t e) es

-- `getData`
unfoldable pub get_data : DropTarget → Unknown
get_data t = t.data_ref
