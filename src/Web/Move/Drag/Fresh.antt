-- ===== src/Web/Move/Drag/Fresh.antt =====
-- What the elements carry, and when they are marked.
use dropbox_go_grpc_microser.Prelude.{
  ◌≡◌, inl, inr, Bool-cases, refl, Bool, true, false, ◌&&◌, some, List, [], ◌∷◌, arith,
  if◌then◌else◌,
}
use dropbox_go_grpc_microser.Web.Move.{Unknown, is_item_drag_data}
use dropbox_go_grpc_microser.Web.Move.Drag.{
  DragEvent, render, drag_start, drop, mount, dragged, dragged_all, get_initial_data, TargetEvent,
  render_target, drag_enter, drag_leave, drop_here, hovered, hovered_all, get_data, mount_target,
}

abbrev pub latest : Unknown → List DragEvent → Unknown
latest payload [] = payload
latest payload (render fresh ∷ es) = latest fresh es
latest payload (_ ∷ es) = latest payload es

abbrev pub is_dragged : Bool → List DragEvent → Bool
is_dragged now [] = now
is_dragged now (render fresh ∷ es) = is_dragged now es
is_dragged now (drag_start ∷ es) = is_dragged true es
is_dragged now (drop ∷ es) = is_dragged false es

carried :
    (payload : Unknown) (marked : Bool) (es : List DragEvent)
    → let d = dragged_all (record { data_ref = payload; registered = true; marked = marked }) es in
      (get_initial_data d ≡ some (latest payload es)) × (d.marked ≡ is_dragged marked es)
unfolding dragged_all dragged get_initial_data
carried payload marked [] = (refl, refl)
carried payload marked (render fresh ∷ es) = carried fresh marked es
carried payload marked (drag_start ∷ es) = carried payload true es
carried payload marked (drop ∷ es) = carried payload false es

-- However often a card is drawn again, before a drag or during one, a drag carries the payload of the
-- latest drawing, although the element was registered with the first; it is marked from the start of a
-- drag to the drop.
pub get_initial_data-mount :
    (payload : Unknown) (es : List DragEvent)
    → (get_initial_data (dragged_all (mount payload true) es) ≡ some (latest payload es))
      × ((dragged_all (mount payload true) es).marked ≡ is_dragged false es)
unfolding mount
get_initial_data-mount payload es = carried payload false es

abbrev pub latest_target : Unknown → List TargetEvent → Unknown
latest_target payload [] = payload
latest_target payload (render_target fresh ∷ es) = latest_target fresh es
latest_target payload (_ ∷ es) = latest_target payload es

abbrev pub is_hovered : Bool → List TargetEvent → Bool
is_hovered now [] = now
is_hovered now (render_target fresh ∷ es) = is_hovered now es
is_hovered now (drag_enter ∷ es) = is_hovered true es
is_hovered now (_ ∷ es) = is_hovered false es

hovering :
    (source payload : Unknown) (lit : Bool) (es : List TargetEvent)
    → let t =
        hovered_all source
          (record { data_ref = payload; registered = true; is_drag_over = lit })
          es in
      (t.is_drag_over ≡ (if is_item_drag_data source then is_hovered lit es else lit))
      × (get_data t ≡ latest_target payload es)
unfolding hovered_all hovered get_data
hovering source payload lit [] = (ground arith, refl)
hovering source payload lit (render_target fresh ∷ es) = hovering source fresh lit es
hovering source payload lit (drag_enter ∷ es) = elim (Bool-cases (is_item_drag_data source)) [
  | inl item ↦
      let (over, names) = hovering source payload true es in rw item (ground arith, ground arith)
  | inr foreign ↦
      let (over, names) = hovering source payload lit es in rw foreign (ground arith, ground arith)
]
hovering source payload lit (drag_leave ∷ es) = elim (Bool-cases (is_item_drag_data source)) [
  | inl item ↦
      let (over, names) = hovering source payload false es in rw item (ground arith, ground arith)
  | inr foreign ↦
      let (over, names) = hovering source payload lit es in rw foreign (ground arith, ground arith)
]
hovering source payload lit (drop_here ∷ es) = elim (Bool-cases (is_item_drag_data source)) [
  | inl item ↦
      let (over, names) = hovering source payload false es in rw item (ground arith, ground arith)
  | inr foreign ↦
      let (over, names) = hovering source payload lit es in rw foreign (ground arith, ground arith)
]

-- While an item is dragged, a folder is lit from the item's entering it until it leaves or is dropped,
-- and it names the folder of the latest drawing; while anything else is dragged, it is never lit.
pub hovered_all-mount_target :
    (source payload : Unknown) (es : List TargetEvent)
    → let t = hovered_all source (mount_target payload true) es in
      (t.is_drag_over ≡ (is_item_drag_data source && is_hovered false es))
      × (get_data t ≡ latest_target payload es)
unfolding mount_target
hovered_all-mount_target source payload es =
    let (over, names) = hovering source payload false es in (ground arith, names)
