-- ===== src/Web/Move/Drop.antt =====
-- What a drop moves.
use dropbox_go_grpc_microser.Prelude.{
  String, ◌≡◌, ◌≢◌, ◌⊎◌, ◌↔◌, refl, true, false, ◌++◌, some, List, [], ◌∷◌, arith, All, eq_iff,
  eq_refl,
}
use dropbox_go_grpc_microser.Exec.{Reply, ok, err, is_ok}
use dropbox_go_grpc_microser.Web.Move.{
  folder, Unknown, ItemDragData, MoveItemPayload, is_item_drag_data, is_file_view_drop_data,
  drag_data, find_target, is_selected, decide, on_drop, MoveItem, MoveItemResult, moved, not_moved,
  answer, result, move_items,
}

-- A drop moves something exactly if it is no folder onto itself, and no unselected item into the
-- folder where it is; then it goes to that folder: the whole selection if the item is part of it, and
-- else the item alone.
pub decide_iff :
    (d : ItemDragData) (target : String) (selected moves : List MoveItemPayload) (to : String)
    → (decide d target selected ≡ some (moves, to)) ↔ (
        (to ≡ target)
        × ¬ ((d.item_type ≡ folder) × (d.item_id ≡ target))
        × (((is_selected d.item_id selected ≡ true) × (moves ≡ selected))
            ⊎ ((is_selected d.item_id selected ≡ false)
                × (d.from_folder_id ≢ target)
                × (moves ≡ record { item_id = d.item_id; item_type = d.item_type } ∷ []))))
unfolding decide
decide_iff d target selected moves to =
    ground (arith, eq_iff d.item_id target, eq_iff d.from_folder_id target)

-- The item that is dragged is among those that are moved.
pub on_drop-moves_source :
    (source : Unknown) (targets : List Unknown) (selected moves : List MoveItemPayload)
    (to : String)
    → on_drop source targets selected ≡ some (moves, to)
    → (is_item_drag_data source ≡ true) × (is_selected (drag_data source).item_id moves ≡ true)
unfolding on_drop decide
on_drop-moves_source source targets selected moves to h =
    ground (arith, eq_refl (drag_data source).item_id)

-- The destination is the innermost drop target of the file view: no target before it is one.
pub find_target-innermost :
    (outer : List Unknown) (inner : List Unknown) (t : Unknown)
    → All (λ u. is_file_view_drop_data u ≡ false) inner
    → is_file_view_drop_data t ≡ true
    → find_target (inner ++ t ∷ outer) ≡ some t
unfolding find_target
find_target-innermost outer [] t none_in here = rw here
find_target-innermost outer (u ∷ inner) t (no_target, rest) here =
    rw no_target (find_target-innermost outer inner t rest here)

-- A failed move is reported for its item, in the item's place, and does not hide the others.
abbrev pub Reports : {E : Type 0} → MoveItem → Reply E Unit → MoveItemResult → Type 0
Reports it a (moved id) = (id ≡ it.item_id) × (is_ok a ≡ true)
Reports it a (not_moved id name) = (id ≡ it.item_id) × (name ≡ it.name) × (is_ok a ≡ false)

abbrev pub AllReport :
    {E : Type 0} → (MoveItem → Reply E Unit) → List MoveItem → List MoveItemResult → Type 0
AllReport a [] [] = Unit
AllReport a (it ∷ items) (r ∷ rs) = Reports it (a it) r × AllReport a items rs
AllReport a _ _ = ⊥

result-Reports :
    {E : Type 0} (move_folder move_file : String → String → Reply E Unit) (it : MoveItem)
    (a : Reply E Unit)
    → Reports it a (result move_folder move_file it a)
result-Reports move_folder move_file it (ok done) = (refl, refl)
result-Reports move_folder move_file it (err e) = (refl, refl, refl)

-- Each item has one result, in its place: moved if its service accepted the move, and else not moved,
-- with the item's name.
pub move_items-AllReport :
    {E : Type 0} (move_folder move_file : String → String → Reply E Unit) (items : List MoveItem)
    (target : String)
    → AllReport
        (λ it. answer move_folder move_file it target)
        items
        (move_items move_folder move_file items target)
unfolding move_items
move_items-AllReport move_folder move_file [] target = tt
move_items-AllReport move_folder move_file (it ∷ items) target = (
  result-Reports move_folder move_file it (answer move_folder move_file it target),
  move_items-AllReport move_folder move_file items target,
)
