-- ===== src/Web/Grid/Drops.antt =====
-- A drop, from the payloads to what is asked of the services.
use dropbox_go_grpc_microser.Prelude.{
  String, ◌≡◌, ◌≢◌, Bool, true, false, some, List, [], ◌∷◌, arith, any, map, str_eq, eq_iff,
  eq_refl, Bool-cases, inl, inr,
}
use dropbox_go_grpc_microser.Dict.{Dict, lookup}
use dropbox_go_grpc_microser.Item.{Item}
use dropbox_go_grpc_microser.Web.Move.{
  Unknown, MoveItemPayload, MoveItem, is_item_drag_data, is_file_view_drop_data, drag_data,
  target_folder_id, find_target, is_selected, decide, on_drop,
}
use dropbox_go_grpc_microser.Web.Grid.{
  by_id, is_skipped, move_item, actionable, move_selection, get_selected_items, drop_items,
}

abbrev pub asks_for : String → List MoveItem → Bool
asks_for id request = any (λ it. str_eq it.item_id id) request

-- What is due is asked for.
actionable-asks_for :
    (items : Dict Item) (moves : List MoveItemPayload) (target id : String)
    → is_selected id moves ≡ true
    → is_skipped (lookup id items) target ≡ false
    → asks_for id (map (move_item items) (actionable items moves target)) ≡ true
unfolding actionable
actionable-asks_for items [] target id chosen due = cc
actionable-asks_for items (m ∷ moves) target id chosen due =
    elim (Bool-cases (str_eq m.item_id id)) [
      | inl same ↦ let here : m.item_id ≡ id = (eq_iff m.item_id id).0 same in ground arith
      | inr other ↦ ground (arith, actionable-asks_for items moves target id)
    ]

move_selection-asks_for :
    (items : List Item) (moves : List MoveItemPayload) (target id : String)
    → is_selected id moves ≡ true
    → is_skipped (lookup id (by_id items [])) target ≡ false
    → (request : List MoveItem) × (move_selection items moves target ≡ some (request, target))
      × (asks_for id request ≡ true)
unfolding move_selection
move_selection-asks_for items moves target id chosen due =
    let asked = actionable-asks_for (by_id items []) moves target id chosen due in
    (
      map (move_item (by_id items [])) (actionable (by_id items []) moves target),
      ground arith,
      asked,
    )

-- A card that is dropped on nothing but the view itself, in whose folder it is, is sent to the folder
-- "", whichever folder the view shows: the drop is not taken for one where the card is already.
pub drop_items-view :
    (source view : Unknown) (items : List Item) (ids : List String) (item : Item)
    → is_item_drag_data source ≡ true
    → is_file_view_drop_data view ≡ true
    → target_folder_id view ≡ ""
    → lookup (drag_data source).item_id (by_id items []) ≡ some item
    → (drag_data source).item_id ≢ ""
    → (drag_data source).from_folder_id ≡ item.folder_id
    → item.folder_id ≢ ""
    → (request : List MoveItem) × (drop_items source (view ∷ []) items ids ≡ some (request, ""))
      × (asks_for (drag_data source).item_id request ≡ true)
unfolding drop_items on_drop decide find_target
drop_items-view source view items ids item drags drops root held named lives deep =
    let d = drag_data source in
    let chosen = get_selected_items items ids in
    let due : is_skipped (lookup d.item_id (by_id items [])) "" ≡ false =
      ground (arith, eq_iff item.folder_id "") in
    elim (Bool-cases (is_selected d.item_id chosen)) [
      | inl multiple ↦
          let (request, sent, asked) =
            move_selection-asks_for items chosen "" d.item_id multiple due in
          (request, ground (arith, eq_iff d.item_id ""), asked)
      | inr single ↦
          let alone = record { item_id = d.item_id; item_type = d.item_type } ∷ [] in
          let (request, sent, asked) =
            move_selection-asks_for items alone "" d.item_id (ground (arith, eq_refl d.item_id))
              due in
          (request, ground (arith, eq_iff d.item_id "", eq_iff d.from_folder_id ""), asked)
    ]

-- A selection that is dropped on a folder that is part of it takes the folder along: the request asks for
-- the folder to be moved into itself, if another of the selected items was the one that was dragged.
pub drop_items-into_itself :
    (source target : Unknown) (outer : List Unknown) (items : List Item) (ids : List String)
    (folder : Item)
    → is_item_drag_data source ≡ true
    → is_file_view_drop_data target ≡ true
    → (drag_data source).item_id ≢ target_folder_id target
    → is_selected (drag_data source).item_id (get_selected_items items ids) ≡ true
    → is_selected (target_folder_id target) (get_selected_items items ids) ≡ true
    → lookup (target_folder_id target) (by_id items []) ≡ some folder
    → folder.folder_id ≢ target_folder_id target
    → (request : List MoveItem) × (drop_items source (target ∷ outer) items ids
        ≡ some (request, target_folder_id target))
      × (asks_for (target_folder_id target) request ≡ true)
unfolding drop_items on_drop decide find_target
drop_items-into_itself source target outer items ids folder drags drops other dragged chosen held
      away =
    let to = target_folder_id target in
    let (request, sent, asked) =
      move_selection-asks_for items (get_selected_items items ids) to to chosen
        (ground (arith, eq_iff folder.folder_id to)) in
    (request, ground (arith, eq_iff (drag_data source).item_id to), asked)
