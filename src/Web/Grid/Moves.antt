-- ===== src/Web/Grid/Moves.antt =====
-- What a drop on the grid moves, and what is reported.
use dropbox_go_grpc_microser.Prelude.{
  String, ◌≡◌, ◌≢◌, ◌↔◌, refl, false, none, some, List, [], ◌∷◌, arith, All, keep,
}
use dropbox_go_grpc_microser.Dict.{Dict, lookup}
use dropbox_go_grpc_microser.Item.{Item}
use dropbox_go_grpc_microser.Web.Move.{MoveItem, MoveItemResult, moved, not_moved}
use dropbox_go_grpc_microser.Web.Grid.{name_of, is_failed, move_alert}

-- A move of an item that the grid has, and that is not in the folder already, with the item's name.
abbrev pub IsDue : Dict Item → String → MoveItem → Type 0
IsDue items target it =
    (item : Item) × (lookup it.item_id items ≡ some item)
    × (item.folder_id ≢ target)
    × (it.name ≡ name_of (some item))

abbrev pub AllMoved : List MoveItemResult → Type 0
AllMoved results = All (λ r. is_failed r ≡ false) results

keep-nil : (results : List MoveItemResult) → (keep is_failed results ≡ []) ↔ AllMoved results
keep-nil [] = ((λ h. tt), (λ h. refl))
keep-nil (moved id ∷ results) =
    ((λ h. (refl, (keep-nil results).0 h)), (λ h. (keep-nil results).1 h.1))
keep-nil (not_moved id name ∷ results) =
    ((λ h. absurd (ground arith)), (λ h. absurd (ground arith)))

-- The user is told nothing exactly if all moves succeeded.
pub move_alert_iff :
    (results : List MoveItemResult) → (move_alert results ≡ none) ↔ AllMoved results
unfolding move_alert
move_alert_iff results = (
  (λ quiet. (keep-nil results).0 (ground arith)),
  (λ fine. let none_failed = (keep-nil results).1 fine in ground arith),
)
