-- ===== src/Web/Grid/Selection.antt =====
-- What is selected.
use dropbox_go_grpc_microser.Prelude.{
  String, ◌≡◌, refl, Bool, true, false, not, ◌||◌, List, [], ◌∷◌, ◌++◌, arith, all, map, keep,
  length, ◌==◌, str_eq, eq_iff, eq_refl, if◌then◌else◌,
}
use dropbox_go_grpc_microser.Item.{Item}
use dropbox_go_grpc_microser.Web.Grid.{
  has, add, remove, set_item_selected, set_of, toggle_all, selected_items, all_selected,
}

has-append_one :
    (ids : List String) (k id : String) → has (ids ++ k ∷ []) id ≡ (has ids id || str_eq k id)
has-append_one [] k id = ground arith
has-append_one (j ∷ ids) k id = ground (arith, has-append_one ids k id)

pub has-add : (k id : String) (ids : List String) → has (add k ids) id ≡ (str_eq k id || has ids id)
unfolding add
has-add k id ids = ground (arith, has-append_one ids k id, eq_iff k id)

pub has-remove :
    (k id : String) (ids : List String)
    → has (remove k ids) id ≡ (if str_eq k id then false else has ids id)
unfolding remove
has-remove k id [] = ground arith
has-remove k id (j ∷ ids) =
    ground (arith, has-remove k id ids, eq_iff j k, eq_iff j id, eq_iff k id)

-- A checkbox selects or deselects its item, and leaves the selection of every other item as it is.
pub has-set_item_selected :
    (k id : String) (selected : Bool) (ids : List String)
    → has (set_item_selected k selected ids) id ≡ (if str_eq k id then selected else has ids id)
unfolding set_item_selected
has-set_item_selected k id true ids = ground (arith, has-add k id ids)
has-set_item_selected k id false ids = has-remove k id ids

has-set_of :
    (id : String) (more ids : List String) → has (set_of more ids) id ≡ (has more id || has ids id)
unfolding set_of
has-set_of id [] ids = refl
has-set_of id (k ∷ more) ids = ground (arith, has-set_of id more (add k ids), has-add k id ids)

keep-all : (p : Item → Bool) (items : List Item) → all p items ≡ true → keep p items ≡ items
keep-all p [] h = refl
keep-all p (item ∷ items) h = ground (arith, keep-all p items)

keep-none : (items : List Item) → keep (λ item. has [] item.item_id) items ≡ []
keep-none [] = refl
keep-none (item ∷ items) = keep-none items

all-has :
    (ids : List String) (items : List Item)
    → ((id : String) → has (map (λ item. item.item_id) items) id ≡ true → has ids id ≡ true)
    → all (λ item. has ids item.item_id) items ≡ true
all-has ids [] h = refl
all-has ids (item ∷ items) h = ground (
  arith,
  h item.item_id,
  eq_refl item.item_id,
  all-has ids items (λ id there. h id (ground arith)),
)

-- Selecting all selects every item of the grid, and deselecting all none; the box that stands for all
-- of them is then ticked exactly if there is an item and all were selected.
pub selected_items-toggle_all :
    (items : List Item)
    → (selected_items items (toggle_all true items) ≡ items)
      × (selected_items items (toggle_all false items) ≡ [])
      × (all_selected items (toggle_all true items) ≡ not (length items == 0))
unfolding selected_items all_selected toggle_all
selected_items-toggle_all items =
    let everything =
      keep-all (λ item. has (set_of (map (λ i. i.item_id) items) []) item.item_id) items
        (all-has (set_of (map (λ i. i.item_id) items) []) items
          (λ id there. ground (arith, has-set_of id (map (λ i. i.item_id) items) []))) in
    (everything, keep-none items, ground (arith, everything))
