-- ===== src/Native/Files/Browse.antt =====
-- The stack of folders and the selection.
use dropbox_go_grpc_microser.Prelude.{
  String, ◌≡◌, refl, Bool, true, false, not, Option, none, some, [], arith, map, str_eq, eq_iff,
  Option-cases, inl, inr, if◌then◌else◌,
}
use dropbox_go_grpc_microser.Dict.{lookup, lookup-insert, lookup-erase}
use dropbox_go_grpc_microser.Item.{Item, folder, FolderDetails}
use dropbox_go_grpc_microser.Native.Files.{
  FilesView, init, toggle_selected, open_item, go_up, cycle_sort, start_selecting, cancel_selecting,
  switch_grid, show_more, open_from_alert, run_delete, deletion_of,
}

-- Going up from a folder that was opened leads back: the view is as it was before.
pub go_up-open_item :
    (item : Item) (f : FolderDetails) (v : FilesView)
    → v.selecting ≡ false
    → item.details ≡ folder f
    → go_up (open_item item v) ≡ v
unfolding go_up open_item
go_up-open_item item f v browsing here = ground arith

abbrev pub is_some : Option Item → Bool
is_some none = false
is_some (some item) = true

-- A press on an item turns its selection around, and leaves that of every other item as it is.
pub is_selected-toggle_selected :
    (item : Item) (id : String) (v : FilesView)
    → is_some (lookup id (toggle_selected item v).selected) ≡ (
        if str_eq item.item_id id
        then not (is_some (lookup id v.selected))
        else is_some (lookup id v.selected))
unfolding toggle_selected
is_selected-toggle_selected item id v = elim (Option-cases (lookup item.item_id v.selected)) [
  | inl absent ↦
      ground (arith, eq_iff item.item_id id, lookup-insert item.item_id id item v.selected)
  | inr (there, held) ↦
      ground (arith, eq_iff item.item_id id, lookup-erase item.item_id id v.selected)
]

-- What the user does, in any order.
pub data Step : FilesView → FilesView → Type 0 where
  opens : (item : Item) (v : FilesView) → Step v (open_item item v)
  goes_up : (v : FilesView) → Step v (go_up v)
  sorts : (v : FilesView) → Step v (cycle_sort v)
  starts : (v : FilesView) → Step v (start_selecting v)
  cancels : (v : FilesView) → Step v (cancel_selecting v)
  switches : (v : FilesView) → Step v (switch_grid v)
  mores : (item : Item) (v : FilesView) → Step v (show_more item v)
  opens_alert : (item_id name : String) (v : FilesView) → Step v (open_from_alert item_id name v)
  deletes : (v : FilesView) → Step v (run_delete v).1

pub data Reach : FilesView → Type 0 where
  here : Reach init
  next : {v w : FilesView} → Reach v → Step v w → Reach w

abbrev pub IsTidy : FilesView → Type 0
IsTidy v = v.selecting ≡ false → v.selected ≡ []

Step-IsTidy : {v w : FilesView} → Step v w → IsTidy v → IsTidy w
unfolding open_item toggle_selected go_up cycle_sort start_selecting cancel_selecting switch_grid
    run_delete show_more open_from_alert
Step-IsTidy (opens item v) h = λ browsing. ground (arith, h)
Step-IsTidy (goes_up v) h = λ browsing. ground (arith, h)
Step-IsTidy (sorts v) h = λ browsing. ground (arith, h)
Step-IsTidy (starts v) h = λ browsing. refl
Step-IsTidy (cancels v) h = λ browsing. refl
Step-IsTidy (switches v) h = λ browsing. ground (arith, h)
Step-IsTidy (mores item v) h = λ browsing. ground (arith, h)
Step-IsTidy (opens_alert item_id name v) h = λ browsing. ground (arith, h)
Step-IsTidy (deletes v) h = λ browsing. ground (arith, h)

-- Outside the selection mode nothing is selected, so nothing can be deleted: a confirmed deletion sends
-- nothing.
pub Reach-deletes_nothing :
    {v : FilesView} → Reach v → v.selecting ≡ false → (v.selected ≡ []) × ((run_delete v).0 ≡ [])
unfolding run_delete
Reach-deletes_nothing r browsing = let tidy = all_tidy r browsing in (tidy, ground arith)
  where
    all_tidy : {v : FilesView} → Reach v → IsTidy v
    all_tidy here = λ h. refl
    all_tidy (next r st) = Step-IsTidy st (all_tidy r)

-- A confirmed deletion sends one request for every selected item, and ends the selection.
pub run_delete-sends :
    (v : FilesView)
    → ((run_delete v).0 ≡ map (λ entry. deletion_of entry.1) v.selected)
      × ((run_delete v).1.selected ≡ [])
unfolding run_delete cancel_selecting
run_delete-sends v = ground arith
