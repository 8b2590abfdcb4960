-- ===== src/Web/Home/Asked.antt =====
-- Which thumbnails the grid asks for.
use dropbox_go_grpc_microser.Prelude.{
  String, ◌≡◌, true, ◌&&◌, Bool, some, List, [], ◌∷◌, any, arith, truthy, str_eq, Bool-cases, inl,
  inr,
}
use dropbox_go_grpc_microser.Item.{Item, is_file}
use dropbox_go_grpc_microser.Native.Files.{
  key_of, seen_before, unique_from, concat_pages, unique_items, file_ids,
}
use dropbox_go_grpc_microser.Web.Batches.Ids.{has}
use dropbox_go_grpc_microser.Web.Batches.Ids.Canonical.{IsAscending, ids_of-IsAscending, has-ids_of}
use dropbox_go_grpc_microser.Web.Home.{items_of, asked_ids}

abbrev pub has_file : String → List Item → Bool
has_file id items = any (λ item. is_file item && str_eq item.item_id id) items

has-file_ids : (id : String) (items : List Item) → has id (file_ids items) ≡ has_file id items
unfolding file_ids
has-file_ids id [] = ground arith
has-file_ids id (item ∷ items) = elim (Bool-cases (is_file item)) [
  | inl file ↦ ground (arith, has-file_ids id items)
  | inr folder ↦ ground (arith, has-file_ids id items)
]

has_file-unique_from :
    (id : String) (seen : List String) (items : List Item)
    → has_file id (unique_from seen items) ≡ true
    → has_file id items ≡ true
unfolding unique_from
has_file-unique_from id seen [] h = h
has_file-unique_from id seen (item ∷ items) h = elim (Bool-cases (seen_before seen (key_of item))) [
  | inl old ↦ ground (arith, has_file-unique_from id seen items)
  | inr new ↦ ground (arith, has_file-unique_from id (key_of item ∷ seen) items)
]

-- The query for the thumbnails asks for ids that are not empty, each once and in ascending order, and for
-- no other than those of files on the pages.
pub asked_ids-IsAscending :
    (pages : List (List Item))
    → IsAscending (asked_ids (some pages))
      × ((id : String)
          → has id (asked_ids (some pages)) ≡ true
          → (truthy id ≡ true) × (has_file id (concat_pages pages) ≡ true))
unfolding asked_ids items_of unique_items
asked_ids-IsAscending pages = (
  ids_of-IsAscending (file_ids (unique_items pages)),
  λ id h.
      let both = has-ids_of id (file_ids (unique_items pages)) in
      let listed = has-file_ids id (unique_items pages) in
      (ground arith, has_file-unique_from id [] (concat_pages pages) (ground arith)),
)
