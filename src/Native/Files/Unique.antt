-- ===== src/Native/Files/Unique.antt =====
-- Which items are listed.
use dropbox_go_grpc_microser.Prelude.{
  ℕ, suc, String, ◌≡◌, Bool, List, [], ◌∷◌, arith, any, str_eq, eq_iff, Bool-cases, inl, inr,
  if◌then◌else◌,
}
use dropbox_go_grpc_microser.Item.{Item}
use dropbox_go_grpc_microser.Native.Files.{
  key_of, seen_before, unique_from, concat_pages, unique_items,
}

-- How many items have a key.
abbrev pub count_key : String → List Item → ℕ
count_key key [] = 0
count_key key (item ∷ items) =
    if str_eq (key_of item) key then suc (count_key key items) else count_key key items

abbrev pub has_key : String → List Item → Bool
has_key key items = any (λ item. str_eq (key_of item) key) items

count_key-unique_from :
    (key : String) (seen : List String) (items : List Item)
    → count_key key (unique_from seen items)
      ≡ (if seen_before seen key then 0 else if has_key key items then 1 else 0)
unfolding unique_from
count_key-unique_from key seen [] = ground arith
count_key-unique_from key seen (item ∷ items) = elim (Bool-cases (seen_before seen (key_of item))) [
  | inl old ↦ elim (Bool-cases (str_eq (key_of item) key)) [
    | inl same ↦
        let e : key_of item ≡ key = (eq_iff (key_of item) key).0 same in
        ground (arith, count_key-unique_from key seen items)
    | inr other ↦ ground (arith, count_key-unique_from key seen items)
  ]
  | inr new ↦ elim (Bool-cases (str_eq (key_of item) key)) [
    | inl same ↦
        let e : key_of item ≡ key = (eq_iff (key_of item) key).0 same in
        ground (arith, count_key-unique_from key (key_of item ∷ seen) items)
    | inr other ↦ ground (arith, count_key-unique_from key (key_of item ∷ seen) items)
  ]
]

-- However the pages overlap, an item's key is listed once if some page has it, and else not at all.
pub count_key-unique_items :
    (key : String) (pages : List (List Item))
    → count_key key (unique_items pages) ≡ (if has_key key (concat_pages pages) then 1 else 0)
unfolding unique_items
count_key-unique_items key pages = ground (arith, count_key-unique_from key [] (concat_pages pages))
