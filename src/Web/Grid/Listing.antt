-- ===== src/Web/Grid/Listing.antt =====
-- Which items the grid shows.
use dropbox_go_grpc_microser.Prelude.{
  ap, ℕ, suc, max, String, ◌≡◌, refl, Bool, Option, none, some, List, [], ◌∷◌, arith, any, str_eq,
  eq_iff, if◌then◌else◌,
}
use dropbox_go_grpc_microser.Dict.{Dict, lookup, insert, lookup-insert}
use dropbox_go_grpc_microser.Item.{Item}
use dropbox_go_grpc_microser.Web.Grid.{key_of, by_key, concat_pages}

abbrev pub count_at : String → Dict Item → ℕ
count_at key [] = 0
count_at key ((k, item) ∷ entries) =
    if str_eq k key then suc (count_at key entries) else count_at key entries

abbrev pub has_key : String → List Item → Bool
has_key key items = any (λ item. str_eq (key_of item) key) items

-- The last item with the key, and `before` if there is none.
abbrev pub last_with : String → List Item → Option Item → Option Item
last_with key [] before = before
last_with key (item ∷ items) before =
    last_with key items (if str_eq (key_of item) key then some item else before)

count_at-insert :
    (k key : String) (item : Item) (entries : Dict Item)
    → count_at key (insert k item entries)
      ≡ (if str_eq k key then max 1 (count_at key entries) else count_at key entries)
unfolding insert
count_at-insert k key item [] = ground arith
count_at-insert k key item ((j, there) ∷ entries) =
    ground (arith, count_at-insert k key item entries, eq_iff j k, eq_iff j key, eq_iff k key)

count_at-by_key :
    (key : String) (items : List Item) (entries : Dict Item)
    → count_at key (by_key items entries)
      ≡ (if has_key key items then max 1 (count_at key entries) else count_at key entries)
unfolding by_key
count_at-by_key key [] entries = ground arith
count_at-by_key key (item ∷ items) entries = ground (
  arith,
  count_at-by_key key items (insert (key_of item) item entries),
  count_at-insert (key_of item) key item entries,
)

lookup-by_key :
    (key : String) (items : List Item) (entries : Dict Item)
    → lookup key (by_key items entries) ≡ last_with key items (lookup key entries)
unfolding by_key
lookup-by_key key [] entries = refl
lookup-by_key key (item ∷ items) entries =
    rw (lookup-by_key key items (insert (key_of item) item entries))
      (ap (last_with key items) (lookup-insert (key_of item) key item entries))

-- However the pages overlap, the grid has one entry for each key of the pages, and in it the item that
-- came last.
pub by_key-merges :
    (key : String) (pages : List (List Item))
    → (count_at key (by_key (concat_pages pages) [])
        ≡ (if has_key key (concat_pages pages) then 1 else 0))
      × (lookup key (by_key (concat_pages pages) []) ≡ last_with key (concat_pages pages) none)
unfolding lookup
by_key-merges key pages = (
  ground (arith, count_at-by_key key (concat_pages pages) []),
  lookup-by_key key (concat_pages pages) [],
)
