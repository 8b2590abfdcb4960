-- ===== src/Native/Home/Decks.antt =====
-- The two decks of the home screen, and the labels.
use dropbox_go_grpc_microser.Prelude.{
  ◌+◌, ◌≤◌, ◌≡◌, String, some, List, [], ◌∷◌, ◌++◌, arith, length, length-take, length-drop,
  take-append-drop, any, str_eq, eq_iff, Option, if◌then◌else◌, Bool-cases, inl, inr,
}
use dropbox_go_grpc_microser.Exec.{Reply, ok, err, Reply-cases}
use dropbox_go_grpc_microser.Dict.{Dict, lookup, insert, lookup-insert}
use dropbox_go_grpc_microser.Item.{Item}
use dropbox_go_grpc_microser.Native.Files.{unique_items}
use dropbox_go_grpc_microser.Native.Home.{
  split_at, lead_items, trail_items, label_of, folder_labels,
}

-- The two decks together are the recent items, in order; the first deck has as many as the second or
-- one more.
pub lead_items-trail_items :
    (pages : List (List Item))
    → (lead_items pages ++ trail_items pages ≡ unique_items pages)
      × (length (trail_items pages) ≤ length (lead_items pages))
      × (length (lead_items pages) ≤ length (trail_items pages) + 1)
unfolding lead_items trail_items
lead_items-trail_items pages =
    let items = unique_items pages in
    (
      take-append-drop (split_at items) items,
      ground (arith, length-take (split_at items) items, length-drop (split_at items) items),
      ground (arith, length-take (split_at items) items, length-drop (split_at items) items),
    )

-- The label of a folder after its breadcrumbs were asked for.
abbrev pub answered :
    {E : Type 0} → Reply E (List String) → Option (List String) → Option (List String)
answered (ok names) old = some (label_of names)
answered (err e) old = old

-- A folder has a label exactly if it is among those that were asked for and its breadcrumbs were
-- answered; a folder that fails leaves the labels of the others as they are.
pub lookup-folder_labels :
    {E : Type 0} (get_breadcrumbs : String → Reply E (List String)) (ids : List String)
    (id : String) (labels : Dict (List String))
    → lookup id (folder_labels get_breadcrumbs ids labels) ≡ (
        if any (λ k. str_eq k id) ids
        then answered (get_breadcrumbs id) (lookup id labels)
        else lookup id labels)
unfolding folder_labels
lookup-folder_labels get [] id labels = ground arith
lookup-folder_labels get (k ∷ ids) id labels = elim (Reply-cases (get k)) [
  | inr (e, failed) ↦ elim (Bool-cases (str_eq k id)) [
    | inl same ↦
        let here : k ≡ id = (eq_iff k id).0 same in
        ground (arith, lookup-folder_labels get ids id labels)
    | inr other ↦ ground (arith, lookup-folder_labels get ids id labels)
  ]
  | inl (names, found) ↦ elim (Bool-cases (str_eq k id)) [
    | inl same ↦
        let here : k ≡ id = (eq_iff k id).0 same in
        ground (
          arith,
          lookup-folder_labels get ids id (insert k (label_of names) labels),
          lookup-insert k id (label_of names) labels,
        )
    | inr other ↦ ground (
      arith,
      lookup-folder_labels get ids id (insert k (label_of names) labels),
      lookup-insert k id (label_of names) labels,
    )
  ]
]
