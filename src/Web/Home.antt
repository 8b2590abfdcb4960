-- ===== src/Web/Home.antt =====
-- The recent items of web/src/modules/home/views/home-view.tsx. Items of several pages are taken once, by
-- the loop that native/src/modules/files/views/files-view.tsx has too.
pub mod Asked
use dropbox_go_grpc_microser.Prelude.{
  ℕ, String, Bool, true, false, Option, none, some, List, [], ◌∷◌, map, keep, length, ◌==◌,
  if◌then◌else◌,
}
use dropbox_go_grpc_microser.Item.{Item, is_file}
use dropbox_go_grpc_microser.Native.Files.{unique_items, file_ids}
use dropbox_go_grpc_microser.Web.Batches.Ids.{ids_of}

abbrev pages_of : Option (List (List Item)) → List (List Item)
pages_of none = []
pages_of (some pages) = pages

-- `items`, of the pages that are loaded.
unfoldable pub items_of : Option (List (List Item)) → List Item
items_of loaded = unique_items (pages_of loaded)

-- The ids that the query of `useThumbnailUrls` asks for.
unfoldable pub asked_ids : Option (List (List Item)) → List String
unfolding items_of
asked_ids loaded = ids_of (file_ids (items_of loaded))

pub data Shown : Type 0 where
  skeletons unable_to_load no_recent_items : Shown
  -- The grid, and whether its count is followed by "items".
  grid : List Item → (plural : Bool) → Shown

abbrev listed : List Item → Shown
listed [] = no_recent_items
listed (item ∷ items) = grid (item ∷ items) (if length (item ∷ items) == 1 then false else true)

unfoldable pub shown : (is_loading is_error : Bool) → Option (List (List Item)) → Shown
unfolding items_of
shown is_loading is_error loaded =
    if is_loading then skeletons else if is_error then unable_to_load else listed (items_of loaded)
