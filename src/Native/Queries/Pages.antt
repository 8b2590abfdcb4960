-- ===== src/Native/Queries/Pages.antt =====
-- What the queries load, when they run, and which a deletion refetches.
use dropbox_go_grpc_microser.Prelude.{
  ℕ, zero, suc, ◌≤◌, String, ◌≡◌, ◌≢◌, ◌⊎◌, inl, inr, refl, Bool, true, false, none, List, [], ◌∷◌,
  ◌++◌, arith, append-nil, length,
}
use dropbox_go_grpc_microser.Exec.{Reply, ok}
use dropbox_go_grpc_microser.Item.{Item}
use dropbox_go_grpc_microser.Native.Session.{Status}
use dropbox_go_grpc_microser.Paging.{ItemsPage, items_of, next_page_param, Serves, last, more}
use dropbox_go_grpc_microser.QueryKey.{Key, texts, IsPartialMatch, is_refreshed, differ}
use dropbox_go_grpc_microser.Native.Queries.{
  Query, recent_items, root_folder, current_user, folder_items, thumbnail_urls, folder_labels,
  query_key, enabled, ItemsPage, PageRequest, load_from, DeleteCall, delete_item, all,
}

module _ {E : Type 0} (list : PageRequest → Reply E ItemsPage)
    (request : String → PageRequest) where
  -- A screen that asks for pages as long as there is a next one loads the listing, each item where the
  -- service lists it, in as many requests as the listing has pages; and then there is no next page.
  pub load_from-Serves :
      (fuel : ℕ) {token : String} {pages : ℕ} {items : List Item}
      → Serves (λ t. list (request t)) token pages items
      → pages ≤ fuel
      → (items_of (load_from list request fuel token).pages ≡ items)
        × (length (load_from list request fuel token).requests ≡ pages)
        × ((load_from list request fuel token).has_next_page ≡ false)
        × ((load_from list request fuel token).error ≡ none)
  unfolding load_from next_page_param
  load_from-Serves zero (last token items answered) enough = absurd (omega arith)
  load_from-Serves zero (more token next pages items rest answered named s) enough =
      absurd (omega arith)
  load_from-Serves (suc fuel) (last token items answered) enough =
      (ground (arith, append-nil items), ground arith, ground arith, ground arith)
  load_from-Serves (suc fuel) (more token next pages items rest answered named s) enough =
      let (all_items, sent, ended, fine) = load_from-Serves fuel s (omega arith) in
      (ground arith, ground arith, ground arith, ground arith)

-- Without a session a query runs only for ids that a screen already has.
enabled-signed_out :
    (status : Status) (q : Query)
    → status ≢ Status.signed_in
    → enabled status q ≡ true
    → (ids : List String) × (ids ≢ []) × ((q ≡ thumbnail_urls ids) ⊎ (q ≡ folder_labels ids))
unfolding enabled
enabled-signed_out status recent_items out runs = absurd (ground arith)
enabled-signed_out status root_folder out runs = absurd (ground arith)
enabled-signed_out status current_user out runs = absurd (ground arith)
enabled-signed_out status (folder_items folder_id sort) out runs = absurd (ground arith)
enabled-signed_out status (thumbnail_urls ids) out runs = (ids, λ e. ground arith, inl refl)
enabled-signed_out status (folder_labels ids) out runs = (ids, λ e. ground arith, inr refl)

-- A deletion that the service carries out refetches every listing, and neither the profile nor the
-- thumbnails.
module _ {E : Type 0} (matches : Key → Key → Bool) (h : IsPartialMatch matches) where
  delete_item-refreshes :
      (service : DeleteCall → Reply E Unit) (is_folder : Bool) (id : String) (filters : List Key)
      → delete_item service is_folder id ≡ ok filters
      → ((rest : Key) → is_refreshed matches filters (all ++ rest) ≡ true)
        × (is_refreshed matches filters (query_key current_user) ≡ false)
        × ((ids : List String)
            → is_refreshed matches filters (query_key (thumbnail_urls ids)) ≡ false)
  unfolding delete_item is_refreshed query_key
  delete_item-refreshes service is_folder id filters done =
      let profile =
        h.other_text [] "files" "currentUser" [] [] (differ "files" "currentUser" refl) in
      (
        λ rest. ground (arith, h.begins all rest),
        ground arith,
        λ ids.
            let thumbnails =
              h.other_text [] "files" "thumbnail-urls" [] (texts ids ∷ [])
                (differ "files" "thumbnail-urls" refl) in
            ground arith,
      )
