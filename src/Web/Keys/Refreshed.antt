-- ===== src/Web/Keys/Refreshed.antt =====
-- Which queries a mutation refreshes, and which a sign-out leaves.
use dropbox_go_grpc_microser.Prelude.{
  ◌⊎◌, inl, inr, String, ◌≡◌, ◌≢◌, refl, Bool, true, false, List, [], ◌∷◌, ◌++◌, arith,
}
use dropbox_go_grpc_microser.Exec.{ok, err, Reply, Reply-cases}
use dropbox_go_grpc_microser.QueryKey.{
  Key, text, object, updated_at, is_refreshed, IsPartialMatch, differ,
}
use dropbox_go_grpc_microser.Web.Keys.{
  Call, send, mutate, all, folder_items, recent_items, Mutation, create_folder, invalidated,
  log_out,
}

abbrev pub is_creation : Mutation → Bool
is_creation (create_folder name parent_id) = true
is_creation _ = false

module _ (matches : Key → Key → Bool) (h : IsPartialMatch matches) where
  -- Every mutation but the creation of a folder refreshes each listing of the file tree, whatever it is
  -- called with.
  pub is_refreshed-invalidated :
      (m : Mutation) (key : Key)
      → is_creation m ≡ false
      → is_refreshed matches (invalidated m) (all ++ key) ≡ true
  unfolding is_refreshed invalidated
  is_refreshed-invalidated m key other = let reached = h.begins all key in ground arith

  -- So it is for a mutation as a whole, if its call is answered; one that is refused refreshes nothing.
  mutate-refreshes :
      {E : Type 0} (service : Call → Reply E Unit) (m : Mutation) (key : Key)
      → is_creation m ≡ false
      → ((send service m ≡ ok tt) × (is_refreshed matches (mutate service m) (all ++ key) ≡ true))
        ⊎ ((e : E) × (send service m ≡ err e) × (mutate service m ≡ []))
  unfolding mutate
  mutate-refreshes service m key other = elim (Reply-cases (send service m)) [
    | inl (done, answered) ↦
        let all_of_it = is_refreshed-invalidated m key other in inl (answered, ground arith)
    | inr (e, refused) ↦ inr (e, refused, ground arith)
  ]

  -- The creation of a folder refreshes the recent items and the listing of its parent's id, and no
  -- listing under another id, such as that of the root's own id where the parent is given as "".
  pub is_refreshed-create_folder :
      (name parent_id folder_id : String)
      → parent_id ≢ folder_id
      → (is_refreshed matches (invalidated (create_folder name parent_id)) recent_items ≡ true)
        × (is_refreshed matches
              (invalidated (create_folder name parent_id))
              (folder_items parent_id updated_at)
            ≡ true)
        × (is_refreshed matches
              (invalidated (create_folder name parent_id))
              (folder_items folder_id updated_at)
            ≡ false)
  unfolding is_refreshed invalidated
  is_refreshed-create_folder name parent_id folder_id other =
      let recent = h.begins recent_items [] in
      let own = h.begins (folder_items parent_id updated_at) [] in
      let not_folders =
        h.other_text all "folders" "folder-items" (object (("parentId", parent_id) ∷ []) ∷ [])
          (object (("folderId", folder_id) ∷ ("sort", "UPDATED_AT") ∷ []) ∷ [])
          (differ "folders" "folder-items" refl) in
      let not_own =
        h.other_member (all ++ text "folder-items" ∷ []) "folderId" parent_id folder_id
          (("sort", "UPDATED_AT") ∷ []) (("sort", "UPDATED_AT") ∷ []) [] [] other in
      let not_recent =
        h.other_text all "recent-items" "folder-items" []
          (object (("folderId", folder_id) ∷ ("sort", "UPDATED_AT") ∷ []) ∷ [])
          (differ "recent-items" "folder-items" refl) in
      (ground arith, ground arith, ground arith)

  -- After a sign-out the queries of the user who left stay in the cache, all but the profile: the recent
  -- items, whose key names no user, are there for the next one.
  pub log_out-keeps :
      (E : Type 0) (before after : List Key)
      → log_out matches {E = E} (ok tt) (before ++ recent_items ∷ after)
        ≡ log_out matches {E = E} (ok tt) before
          ++ recent_items ∷ log_out matches {E = E} (ok tt) after
  unfolding log_out
  log_out-keeps E [] after =
      let other =
        h.other_text [] "currentUser" "files" [] (text "recent-items" ∷ [])
          (differ "currentUser" "files" refl) in
      ground arith
  log_out-keeps E (k ∷ before) after = ground (arith, log_out-keeps E before after)
