-- ===== src/Web/Keys.antt =====
-- The query keys of the web app and which of them a mutation invalidates: web/src/modules/files/api/
-- use-files.ts, with the keys of use-content-url.ts and use-edit-session.ts beside it and of
-- components/url-preview.tsx, and web/src/modules/auth/api, use-current-user.ts and use-logout.ts. Which
-- keys a filter matches is up to the query library, and an argument.
pub mod Refreshed
use dropbox_go_grpc_microser.Prelude.{
  String, map, Bool, true, false, not, List, [], ◌∷◌, ◌++◌, any, keep, if◌then◌else◌,
}
use dropbox_go_grpc_microser.Text.{trim}
use dropbox_go_grpc_microser.Web.Move.{ItemType, file, folder}
use dropbox_go_grpc_microser.QueryKey.{
  Part, Key, text, texts, object, FileSort, sort_text, updated_at,
}
use dropbox_go_grpc_microser.Exec.{Reply, ok, err}

-- fileQueryKeys
abbrev pub all : Key
all = text "files" ∷ []

abbrev pub trash : Key
trash = all ++ text "trash" ∷ []

abbrev pub folders : Key
folders = all ++ text "folders" ∷ []

abbrev pub folders_by_parent : String → Key
folders_by_parent parent_id = folders ++ object (("parentId", parent_id) ∷ []) ∷ []

abbrev pub folder_items : String → FileSort → Key
folder_items folder_id sort =
    all
    ++ (text "folder-items" ∷ object (("folderId", folder_id) ∷ ("sort", sort_text sort) ∷ []) ∷ [])

abbrev pub breadcrumbs : String → Key
breadcrumbs folder_id = all ++ (text "breadcrumbs" ∷ object (("folderId", folder_id) ∷ []) ∷ [])

abbrev pub recent_items : Key
recent_items = all ++ text "recent-items" ∷ []

-- The keys that stand outside of it.
abbrev pub thumbnail_urls : List String → Key
thumbnail_urls ids = text "thumbnail-urls" ∷ texts ids ∷ []

abbrev pub content_url : String → String → Key
content_url file_id disposition = text "content-url" ∷ text file_id ∷ text disposition ∷ []

abbrev pub preview_file : String → Key
preview_file file_id = text "preview-file" ∷ text file_id ∷ []

abbrev pub edit_session : String → Key
edit_session file_id = text "edit-session" ∷ text file_id ∷ []

abbrev pub edit_file : String → Key
edit_file file_id = text "edit-file" ∷ text file_id ∷ []

abbrev pub current_user_key : Key
current_user_key = text "currentUser" ∷ []

-- The mutations of use-files.ts; an input without a `parentId` has "".
pub data Mutation : Type 0 where
  rename_folder rename_file : (id new_name : String) → Mutation
  delete_folder delete_file restore_file restore_folder : (id : String) → Mutation
  move_items : (items : List (ItemType × String)) (target_folder_id : String) → Mutation
  move_file move_folder : (item_id target_folder_id : String) → Mutation
  permanently_delete_file permanently_delete_folder : (id : String) → Mutation
  create_folder : (name parent_id : String) → Mutation

-- A call of the metadata services, by the name of its method, with the arguments in the order of the
-- source.
pub record Call : Type 0 where
  pub method : String
  pub arguments : List String

abbrev pub call : String → List String → Call
call method arguments = record { method = method; arguments = arguments }

abbrev move_call : String → ItemType × String → Call
move_call target (folder, id) = call "moveFolder" (id ∷ target ∷ [])
move_call target (file, id) = call "moveFile" (id ∷ target ∷ [])

-- What `mutationFn` sends.
unfoldable pub calls : Mutation → List Call
calls (rename_folder id new_name) = call "renameFolder" (id ∷ trim new_name ∷ []) ∷ []
calls (rename_file id new_name) = call "renameFile" (id ∷ trim new_name ∷ []) ∷ []
calls (delete_folder id) = call "deleteFolder" (id ∷ []) ∷ []
calls (delete_file id) = call "deleteFile" (id ∷ []) ∷ []
calls (restore_file id) = call "restoreFile" (id ∷ []) ∷ []
calls (restore_folder id) = call "restoreFolder" (id ∷ []) ∷ []
calls (move_items items target) = map (move_call target) items
calls (move_file id target) = call "moveFile" (id ∷ target ∷ []) ∷ []
calls (move_folder id target) = call "moveFolder" (id ∷ target ∷ []) ∷ []
calls (permanently_delete_file id) = call "permanentlyDeleteFile" (id ∷ []) ∷ []
calls (permanently_delete_folder id) = call "permanentlyDeleteFolder" (id ∷ []) ∷ []
calls (create_folder name parent_id) = call "createFolder" (parent_id ∷ trim name ∷ []) ∷ []

-- What `onSuccess` invalidates, in order.
unfoldable pub invalidated : Mutation → List Key
invalidated (create_folder name parent_id) =
    folders_by_parent parent_id ∷ folder_items parent_id updated_at ∷ recent_items ∷ []
invalidated _ = all ∷ []

-- The first error of the calls.
abbrev first_error : {E : Type 0} → List (Reply E Unit) → Reply E Unit
first_error [] = ok tt
first_error (err e ∷ replies) = err e
first_error (ok done ∷ replies) = first_error replies

-- `mutationFn`: that of `useMoveItems` settles all its calls and never rejects.
unfoldable pub send : {E : Type 0} → (Call → Reply E Unit) → Mutation → Reply E Unit
unfolding calls
send service (move_items items target) = ok tt
send service m = first_error (map service (calls m))

-- A mutation, and what it invalidates: nothing where it rejects.
unfoldable pub mutate : {E : Type 0} → (Call → Reply E Unit) → Mutation → List Key
unfolding send invalidated
mutate service m = elim (send service m) [ err e ↦ [] | ok done ↦ invalidated m ]

-- What the edit page invalidates after a save.
unfoldable pub invalidated_by_save : String → List Key
invalidated_by_save file_id =
    (text "content-url" ∷ text file_id ∷ []) ∷ (text "thumbnail-urls" ∷ []) ∷ all ∷ []

module _ (matches : Key → Key → Bool) where
  -- queryClient.removeQueries, on the keys of a cache.
  unfoldable pub remove_queries : Key → List Key → List Key
  remove_queries filter cache = keep (λ key. not (matches filter key)) cache

  -- `useLogout`: the keys that stay in the cache.
  unfoldable pub log_out : {E : Type 0} → Reply E Unit → List Key → List Key
  unfolding remove_queries
  log_out (err e) cache = cache
  log_out (ok done) cache = remove_queries current_user_key cache
