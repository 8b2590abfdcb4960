-- ===== src/Native/Queries.antt =====
-- The queries of the app: native/src/modules/files/api/use-files.ts, with `useCurrentUser` of
-- native/src/modules/auth/api/use-current-user.ts. A query is its hook with the hook's arguments; the
-- services' answers are arguments. What the thumbnails and the labels make of the answers is in
-- `Web.Batches` and `Native.Home`. How long answers stay fresh is left out.
pub mod Pages
use dropbox_go_grpc_microser.Prelude.{
  ℕ, zero, suc, String, Bool, true, false, Option, none, some, List, [], ◌∷◌, ◌++◌, if◌then◌else◌,
}
use dropbox_go_grpc_microser.Exec.{Reply, ok, err}
use dropbox_go_grpc_microser.Paging.{ItemsPage, next_page_param}
use dropbox_go_grpc_microser.Native.Session.{Status}
use dropbox_go_grpc_microser.QueryKey.{Part, Key, text, texts, object, FileSort, sort_text}

pub data Query : Type 0 where
  recent_items root_folder current_user : Query
  folder_items : (folder_id : String) (sort : FileSort) → Query
  -- Of ids without repetitions, sorted.
  thumbnail_urls folder_labels : (ids : List String) → Query

abbrev pub all : Key
all = text "files" ∷ []

unfoldable pub query_key : Query → Key
query_key recent_items = all ++ text "recent-items" ∷ []
query_key root_folder = all ++ text "root-folder" ∷ []
query_key current_user = text "currentUser" ∷ []
query_key (folder_items folder_id sort) =
    all
    ++ (text "folder-items" ∷ object (("folderId", folder_id) ∷ ("sort", sort_text sort) ∷ []) ∷ [])
query_key (thumbnail_urls ids) = text "thumbnail-urls" ∷ texts ids ∷ []
query_key (folder_labels ids) = all ++ (text "folder-labels" ∷ texts ids ∷ [])

abbrev pub is_signed_in : Status → Bool
is_signed_in Status.signed_in = true
is_signed_in _ = false

abbrev pub any_ids : List String → Bool
any_ids [] = false
any_ids (id ∷ ids) = true

-- Whether a query runs.
unfoldable pub enabled : Status → Query → Bool
enabled status (thumbnail_urls ids) = any_ids ids
enabled status (folder_labels ids) = any_ids ids
enabled status _ = is_signed_in status

abbrev pub page_size : ℕ
page_size = 30

-- The request for a page of the recent items or of a folder.
pub record PageRequest : Type 0 where
  pub folder_id : Option String
  pub page_token : String
  pub page_size : ℕ
  pub sort : Option FileSort

abbrev pub recent_request : String → PageRequest
recent_request token = record {
  folder_id = none;
  page_token = token;
  page_size = page_size;
  sort = none;
}

abbrev pub folder_request : String → FileSort → String → PageRequest
folder_request folder_id sort token = record {
  folder_id = some folder_id;
  page_token = token;
  page_size = page_size;
  sort = some sort;
}

-- What an infinite query has loaded, and the error that stopped it.
pub record Loaded (E : Type 0) : Type 0 where
  pub pages : List ItemsPage
  pub requests : List PageRequest
  pub has_next_page : Bool
  pub error : Option E

module _ {E : Type 0} (list : PageRequest → Reply E ItemsPage)
    (request : String → PageRequest) where
  abbrev after_page : String → ItemsPage → Loaded E → Loaded E
  after_page token page rest = record rest {
    pages = page ∷ rest.pages;
    requests = request token ∷ rest.requests;
  }

  -- A screen that asks for the next page as long as there is one, `fuel` times at most.
  unfoldable pub load_from : ℕ → String → Loaded E
  unfolding next_page_param
  load_from zero token = record { pages = []; requests = []; has_next_page = true; error = none }
  load_from (suc fuel) token = elim (list (request token)) [
    | err e ↦ record {
      pages = [];
      requests = request token ∷ [];
      has_next_page = true;
      error = some e;
    }
    | ok page ↦ after_page token page (elim (next_page_param page.next_page_token) [
      | none ↦ record { pages = []; requests = []; has_next_page = false; error = none }
      | some next ↦ load_from fuel next
    ])
  ]

  -- From the `initialPageParam`.
  abbrev pub load : ℕ → Loaded E
  load fuel = load_from fuel ""

-- `useDeleteItem`: the call, by the type of the item, and the filters of what is refetched.
pub data DeleteCall : Type 0 where
  delete_folder delete_file : (id : String) → DeleteCall

unfoldable pub delete_item :
    {E : Type 0} → (DeleteCall → Reply E Unit) → Bool → String → Reply E (List Key)
delete_item service is_folder id =
    let call = if is_folder then delete_folder id else delete_file id in
    elim (service call) [ err e ↦ err e | ok done ↦ ok (all ∷ []) ]
