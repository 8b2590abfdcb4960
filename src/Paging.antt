-- ===== src/Paging.antt =====
-- A listing in pages, as the infinite queries of both apps load it (modules/files/api/use-files.ts of
-- web/src and native/src): each page names the token of the next one, or "".
use dropbox_go_grpc_microser.Prelude.{
  ℕ, suc, String, ◌≡◌, true, Option, none, some, List, [], ◌∷◌, ◌++◌, truthy, if◌then◌else◌,
}
use dropbox_go_grpc_microser.Exec.{Reply, ok}
use dropbox_go_grpc_microser.Item.{Item}

pub record ItemsPage : Type 0 where
  pub items : List Item
  pub next_page_token : String

-- `lastPage.nextPageToken || undefined`
unfoldable pub next_page_param : String → Option String
next_page_param token = if truthy token then some token else none

abbrev pub items_of : List ItemsPage → List Item
items_of [] = []
items_of (p ∷ pages) = p.items ++ items_of pages

-- The service answers from a token on with a listing, in so many pages.
pub data Serves {E : Type 0} (list : String → Reply E ItemsPage)
    : String → ℕ → List Item → Type 0 where
  last :
      (token : String) (items : List Item)
      → list token ≡ ok (record { items = items; next_page_token = "" })
      → Serves list token 1 items
  more :
      (token next : String) (pages : ℕ) (items rest : List Item)
      → list token ≡ ok (record { items = items; next_page_token = next })
      → truthy next ≡ true
      → Serves list next pages rest
      → Serves list token (suc pages) (items ++ rest)
