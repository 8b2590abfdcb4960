-- ===== src/Tests/Scrolled.antt =====
-- A listing of two pages as it is scrolled: the first page is loaded, and the sentinel comes into view.
use dropbox_go_grpc_microser.Prelude.{
  String, ◌≡◌, ◌⊎◌, refl, List, [], ◌∷◌, ◌++◌, arith, length, suc, true, str_eq, if◌then◌else◌,
}
use dropbox_go_grpc_microser.Exec.{Reply, ok, err}
use dropbox_go_grpc_microser.Rpc.{Code}
use dropbox_go_grpc_microser.Item.{Item, file, folder}
use dropbox_go_grpc_microser.Paging
use dropbox_go_grpc_microser.Paging.{ItemsPage, items_of, Serves, next_page_param}
use dropbox_go_grpc_microser.Web.Scroll.{Scroll, mount, commit, intersect, answer}
use dropbox_go_grpc_microser.Web.Scroll.Order
use dropbox_go_grpc_microser.Web.Scroll.Order.{Reach-grows}

abbrev note : Item
note = record {
  item_type = "file";
  item_id = "n";
  folder_id = "r";
  details = file (record { file_id = "n"; filename = "n.txt" });
}

abbrev photos : Item
photos = record {
  item_type = "folder";
  item_id = "p";
  folder_id = "r";
  details = folder (record { folder_id = "p"; name = "Photos" });
}

abbrev first_page : ItemsPage
first_page = record { items = note ∷ []; next_page_token = "p2" }

abbrev second_page : ItemsPage
second_page = record { items = photos ∷ []; next_page_token = "" }

abbrev list_folder : String → Reply Code ItemsPage
list_folder token =
    if str_eq token ""
    then ok first_page
    else if str_eq token "p2"
    then ok second_page
    else err Code.invalid_argument

abbrev served : Serves list_folder "" 2 (note ∷ photos ∷ [])
served =
    Paging.more "" "p2" 1 (note ∷ []) (photos ∷ []) refl refl (Paging.last "p2" (photos ∷ []) refl)

abbrev one_page : Scroll Code
one_page = answer list_folder mount

Reach-grows_example :
    (rest : List Item) × (items_of one_page.pages ++ rest ≡ note ∷ photos ∷ [])
    × ((rest ≡ [])
        ⊎ (length (answer list_folder (intersect true (commit one_page))).pages
            ≡ suc (length one_page.pages)))
unfolding answer next_page_param
Reach-grows_example =
    Reach-grows list_folder {s = one_page} served (Order.next Order.here (Order.answers mount)) refl
      (omega arith)
