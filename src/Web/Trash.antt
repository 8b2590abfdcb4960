-- ===== src/Web/Trash.antt =====
-- The trash of web/src/modules/files/components/deleted-files-view.tsx: its items, the selection, and
-- what is restored and deleted for good. The answers of the mutations are arguments.
pub mod Reports
use Prim.Native.String
use dropbox_go_grpc_microser.Prelude.{
  ℕ, String, Bool, true, false, not, Option, none, some, List, [], ◌∷◌, ◌++◌, map, keep, length,
  ltb, ◌==◌, ◌&&◌, truthy, if◌then◌else◌,
}
use dropbox_go_grpc_microser.Exec.{Reply, ok, err}
use dropbox_go_grpc_microser.Web.Grid.{has, add, remove, set_of, all_ok}

pub data Kind : Type 0 where
  file_kind folder_kind : Kind

pub record DeletedItem : Type 0 where
  pub id : String
  pub name : String
  pub deleted_at : String
  pub kind : Kind

-- What a page holds of a file or of a folder.
pub record Entry : Type 0 where
  pub id : String
  pub name : String
  pub deleted_at : String

pub record Page : Type 0 where
  pub files : List Entry
  pub folders : List Entry

abbrev kind_text : Kind → String
kind_text file_kind = "file"
kind_text folder_kind = "folder"

-- `${item.kind}:${item.id}`
abbrev pub item_key : DeletedItem → String
item_key item = String.◌++◌ (kind_text item.kind) (String.◌++◌ ":" item.id)

abbrev item_of : Kind → String → Entry → DeletedItem
item_of kind unnamed e = record {
  id = e.id;
  name = if truthy e.name then e.name else unnamed;
  deleted_at = e.deleted_at;
  kind = kind;
}

unfoldable pub items_of : List Page → List DeletedItem
items_of [] = []
items_of (page ∷ pages) =
    map (item_of file_kind "Unnamed file") page.files
    ++ (map (item_of folder_kind "Unnamed folder") page.folders ++ items_of pages)

unfoldable pub selected_items : List DeletedItem → List String → List DeletedItem
selected_items items keys = keep (λ item. has keys (item_key item)) items

unfoldable pub all_selected : List DeletedItem → List String → Bool
unfolding selected_items
all_selected items keys = ltb 0 (length items) && length (selected_items items keys) == length items

unfoldable pub set_selected : DeletedItem → Bool → List String → List String
set_selected item true keys = add (item_key item) keys
set_selected item false keys = remove (item_key item) keys

unfoldable pub toggle_all : Bool → List DeletedItem → List String
toggle_all true items = set_of (map item_key items) []
toggle_all false items = []

-- What is sent: an id to the service of its kind.
abbrev pub Call : Type 0
Call = Kind × String

abbrev pub call_of : DeletedItem → Call
call_of item = (item.kind, item.id)

-- `restoreSelected`: the calls, and the selection afterwards, which stays if one of them rejects.
unfoldable pub restore_selected :
    {E : Type 0} → (Call → Reply E Unit) → List DeletedItem → List String → List Call × List String
unfolding selected_items
restore_selected answer items keys =
    let calls = map call_of (selected_items items keys) in
    (calls, if all_ok (map answer calls) then [] else keys)

abbrev pub is_file : DeletedItem → Bool
is_file item = elim item.kind [ file_kind ↦ true | folder_kind ↦ false ]

-- What a deletion is answered: a folder's has the number of files that were not queued.
pub data Outcome (E : Type 0) : Type 0 where
  file_deleted : Outcome E
  folder_deleted : (failed_count : ℕ) → Outcome E
  rejected : E → Outcome E

-- Whether the target's `run` rejects.
abbrev pub fails : {E : Type 0} → Outcome E → Bool
fails file_deleted = false
fails (folder_deleted failed_count) = ltb 0 failed_count
fails (rejected e) = true

-- The files first, and then the folders.
abbrev pub targets_of : List DeletedItem → List DeletedItem
targets_of selected = keep is_file selected ++ keep (λ item. not (is_file item)) selected

pub record Deleted : Type 0 where
  pub calls : List Call
  pub keys : List String
  -- The names in the alert, if there is one.
  pub alert : List String

-- `permanentlyDeleteSelected`, with the answer of the confirmation.
unfoldable pub permanently_delete_selected :
    {E : Type 0} → (Call → Outcome E) → Bool → List DeletedItem → List String → Deleted
unfolding selected_items
permanently_delete_selected answer confirmed items keys =
    elim (targets_of (selected_items items keys)) [
      | [] ↦ record { calls = []; keys = keys; alert = [] }
      | t ∷ ts ↦ elim confirmed [
        | false ↦ record { calls = []; keys = keys; alert = [] }
        | true ↦ record {
          calls = map call_of (t ∷ ts);
          keys = [];
          alert = map (λ item. item.name) (keep (λ item. fails (answer (call_of item))) (t ∷ ts));
        }
      ]
    ]
