-- ===== src/Item.antt =====
-- An entry of a folder listing, as both apps read it from the generated `Item`: the type that stands in
-- its key, and its details, which are of a folder, of a file, or missing.
use dropbox_go_grpc_microser.Prelude.{String, Bool, true, false}

pub record FileDetails : Type 0 where
  pub file_id : String
  pub filename : String

pub record FolderDetails : Type 0 where
  pub folder_id : String
  pub name : String

pub data Details : Type 0 where
  file : FileDetails → Details
  folder : FolderDetails → Details
  missing : Details

pub record Item : Type 0 where
  pub item_type : String
  pub item_id : String
  pub folder_id : String
  pub details : Details

-- item.details.case === "file"
abbrev pub is_file : Item → Bool
is_file item = elim item.details [ file f ↦ true | folder f ↦ false | missing ↦ false ]

abbrev pub is_folder : Item → Bool
is_folder item = elim item.details [ file f ↦ false | folder f ↦ true | missing ↦ false ]
