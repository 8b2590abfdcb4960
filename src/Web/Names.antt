-- ===== src/Web/Names.antt =====
-- Names that the user gives: the rename dialog of web/src/modules/files/components/
-- rename-file-dialog.tsx, the dialog for a new folder of create-folder-dialog.tsx beside it, and the
-- prompt for a folder's name of web/src/modules/files/views/file-view.tsx. What zod does to a text is
-- read off its schema: it is trimmed, and the checks follow. What is sent is an entry of `requests`,
-- newest last; the services' answers are arguments.
pub mod Sent
use dropbox_go_grpc_microser.Prelude.{
  ℕ, String, Bool, true, false, not, ◌&&◌, ◌||◌, Option, none, some, List, [], ◌∷◌, ◌++◌, any,
  length, ltb, leb, ◌==◌, str_eq, truthy, if◌then◌else◌,
}
use dropbox_go_grpc_microser.Exec.{Reply, ok, err}
use dropbox_go_grpc_microser.Text.{codes, trim}

-- `/[/\\]/.test(value)`
abbrev pub has_separator : List ℕ → Bool
has_separator s = any (λ c. c == b'/' || c == b'\\') s

-- What `renameFileSchema` makes of a text: the name, or none where a check fails.
unfoldable pub parse_file_name : String → Option String
parse_file_name text =
    let name = trim text in
    if leb 1 (length (codes name))
      && leb (length (codes name)) 100
      && not (has_separator (codes name))
      && not (str_eq name ".")
      && not (str_eq name "..")
    then some name
    else none

-- `createFolderSchema`
unfoldable pub parse_folder_name : String → Option String
parse_folder_name text =
    let name = trim text in
    if leb 1 (length (codes name)) && leb (length (codes name)) 100 then some name else none

pub record Dialog (E : Type 0) : Type 0 where
  pub is_open : Bool
  -- The field's text, and the error of the server that the form shows.
  pub field : String
  pub root_error : Option E
  -- The names that were sent.
  pub requests : List String

module _ {E : Type 0} where
  -- The effect of an opening: the field is seeded with the name.
  unfoldable pub open_dialog : String → Dialog E → Dialog E
  open_dialog current_name d = record d { is_open = true; field = current_name; root_error = none }

  abbrev renamed : Reply E Unit → Dialog E → Dialog E
  renamed (ok done) d = record d { is_open = false }
  renamed (err e) d = record d { root_error = some e }

  -- `onSubmit`, for a name that passed the schema, and the answer of the rename.
  unfoldable pub on_submit : (String → Reply E Unit) → String → String → Dialog E → Dialog E
  on_submit rename current_name name d =
      if str_eq (trim name) current_name
      then record d { is_open = false }
      else renamed (rename (trim name)) (record d { requests = d.requests ++ trim name ∷ [] })

  -- `form.handleSubmit(onSubmit)`: a name that fails the schema is not submitted.
  unfoldable pub submit_rename : (String → Reply E Unit) → String → Dialog E → Dialog E
  unfolding on_submit parse_file_name
  submit_rename rename current_name d = elim (parse_file_name d.field) [
    | none ↦ d
    | some name ↦ on_submit rename current_name name d
  ]

  -- `onSubmit` of the dialog for a new folder; `useCreateFolder` trims once more.
  unfoldable pub submit_folder : (String → Reply E Unit) → Dialog E → Dialog E
  unfolding parse_folder_name
  submit_folder create d = elim (parse_folder_name d.field) [
    | none ↦ d
    | some name ↦
        renamed (create (trim name)) (record d { requests = d.requests ++ trim name ∷ [] })
  ]

-- `rename` of `FolderActions`: the name that is sent, if one is, for what the prompt gives.
unfoldable pub prompt_rename : Option String → String → Option String
prompt_rename none name = none
prompt_rename (some text) name =
    if not (truthy (trim text)) || str_eq (trim text) name then none else some (trim text)
