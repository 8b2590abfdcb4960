-- ===== src/Web/Edit/Messages.antt =====
-- What the edit page says: `unavailableMessage` and `SaveStateIndicator` of
-- web/src/modules/files/views/file-edit-view.tsx. A text with numbers is a constructor with them.
use dropbox_go_grpc_microser.Prelude.{ℕ, Option, none, some, str_eq, if◌then◌else◌}
use dropbox_go_grpc_microser.Native.Display.{Size, format_bytes}
use dropbox_go_grpc_microser.Web.Edit.{
  EditSession, Progress, hashing, uploading, committing, SaveState, idle, saving, saved, conflict,
  failed,
}

pub data Message : Type 0 where
  too_large : (size limit : Size) → Message
  switched_off : Message
  not_supported : Message

-- `unavailableMessage`
unfoldable pub unavailable_message : EditSession → Message
unavailable_message s =
    if str_eq s.unavailable_reason "too_large"
    then too_large (format_bytes (some s.size_bytes)) (format_bytes (some s.max_edit_bytes))
    else if str_eq s.unavailable_reason "disabled"
    then switched_off
    else not_supported

pub data Label : Type 0 where
  preparing : Label
  uploading_blocks : (completed total : ℕ) → Label
  committing_version : Label
  saved_as : (version : ℕ) → Label

abbrev label_of : Progress → Label
label_of p = elim p.phase [
  | hashing ↦ preparing
  | uploading ↦ uploading_blocks p.completed p.total
  | committing ↦ committing_version
]

-- `SaveStateIndicator`
unfoldable pub indicator : SaveState → Option Label
indicator idle = none
indicator (saving p) = some (label_of p)
indicator (saved version sent) = some (saved_as version)
indicator (conflict head) = none
indicator (failed message) = none
