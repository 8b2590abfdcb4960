-- ===== src/Native/Sheet/Visit.antt =====
-- What a visit of the sheet leaves behind.
use dropbox_go_grpc_microser.Prelude.{◌≡◌, true, false, Option, none, arith}
use dropbox_go_grpc_microser.Native.Sheet.{Sheet, Mode, idle, open_create_sheet, close_sheet}

-- A sheet that was closed and is opened again holds nothing of the visit before: no name, no note, no
-- folder being created and no error.
pub open_create_sheet-close_sheet :
    (mode : Option Mode) (s : Sheet)
    → ((open_create_sheet mode (close_sheet s)).is_open ≡ true)
      × ((open_create_sheet mode (close_sheet s)).folder_name ≡ "")
      × ((open_create_sheet mode (close_sheet s)).notice ≡ none)
      × ((open_create_sheet mode (close_sheet s)).creating_folder ≡ false)
      × ((open_create_sheet mode (close_sheet s)).creation ≡ idle)
unfolding open_create_sheet close_sheet
open_create_sheet-close_sheet mode s = ground arith
