-- ===== src/Tests/Browse.antt =====
-- More of the web app on concrete inputs: a drop on the view and one on a selected folder, a preview that
-- is left for the editor, a document whose first link has expired, an export, and the reports of an upload.
use dropbox_go_grpc_microser.Prelude.{
  length, false, ◌≡◌, refl, true, none, some, List, [], ◌∷◌, arith, All, eq_iff,
}
use dropbox_go_grpc_microser.Rpc.{Code}
use dropbox_go_grpc_microser.Item
use dropbox_go_grpc_microser.Item.{Item}
use dropbox_go_grpc_microser.Dict.{lookup, insert}
use dropbox_go_grpc_microser.Web.Move
use dropbox_go_grpc_microser.Web.Move.{
  Unknown, object, MoveItem, is_item_drag_data, is_file_view_drop_data, drag_data, target_folder_id,
}
use dropbox_go_grpc_microser.Web.Grid.{get_selected_items, drop_items}
use dropbox_go_grpc_microser.Web.Grid.Drops.{asks_for, drop_items-into_itself}
use dropbox_go_grpc_microser.Web.UrlPreview.{
  UrlPreview, FileAnswer, init, preview_path, is_open, on_edit, on_open_change, answered, visit,
}
use dropbox_go_grpc_microser.Web.UrlPreview.Dismissal
use dropbox_go_grpc_microser.Web.UrlPreview.Dismissal.{went_to_editor, on_open_change-goes_back}
use dropbox_go_grpc_microser.Web.Probe.{Probe, mount, effects, render, answer}
use dropbox_go_grpc_microser.Web.Probe.Refreshes
use dropbox_go_grpc_microser.Web.Capture
use dropbox_go_grpc_microser.Web.Capture.{
  Page, begin_capture, create_object_url, click, end_capture, bytes_of,
}
use dropbox_go_grpc_microser.Web.Capture.Patches
use dropbox_go_grpc_microser.Web.Capture.Patches.{HasSameFunctions, end_capture-begin_capture}
use dropbox_go_grpc_microser.Web.Save.{Indexed}
use dropbox_go_grpc_microser.Web.Save.Progress.{Reporting, uploading, begin, take_next, finish}
use dropbox_go_grpc_microser.Web.Save.Progress.Totals
use dropbox_go_grpc_microser.Web.Save.Progress.Totals.{IsWithin, IsCounting, Reach-totals}

abbrev note : Item
note = record {
  item_type = "file";
  item_id = "n";
  folder_id = "r";
  details = Item.file (record { file_id = "n"; filename = "n.txt" });
}

abbrev photos : Item
photos = record {
  item_type = "folder";
  item_id = "p";
  folder_id = "r";
  details = Item.folder (record { folder_id = "p"; name = "Photos" });
}

abbrev dragged : Unknown
dragged =
    object (some "file-view-item") (some "n") none (some "n.txt") (some "r") Move.file (some 1)

abbrev view : Unknown
view = object (some "file-view-root") none none none none Move.file none

abbrev card : Unknown
card = object (some "file-view-folder") none (some "p") none none Move.file none

abbrev shown : List Item
shown = note ∷ photos ∷ []

drop_items-into_itself_example :
    (request : List MoveItem) × (drop_items dragged (card ∷ view ∷ []) shown ("n" ∷ "p" ∷ [])
      ≡ some (request, "p"))
    × (asks_for "p" request ≡ true)
unfolding is_item_drag_data is_file_view_drop_data lookup get_selected_items insert
drop_items-into_itself_example =
    drop_items-into_itself dragged card (view ∷ []) shown ("n" ∷ "p" ∷ []) photos refl refl
      (λ e. ground (arith, eq_iff "n" "p")) refl refl refl (λ e. ground (arith, eq_iff "r" "p"))

abbrev answer_file : FileAnswer
answer_file = record { file_id = "n"; folder_id = "r"; filename = "n.pdf" }

abbrev loaded : UrlPreview
loaded = answered "n" "r" answer_file (init "n" "r")

abbrev left : UrlPreview
left = on_edit "n" "r" note loaded

abbrev returned : UrlPreview
returned = visit "n" "r" (preview_path "n" "r") left

-- The preview is open again, and dismissing it does nothing.
on_open_change-goes_back_example :
    (is_open "n" "r" returned ≡ true)
    × ((on_open_change "n" "r" false returned).navigations ≡ left.navigations)
unfolding on_edit answered
on_open_change-goes_back_example =
    on_open_change-goes_back "n" "r" {v = left} answer_file
      (Dismissal.next (Dismissal.next Dismissal.here (Dismissal.answers answer_file (init "n" "r")))
        (Dismissal.edits note loaded))
      refl

abbrev expired : Probe
expired = answer 0 false (mount "n" (some "u1"))

-- A new ticket, which has not been probed yet, and then has been.
abbrev renewed : Probe
renewed = effects (render "n" (some "u2") expired)

abbrev opened : Probe
opened = answer 1 true renewed

abbrev captured : Page
captured = begin_capture Capture.init

abbrev exported : Page
exported = create_object_url "blob:1" 3 captured

end_capture-begin_capture_example :
    HasSameFunctions
      (end_capture 0 (bytes_of (1 ∷ 2 ∷ 3 ∷ [])) (click "a.pdf" "blob:1" exported))
      Capture.init
end_capture-begin_capture_example =
    end_capture-begin_capture Capture.init (bytes_of (1 ∷ 2 ∷ 3 ∷ [])) (
      Patches.next (Patches.next Patches.here (Patches.creates "blob:1" 3 captured))
        (Patches.clicks "a.pdf" "blob:1" exported))

-- Two blocks, of two bytes and of one, of which the second is uploaded first.
abbrev blocks : List Indexed
blocks =
    record { index = 0; block = 1 ∷ 2 ∷ []; hash = 7 ∷ [] }
    ∷ record { index = 1; block = 3 ∷ []; hash = 8 ∷ [] }
    ∷ []

abbrev begun : Reporting Code
begun = begin uploading blocks

abbrev one : Reporting Code
one = take_next uploading blocks begun

abbrev two : Reporting Code
two = take_next uploading blocks one

abbrev second : Reporting Code
second = finish uploading blocks 1 two

abbrev both : Reporting Code
both = finish uploading blocks 0 second

abbrev leaving : Reporting Code
leaving = take_next uploading blocks both

abbrev ended : Reporting Code
ended = take_next uploading blocks leaving

abbrev run : Totals.Reach uploading blocks ended
run =
    Totals.next
      (Totals.next
        (Totals.next
          (Totals.next
            (Totals.next (Totals.next Totals.here (Totals.goes_on begun)) (Totals.goes_on one))
            (Totals.finishes 1 two))
          (Totals.finishes 0 second))
        (Totals.goes_on both))
      (Totals.goes_on leaving)

Reach-totals_example :
    (ended.completed ≡ 2)
    × (ended.bytes_uploaded ≡ 3)
    × All (IsWithin uploading blocks) ended.reports
    × (length ended.reports ≡ 3)
    × IsCounting ended.reports
unfolding begin take_next finish
Reach-totals_example = Reach-totals uploading blocks run refl refl refl
