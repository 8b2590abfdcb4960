-- ===== src/Tests/Clock.antt =====
-- Times of both apps, and the cache of the documents, on concrete inputs.
use dropbox_go_grpc_microser.Prelude.{ℕ, String, ◌≡◌, ◌≤◌, refl, true, false, some, arith}
use dropbox_go_grpc_microser.Native.Display
use dropbox_go_grpc_microser.Web.RelativeTime.{format_relative_time}
use dropbox_go_grpc_microser.Web.RelativeTime.Bounds.{IsTimely, format_relative_time-IsTimely}
use dropbox_go_grpc_microser.Web.RelativeTime.Apps.{IsSame, format_relative_time-apps}
use dropbox_go_grpc_microser.Web.PdfCache.{
  Cache, empty, failed, load_pdf_document, render_pdf_thumbnail_url, engine_ends, document_ends,
  progress_of,
}
use dropbox_go_grpc_microser.Web.PdfCache.Kept.{
  Steps, none_more, more, asks_document, asks_thumbnail, engine_answers, opens, Steps-once,
}
use dropbox_go_grpc_microser.Web.PdfCache.Broken.{Steps-failed}

-- An hour and a half ago.
abbrev now : ℕ
now = 1000000000

abbrev then : ℕ
then = 994600000

format_relative_time-IsTimely_example : IsTimely now then (format_relative_time now (some then))
format_relative_time-IsTimely_example = format_relative_time-IsTimely now then

format_relative_time-apps_example :
    IsSame 5400
      (format_relative_time now (some then))
      (Display.format_relative_time now (some then))
unfolding Display.seconds_apart
format_relative_time-apps_example = format_relative_time-apps now then (omega arith)

-- A document is asked for twice, and cannot be opened.
abbrev url : String
url = "/v3"

abbrev asked : Cache
asked = engine_ends true (load_pdf_document url empty)

abbrev asking : Steps empty asked
asking =
    more (more none_more (asks_document url empty))
      (engine_answers true (load_pdf_document url empty))

abbrev again : Cache
again = load_pdf_document url asked

Steps-once_example : opens url again.documents ≤ 1
Steps-once_example = Steps-once url (more asking (asks_document url asked))

abbrev broken : Cache
broken = document_ends url false asked

abbrev retried : Steps broken (render_pdf_thumbnail_url "/v3#0" url true broken)
retried = more none_more (asks_thumbnail "/v3#0" url true broken)

Steps-failed_example :
    progress_of url (render_pdf_thumbnail_url "/v3#0" url true broken).documents ≡ failed
unfolding document_ends engine_ends load_pdf_document
Steps-failed_example = Steps-failed url retried refl
