-- ===== src/Web/PdfCache.antt =====
-- The promises that web/src/lib/pdf-thumbnail-utils.ts keeps: the engine, the documents by URL and the
-- thumbnails by key. The engine, its answers, and the pages that a document has are outside; a promise is
-- what has become of it.
pub mod Kept
pub mod Broken
use dropbox_go_grpc_microser.Prelude.{
  ℕ, suc, String, Bool, true, false, Option, none, some, List, [], ◌∷◌, map, any, str_eq,
  if◌then◌else◌,
}

pub data Engine : Type 0 where
  not_asked importing ready broken : Engine

pub data Progress : Type 0 where
  waiting asked done failed : Progress

pub record Document : Type 0 where
  pub url : String
  pub progress : Progress
  -- How often the engine was asked to open it for this promise.
  pub opened : ℕ

pub record Thumbnail : Type 0 where
  pub key : String
  pub url : String
  -- Whether the document has the page.
  pub has_page : Bool
  pub progress : Progress
  pub rendered : ℕ

pub record Cache : Type 0 where
  pub engine : Engine
  pub documents : List Document
  pub thumbnails : List Thumbnail

abbrev pub empty : Cache
empty = record { engine = not_asked; documents = []; thumbnails = [] }

abbrev pub has_url : String → List Document → Bool
has_url url ds = any (λ d. str_eq d.url url) ds

abbrev pub has_key : String → List Thumbnail → Bool
has_key key ts = any (λ t. str_eq t.key key) ts

abbrev pub asked_engine : Engine → Engine
asked_engine not_asked = importing
asked_engine e = e

-- `loadSharedPdfEngine`
unfoldable pub load_shared_pdf_engine : Cache → Cache
load_shared_pdf_engine c = record c { engine = asked_engine c.engine }

-- What the `then` of a document's promise does, once the engine's is settled.
unfoldable pub open_with : Engine → Document → Document
open_with ready d = elim d.progress [
  | waiting ↦ record d { progress = asked; opened = suc d.opened }
  | asked ↦ d
  | done ↦ d
  | failed ↦ d
]
open_with broken d = elim d.progress [
  | waiting ↦ record d { progress = failed }
  | asked ↦ d
  | done ↦ d
  | failed ↦ d
]
open_with not_asked d = d
open_with importing d = d

-- `loadPdfDocument`
unfoldable pub load_pdf_document : String → Cache → Cache
unfolding load_shared_pdf_engine open_with
load_pdf_document url c =
    let c' = load_shared_pdf_engine c in
    if has_url url c.documents then c else record c' {
      documents =
          open_with c'.engine (record { url = url; progress = waiting; opened = 0 }) ∷ c'.documents;
    }

abbrev pub progress_of : String → List Document → Progress
progress_of url [] = waiting
progress_of url (d ∷ ds) = if str_eq d.url url then d.progress else progress_of url ds

-- What a thumbnail's promise does for what has become of the engine and of its document.
unfoldable pub render_with : Engine → Progress → Thumbnail → Thumbnail
render_with broken p t = elim t.progress [
  | waiting ↦ record t { progress = failed }
  | asked ↦ t
  | done ↦ t
  | failed ↦ t
]
render_with e failed t = elim t.progress [
  | waiting ↦ record t { progress = failed }
  | asked ↦ t
  | done ↦ t
  | failed ↦ t
]
render_with ready done t = elim t.progress [
  | waiting ↦
      (if t.has_page
        then record t { progress = asked; rendered = suc t.rendered }
        else record t { progress = done })
  | asked ↦ t
  | done ↦ t
  | failed ↦ t
]
render_with e p t = t

abbrev render_all : Engine → List Document → List Thumbnail → List Thumbnail
render_all e ds ts = map (λ t. render_with e (progress_of t.url ds) t) ts

-- `renderPdfThumbnailUrl`, of the key that the URL, the page, the width and the density make.
unfoldable pub render_pdf_thumbnail_url : (key url : String) → (has_page : Bool) → Cache → Cache
unfolding load_pdf_document load_shared_pdf_engine render_with
render_pdf_thumbnail_url key url has_page c =
    let c' = load_pdf_document url (load_shared_pdf_engine c) in
    if has_key key c.thumbnails then c else record c' {
      thumbnails =
          render_with c'.engine (progress_of url c'.documents)
            (record { key = key; url = url; has_page = has_page; progress = waiting; rendered = 0 })
          ∷ c'.thumbnails;
    }

abbrev outcome : Bool → Progress
outcome true = done
outcome false = failed

abbrev pub settle_engine : Engine → Cache → Cache
settle_engine e c =
    let ds = map (open_with e) c.documents in
    record { engine = e; documents = ds; thumbnails = render_all e ds c.thumbnails }

-- The import of the engine ends.
unfoldable pub engine_ends : (fine : Bool) → Cache → Cache
unfolding open_with render_with
engine_ends fine c = elim c.engine [
  | importing ↦ settle_engine (if fine then ready else broken) c
  | not_asked ↦ c
  | ready ↦ c
  | broken ↦ c
]

unfoldable pub end_document : String → Bool → Document → Document
end_document url fine d = elim d.progress [
  | asked ↦ (if str_eq d.url url then record d { progress = outcome fine } else d)
  | waiting ↦ d
  | done ↦ d
  | failed ↦ d
]

-- A document is opened, or is not.
unfoldable pub document_ends : String → (fine : Bool) → Cache → Cache
unfolding end_document render_with
document_ends url fine c =
    let ds = map (end_document url fine) c.documents in
    record c { documents = ds; thumbnails = render_all c.engine ds c.thumbnails }

unfoldable pub end_thumbnail : String → Bool → Thumbnail → Thumbnail
end_thumbnail key fine t = elim t.progress [
  | asked ↦ (if str_eq t.key key then record t { progress = outcome fine } else t)
  | waiting ↦ t
  | done ↦ t
  | failed ↦ t
]

-- A thumbnail is rendered, or is not.
unfoldable pub thumbnail_ends : String → (fine : Bool) → Cache → Cache
unfolding end_thumbnail
thumbnail_ends key fine c = record c { thumbnails = map (end_thumbnail key fine) c.thumbnails }
