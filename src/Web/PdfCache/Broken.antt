-- ===== src/Web/PdfCache/Broken.antt =====
-- What a failure leaves behind.
use dropbox_go_grpc_microser.Prelude.{
  ◌≡◌, String, Bool, true, List, [], ◌∷◌, map, arith, str_eq, Bool-cases, inl, inr, eq_iff,
}
use dropbox_go_grpc_microser.Web.PdfCache.{
  Engine, not_asked, importing, ready, broken, waiting, failed, Document, Cache, has_url, open_with,
  load_pdf_document, load_shared_pdf_engine, progress_of, end_document,
}
use dropbox_go_grpc_microser.Web.PdfCache.Kept.{Steps, Steps-kept, open_with-url, end_document-url}

open_with-failed :
    (e : Engine) (d : Document) → d.progress ≡ failed → (open_with e d).progress ≡ failed
unfolding open_with
open_with-failed ready d h = ground arith
open_with-failed broken d h = ground arith
open_with-failed not_asked d h = h
open_with-failed importing d h = h

end_document-failed :
    (url : String) (fine : Bool) (d : Document)
    → d.progress ≡ failed
    → (end_document url fine d).progress ≡ failed
unfolding end_document
end_document-failed url fine d h = ground arith

module _ (f : Document → Document) (same : (d : Document) → (f d).url ≡ d.url)
    (keeps : (d : Document) → d.progress ≡ failed → (f d).progress ≡ failed) where
  map-failed :
      (url : String) (ds : List Document)
      → progress_of url ds ≡ failed
      → progress_of url (map f ds) ≡ failed
  map-failed url [] h = h
  map-failed url (d ∷ ds) h = elim (Bool-cases (str_eq d.url url)) [
    | inl this ↦ ground (arith, same d, keeps d (ground arith))
    | inr other ↦ ground (arith, same d, map-failed url ds (ground arith))
  ]

has_url-failed :
    (url : String) (ds : List Document) → progress_of url ds ≡ failed → has_url url ds ≡ true
has_url-failed url [] h = cc
has_url-failed url (d ∷ ds) h = ground (arith, has_url-failed url ds)

load_pdf_document-failed :
    (url other : String) (c : Cache)
    → progress_of url c.documents ≡ failed
    → progress_of url (load_pdf_document other c).documents ≡ failed
unfolding load_pdf_document
load_pdf_document-failed url other c h = elim (Bool-cases (has_url other c.documents)) [
  | inl known ↦ rw known h
  | inr new ↦ elim (Bool-cases (str_eq other url)) [
    | inl same ↦
        let e : other ≡ url = (eq_iff other url).0 same in
        absurd (ground (arith, e, has_url-failed url c.documents h))
    | inr apart ↦
        let d : Document = record { url = other; progress = waiting; opened = 0 } in
        rw new (ground (arith, open_with-url (load_shared_pdf_engine c).engine d))
  ]
]

-- A document that could not be opened stays so, whatever is asked and answered afterwards.
pub Steps-failed :
    {c d : Cache} (url : String)
    → Steps c d
    → progress_of url c.documents ≡ failed
    → progress_of url d.documents ≡ failed
Steps-failed url steps h =
    Steps-kept (λ ds. progress_of url ds ≡ failed)
      (λ e ds q. map-failed (open_with e) (open_with-url e) (open_with-failed e) url ds q)
      (λ u fine ds q.
        map-failed (end_document u fine) (end_document-url u fine) (end_document-failed u fine) url
          ds q)
      (λ u c q. load_pdf_document-failed url u c q) steps h
