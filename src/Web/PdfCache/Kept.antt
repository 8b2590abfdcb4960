-- ===== src/Web/PdfCache/Kept.antt =====
-- What is asked once, and what is kept.
use mathlib.Core.Path.{subst}
use dropbox_go_grpc_microser.Prelude.{
  ℕ, ◌+◌, ◌≤◌, ◌≡◌, ◌⊎◌, inl, inr, refl, sym, ap, String, Bool, false, List, [], ◌∷◌, map, arith,
  str_eq, eq_iff, Bool-cases, if◌then◌else◌,
}
use dropbox_go_grpc_microser.Web.PdfCache.{
  Engine, Progress, not_asked, importing, ready, broken, waiting, Document, Cache, empty, has_url,
  has_key, load_shared_pdf_engine, open_with, load_pdf_document, render_pdf_thumbnail_url,
  engine_ends, end_document, document_ends, thumbnail_ends,
}

pub data Step : Cache → Cache → Type 0 where
  asks_engine : (c : Cache) → Step c (load_shared_pdf_engine c)
  asks_document : (url : String) (c : Cache) → Step c (load_pdf_document url c)
  asks_thumbnail :
      (key url : String) (has_page : Bool) (c : Cache)
      → Step c (render_pdf_thumbnail_url key url has_page c)
  engine_answers : (fine : Bool) (c : Cache) → Step c (engine_ends fine c)
  document_answers : (url : String) (fine : Bool) (c : Cache) → Step c (document_ends url fine c)
  thumbnail_answers : (key : String) (fine : Bool) (c : Cache) → Step c (thumbnail_ends key fine c)

pub data Steps : Cache → Cache → Type 0 where
  none_more : {c : Cache} → Steps c c
  more : {c d e : Cache} → Steps c d → Step d e → Steps c e

-- How often a URL was opened, in all.
abbrev pub opens : String → List Document → ℕ
opens url [] = 0
opens url (d ∷ ds) = if str_eq d.url url then d.opened + opens url ds else opens url ds

abbrev cap : Progress → ℕ
cap waiting = 0
cap _ = 1

-- A document that waits was not opened, and none was more than once; each URL has one promise.
abbrev IsApart : List Document → Type 0
IsApart [] = Unit
IsApart (d ∷ ds) = (d.opened ≤ cap d.progress) × (has_url d.url ds ≡ false) × IsApart ds

open_with-cap :
    (e : Engine) (d : Document)
    → d.opened ≤ cap d.progress
    → (open_with e d).opened ≤ cap (open_with e d).progress
unfolding open_with
open_with-cap ready d due = ground arith
open_with-cap broken d due = ground arith
open_with-cap not_asked d due = due
open_with-cap importing d due = due

pub open_with-url : (e : Engine) (d : Document) → (open_with e d).url ≡ d.url
unfolding open_with
open_with-url ready d = ground arith
open_with-url broken d = ground arith
open_with-url not_asked d = refl
open_with-url importing d = refl

end_document-cap :
    (url : String) (fine : Bool) (d : Document)
    → d.opened ≤ cap d.progress
    → (end_document url fine d).opened ≤ cap (end_document url fine d).progress
unfolding end_document
end_document-cap url fine d due = ground arith

pub end_document-url :
    (url : String) (fine : Bool) (d : Document) → (end_document url fine d).url ≡ d.url
unfolding end_document
end_document-url url fine d = ground arith

Engine-cases : (e : Engine) → (e ≡ importing) ⊎ ((e ≡ not_asked) ⊎ ((e ≡ ready) ⊎ (e ≡ broken)))
Engine-cases importing = inl refl
Engine-cases not_asked = inr (inl refl)
Engine-cases ready = inr (inr (inl refl))
Engine-cases broken = inr (inr (inr refl))

idle :
    (fine : Bool) (c : Cache)
    → (c.engine ≡ not_asked) ⊎ ((c.engine ≡ ready) ⊎ (c.engine ≡ broken))
    → engine_ends fine c ≡ c
unfolding engine_ends
idle fine c (inl e) = rw e refl
idle fine c (inr (inl e)) = rw e refl
idle fine c (inr (inr e)) = rw e refl

module _ (f : Document → Document) (same : (d : Document) → (f d).url ≡ d.url) where
  has_url-map : (url : String) (ds : List Document) → has_url url (map f ds) ≡ has_url url ds
  has_url-map url [] = refl
  has_url-map url (d ∷ ds) = ground (arith, same d, has_url-map url ds)

  map-IsApart :
      ((d : Document) → d.opened ≤ cap d.progress → (f d).opened ≤ cap (f d).progress)
      → (ds : List Document) → IsApart ds
      → IsApart (map f ds)
  map-IsApart capped [] apart = tt
  map-IsApart capped (d ∷ ds) (due, new, apart) =
      (capped d due, ground (arith, same d, has_url-map d.url ds), map-IsApart capped ds apart)

load_pdf_document-IsApart :
    (url : String) (c : Cache) → IsApart c.documents → IsApart (load_pdf_document url c).documents
unfolding load_pdf_document
load_pdf_document-IsApart url c apart = elim (Bool-cases (has_url url c.documents)) [
  | inl known ↦ rw known apart
  | inr new ↦
      let d : Document = record { url = url; progress = waiting; opened = 0 } in
      let e = (load_shared_pdf_engine c).engine in
      rw new (open_with-cap e d (omega arith), ground (arith, open_with-url e d), apart)
]

-- What holds of the documents, and is kept by what is done to them, is kept by every step.
module _ (Q : List Document → Type 0)
    (opened : (e : Engine) (ds : List Document) → Q ds → Q (map (open_with e) ds))
    (ended : (url : String) (fine : Bool) (ds : List Document)
      → Q ds
      → Q (map (end_document url fine) ds))
    (loaded : (url : String) (c : Cache)
      → Q c.documents
      → Q (load_pdf_document url c).documents) where
  engine_ends-kept : (fine : Bool) (c : Cache) → Q c.documents → Q (engine_ends fine c).documents
  unfolding engine_ends
  engine_ends-kept fine c q = elim (Engine-cases c.engine) [
    | inl asks ↦ rw asks (opened (if fine then ready else broken) c.documents q)
    | inr other ↦ subst Q (sym (ap (λ x. x.documents) (idle fine c other))) q
  ]

  render-kept :
      (key url : String) (has_page : Bool) (c : Cache)
      → Q c.documents
      → Q (render_pdf_thumbnail_url key url has_page c).documents
  unfolding render_pdf_thumbnail_url load_shared_pdf_engine
  render-kept key url has_page c q = elim (Bool-cases (has_key key c.thumbnails)) [
    | inl known ↦ rw known q
    | inr new ↦ rw new (loaded url (load_shared_pdf_engine c) q)
  ]

  Step-kept : {c d : Cache} → Step c d → Q c.documents → Q d.documents
  unfolding load_shared_pdf_engine document_ends thumbnail_ends
  Step-kept (asks_engine c) q = q
  Step-kept (asks_document url c) q = loaded url c q
  Step-kept (asks_thumbnail key url has_page c) q = render-kept key url has_page c q
  Step-kept (engine_answers fine c) q = engine_ends-kept fine c q
  Step-kept (document_answers url fine c) q = ended url fine c.documents q
  Step-kept (thumbnail_answers key fine c) q = q

  pub Steps-kept : {c d : Cache} → Steps c d → Q c.documents → Q d.documents
  Steps-kept none_more q = q
  Steps-kept (more steps s) q = Step-kept s (Steps-kept steps q)

opens-absent : (url : String) (ds : List Document) → has_url url ds ≡ false → opens url ds ≡ 0
opens-absent url [] h = refl
opens-absent url (d ∷ ds) h = ground (arith, opens-absent url ds)

opens-once : (url : String) (ds : List Document) → IsApart ds → opens url ds ≤ 1
opens-once url [] apart = omega arith
opens-once url (d ∷ ds) (due, new, apart) = elim (Bool-cases (str_eq d.url url)) [
  | inl same ↦
      let e : d.url ≡ url = (eq_iff d.url url).0 same in
      let gone = opens-absent d.url ds new in
      let most : cap d.progress ≤ 1 = ground arith in ground (arith, e)
  | inr other ↦ ground (arith, opens-once url ds apart)
]

-- However often thumbnails and documents are asked for, and however the engine answers, a URL is opened
-- once at most.
pub Steps-once : {c : Cache} (url : String) → Steps empty c → opens url c.documents ≤ 1
Steps-once {c = c} url steps = opens-once url c.documents (
    Steps-kept IsApart
      (λ e ds q. map-IsApart (open_with e) (open_with-url e) (open_with-cap e) ds q)
      (λ u fine ds q.
        map-IsApart (end_document u fine) (end_document-url u fine) (end_document-cap u fine) ds q)
      load_pdf_document-IsApart steps tt)
