-- ===== src/Web/Capture/Patches.antt =====
-- What the patches do, and what they leave.
use dropbox_go_grpc_microser.Prelude.{
  ℕ, suc, ◌<◌, String, ◌≡◌, refl, true, false, List, arith, eq_refl, truthy,
}
use dropbox_go_grpc_microser.Web.Capture.{
  Page, Function, original, patched, Settled, begin_capture, end_capture, create_object_url,
  exported, click, is_swallowed, is_export,
}

-- What an export may do between the start of a call and its end.
pub data Step : Page → Page → Type 0 where
  creates : (url : String) (size : ℕ) (p : Page) → Step p (create_object_url url size p)
  clicks : (download href : String) (p : Page) → Step p (click download href p)

pub data Steps : Page → Page → Type 0 where
  here : {p : Page} → Steps p p
  next : {p q r : Page} → Steps p q → Step q r → Steps p r

abbrev pub HasSameFunctions : Page → Page → Type 0
HasSameFunctions p q =
    (p.create_object_url ≡ q.create_object_url) × (p.click ≡ q.click) × (p.running ≡ q.running)

Steps-HasSameFunctions : {p q : Page} → Steps p q → HasSameFunctions p q
unfolding create_object_url click
Steps-HasSameFunctions here = (refl, refl, refl)
Steps-HasSameFunctions (next r (creates url size q)) = Steps-HasSameFunctions r
Steps-HasSameFunctions (next r (clicks download href q)) =
    let (a, b, c) = Steps-HasSameFunctions r in (ground arith, ground arith, ground arith)

-- A call that no other call overlaps leaves the page's functions as they were, however it ends.
pub end_capture-begin_capture :
    (p : Page) {q : Page} (settled : Settled)
    → Steps (begin_capture p) q
    → HasSameFunctions (end_capture p.next settled q) p
unfolding begin_capture end_capture
end_capture-begin_capture p settled steps =
    let (a, b, c) = Steps-HasSameFunctions steps in (ground arith, ground arith, ground arith)

-- Of two calls that overlap, and end in the order in which they began, the patch of the first stays.
pub end_capture-overlapping :
    (p : Page) (first second : Settled)
    → (end_capture
        (suc p.next)
        second
        (end_capture p.next first (begin_capture (begin_capture p)))).click
      ≡ patched p.next p.click
unfolding begin_capture end_capture
end_capture-overlapping p first second = ground arith

is_export-exported :
    (call : ℕ) (f : Function) (url href : String) (size : ℕ) (exports : List (ℕ × String))
    → is_export call href exports ≡ true
    → is_export call href (exported f url size exports) ≡ true
unfolding exported
is_export-exported call original url href size exports h = h
is_export-exported call (patched k inner) url href size exports h =
    ground (arith, is_export-exported call inner url href size exports h)

-- The link of an export is not followed: a click on an anchor for a download whose URL was made of a
-- blob with bytes during the call changes nothing.
pub click-create_object_url :
    (p : Page) (url download : String) (size : ℕ)
    → 0 < size
    → truthy download ≡ true
    → click download url (create_object_url url size (begin_capture p))
      ≡ create_object_url url size (begin_capture p)
unfolding begin_capture click create_object_url exported is_swallowed
click-create_object_url p url download size full named = ground (arith, eq_refl url)

-- A click on an anchor that is for no download is passed on.
pub is_swallowed-passes :
    (f : Function) (download href : String) (exports : List (ℕ × String))
    → truthy download ≡ false
    → is_swallowed f download href exports ≡ false
unfolding is_swallowed
is_swallowed-passes original download href exports plain = refl
is_swallowed-passes (patched call inner) download href exports plain =
    ground (arith, is_swallowed-passes inner download href exports plain)
