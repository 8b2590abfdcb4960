-- ===== src/Web/Probe.antt =====
-- `useDocumentProbe` of web/src/modules/files/components/document-preview-shell.tsx, and what the panels
-- of pdf-preview-panel.tsx and docx-preview-panel.tsx beside it show. A fetch is a number, and the one
-- that was started last alone is not cancelled. A rendering shows the panel with its properties, and the
-- three effects run after it, in order; they see the state as it was rendered.
pub mod Refreshes
use dropbox_go_grpc_microser.Prelude.{
  ℕ, suc, String, Bool, true, false, not, ◌&&◌, ◌||◌, Option, none, some, str_eq, ◌==◌, truthy,
  present, if◌then◌else◌,
}

pub data ProbeState : Type 0 where
  probing ready failed : ProbeState

pub record Probe : Type 0 where
  -- The properties of the last rendering.
  pub document_key : String
  pub url : Option String
  -- Those for which the effects ran last.
  pub effect_key : String
  pub effect_url : Option String
  pub state : ProbeState
  -- refreshedOnceRef.current
  pub refreshed_once : Bool
  -- The fetch that is not cancelled, if it runs.
  pub fetch : Option ℕ
  pub next_fetch : ℕ
  -- The URL that answered last, and how.
  pub last_answer : Option (String × Bool)
  -- The calls of `onExpired`, and the documents that were open.
  pub refreshes : ℕ
  pub documents : ℕ

abbrev pub same_url : Option String → Option String → Bool
same_url none none = true
same_url (some a) (some b) = str_eq a b
same_url _ _ = false

-- The effect of `url`; an empty one is none.
abbrev pub probe_url : Probe → Probe
probe_url p = elim (present p.url) [
  | none ↦ record p { effect_url = p.url; state = probing; fetch = none }
  | some u ↦ record p {
    effect_url = p.url;
    state = probing;
    fetch = some p.next_fetch;
    next_fetch = suc p.next_fetch;
  }
]

abbrev pub is_failed : ProbeState → Bool
is_failed failed = true
is_failed _ = false

-- The effect that refreshes, which sees the state that was rendered.
abbrev pub refresh_if : ProbeState → Probe → Probe
refresh_if rendered p =
    if is_failed rendered && not p.refreshed_once
    then record p { refreshed_once = true; refreshes = suc p.refreshes }
    else p

-- The effect of `documentKey`.
abbrev pub reset : Probe → Probe
reset p = if str_eq p.effect_key p.document_key then p else record p {
  effect_key = p.document_key;
  refreshed_once = false;
  documents = suc p.documents;
}

-- The effects after a rendering, of which those of the key and of the URL run where these are new.
unfoldable pub effects : Probe → Probe
effects p =
    let keyed = reset p in
    refresh_if p.state (if same_url p.effect_url p.url then keyed else probe_url keyed)

-- A rendering with new properties, before its effects.
unfoldable pub render : String → Option String → Probe → Probe
render key url p = record p { document_key = key; url = url }

-- The first rendering, with its effects.
unfoldable pub mount : String → Option String → Probe
mount key url = probe_url (record {
  document_key = key;
  url = url;
  effect_key = key;
  effect_url = none;
  state = probing;
  refreshed_once = false;
  fetch = none;
  next_fetch = 0;
  last_answer = none;
  refreshes = 0;
  documents = 1;
})

abbrev pub runs : ℕ → Option ℕ → Bool
runs n none = false
runs n (some k) = k == n

abbrev pub url_of : Option String → String
url_of none = ""
url_of (some url) = url

abbrev pub answer_state : Bool → ProbeState
answer_state true = ready
answer_state false = failed

abbrev pub answered : ℕ → Bool → Probe → Probe
answered n is_ok p =
    if runs n p.fetch
    then refresh_if (answer_state is_ok) (record p {
      state = answer_state is_ok;
      fetch = none;
      last_answer = some (url_of p.url, is_ok);
    })
    else p

-- A fetch answers, well or not, or rejects; the rendering that follows runs the effects that are due, and
-- its own after them.
unfoldable pub answer : ℕ → Bool → Probe → Probe
unfolding effects
answer n is_ok p = answered n is_ok (effects p)

pub data Panel : Type 0 where
  loading : Panel
  not_opened : Panel
  link_expired : Panel
  viewer : (url : String) → Panel

abbrev pub shown : String → ProbeState → Panel
shown url probing = loading
shown url failed = link_expired
shown url ready = viewer url

-- What `PdfPreviewPanel` and `DocxPreviewPanel` show.
unfoldable pub panel : Bool → Probe → Panel
panel is_error p =
    if is_error
    then not_opened
    else (elim (present p.url) [ none ↦ loading | some url ↦ shown url p.state ])
