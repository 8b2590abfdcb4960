-- ===== src/Web/Probe/Refreshes.antt =====
-- How often a ticket is refreshed silently, and which URLs reach a viewer.
use dropbox_go_grpc_microser.Prelude.{
  ℕ, ◌+◌, ◌≤◌, String, ◌≡◌, truthy, Bool, true, false, Option, some, arith, if◌then◌else◌,
}
use dropbox_go_grpc_microser.Web.Probe.{
  Probe, ready, mount, effects, render, answer, is_failed, panel, viewer, url_of,
}

-- Renderings, their effects, and answers, in any order.
pub data Step : Probe → Probe → Type 0 where
  renders : (key : String) (url : Option String) (p : Probe) → Step p (render key url p)
  acts : (p : Probe) → Step p (effects p)
  answers : (n : ℕ) (is_ok : Bool) (p : Probe) → Step p (answer n is_ok p)

pub data Reach : Probe → Type 0 where
  here : (key : String) (url : Option String) → Reach (mount key url)
  next : {p q : Probe} → Reach p → Step p q → Reach q

-- Each document has one refresh at most, and a failure is shown after it was asked for.
abbrev pub IsBudgeted : Probe → Type 0
IsBudgeted p =
    (p.refreshes + (if p.refreshed_once then 0 else 1) ≤ p.documents)
    × ((is_failed p.state ≡ true) → (p.refreshed_once ≡ true))

-- A document that is ready answered under the URL that the effects saw last.
abbrev pub IsProbed : Probe → Type 0
IsProbed p = p.state ≡ ready → p.last_answer ≡ some (url_of p.effect_url, true)

-- A document is open, and its URL is replaced, as by a new ticket: the rendering gives the viewer the new
-- URL, which no probe has seen.
render-unprobed :
    (key url : String) (p : Probe)
    → p.state ≡ ready
    → truthy url ≡ true
    → panel false (render key (some url) p) ≡ viewer url
unfolding panel render
render-unprobed key url p open_now named = ground arith
