-- ===== src/Web/Capture.antt =====
-- `captureBlobDownload` of web/src/lib/capture-blob-download.ts: two functions of the page are replaced
-- while an export runs. A function is the page's own or a patch around another one; a call has a number,
-- which its patches bear. An export's `createObjectURL`, the bytes of a blob, and the timer are events.
pub mod Patches
use dropbox_go_grpc_microser.Prelude.{
  ℕ, suc, String, Bool, true, false, not, ◌&&◌, ◌||◌, Option, none, some, List, [], ◌∷◌, ◌++◌, any,
  ◌==◌, ltb, str_eq, truthy, if◌then◌else◌,
}
use dropbox_go_grpc_microser.Web.Blocks.{Bytes}

pub data Function : Type 0 where
  original : Function
  patched : (call : ℕ) (inner : Function) → Function

-- How the promise that a call awaits is settled.
pub data Settled : Type 0 where
  bytes_of : Bytes → Settled
  unreadable : Settled
  timed_out : Settled
  threw : Settled

pub record Call : Type 0 where
  pub number : ℕ
  pub original_create : Function
  pub original_click : Function

pub record Page : Type 0 where
  pub create_object_url : Function
  pub click : Function
  -- exportUrls of each call: the call, and a URL.
  pub exports : List (ℕ × String)
  -- The calls that have not run their `finally`.
  pub running : List Call
  -- How the calls ended, newest first.
  pub ended : List (ℕ × Settled)
  pub next : ℕ
  -- The anchors that the page itself clicked, newest first.
  pub clicked : List String

abbrev pub init : Page
init = record {
  create_object_url = original;
  click = original;
  exports = [];
  running = [];
  ended = [];
  next = 0;
  clicked = [];
}

-- Up to `trigger()`.
unfoldable pub begin_capture : Page → Page
begin_capture p = record p {
  create_object_url = patched p.next p.create_object_url;
  click = patched p.next p.click;
  running =
      record { number = p.next; original_create = p.create_object_url; original_click = p.click }
      ∷ p.running;
  next = suc p.next;
}

-- URL.createObjectURL, of a blob of some size, with the URL that the browser makes: each patch around the
-- browser's own adds it to its call's exports.
unfoldable pub exported : Function → String → ℕ → List (ℕ × String) → List (ℕ × String)
exported original url size exports = exports
exported (patched call inner) url size exports =
    let rest = exported inner url size exports in if ltb 0 size then (call, url) ∷ rest else rest

unfoldable pub create_object_url : String → ℕ → Page → Page
unfolding exported
create_object_url url size p = record p {
  exports = exported p.create_object_url url size p.exports;
}

abbrev pub is_export : ℕ → String → List (ℕ × String) → Bool
is_export call url exports = any (λ e. e.0 == call && str_eq e.1 url) exports

-- Whether a click on an anchor, with its `download` and its `href`, is swallowed by a patch.
unfoldable pub is_swallowed : Function → String → String → List (ℕ × String) → Bool
is_swallowed original download href exports = false
is_swallowed (patched call inner) download href exports =
    let rest = is_swallowed inner download href exports in
    truthy download && is_export call href exports || rest

unfoldable pub click : String → String → Page → Page
unfolding is_swallowed
click download href p =
    if is_swallowed p.click download href p.exports
    then p
    else record p { clicked = href ∷ p.clicked }

abbrev pub call_of : ℕ → List Call → Option Call
call_of n [] = none
call_of n (c ∷ cs) = let rest = call_of n cs in if c.number == n then some c else rest

abbrev pub leave : ℕ → List Call → List Call
leave n [] = []
leave n (c ∷ cs) = let rest = leave n cs in if c.number == n then cs else c ∷ rest

-- A call is settled, and its `finally` runs.
unfoldable pub end_capture : ℕ → Settled → Page → Page
end_capture n settled p = elim (call_of n p.running) [
  | none ↦ p
  | some c ↦ record p {
    create_object_url = c.original_create;
    click = c.original_click;
    running = leave n p.running;
    ended = (n, settled) ∷ p.ended;
  }
]
