-- ===== src/Native/Root.antt =====
-- The root layout of the app, native/src/app/_layout.tsx, with the entry route index.tsx beside it and
-- `setFocusedFromAppState` of native/src/lib/query-client.ts: the splash screen, the stacks that exist, and
-- the query cache across the changes of the session. A commit runs the effects of a status that was
-- rendered anew; the queries of the cache are its keys. The providers and the theme are left out.
pub mod Guards
use dropbox_go_grpc_microser.Prelude.{
  String, Bool, true, false, List, [], ◌∷◌, str_eq, if◌then◌else◌,
}
use dropbox_go_grpc_microser.Native.Session.{Status, same_status}
use dropbox_go_grpc_microser.Native.Tokens.{
  Device, World, bootstrap_session, get_valid_access_token,
}

pub data Screen : Type 0 where
  tabs auth index : Screen

pub record Root : Type 0 where
  pub device : Device
  -- The status of the last rendering.
  pub rendered : Status
  pub splash_held : Bool
  -- focusManager's flag.
  pub focused : Bool
  pub queries : List String

-- The effect that hides the splash.
abbrev pub hide : Status → Bool → Bool
hide Status.loading held = held
hide _ held = false

-- The first rendering and its effects; before it, the splash is held.
abbrev pub mount : Device → Root
mount device = record {
  device = device;
  rendered = device.session.status;
  splash_held = hide device.session.status true;
  focused = true;
  queries = [];
}

-- The effect that clears the cache.
abbrev pub clear : Status → List String → List String
clear Status.signed_out queries = []
clear _ queries = queries

-- A rendering, and the effects on `status` where it is another one.
unfoldable pub commit : Root → Root
commit r =
    let status = r.device.session.status in
    if same_status status r.rendered then r else record r {
      rendered = status;
      splash_held = hide status r.splash_held;
      queries = clear status r.queries;
    }

-- The stacks and screens that the layout renders.
unfoldable pub screens : Status → List Screen
screens Status.loading = []
screens Status.signed_in = tabs ∷ index ∷ []
screens Status.signed_out = auth ∷ index ∷ []

-- Where the entry route forwards to.
unfoldable pub redirect : Status → String
redirect Status.signed_in = "/home"
redirect _ = "/login"

module _ {E : Type 0} (w : World E) where
  -- The effect of the start.
  unfoldable pub start : Root → Root
  start r = record r { device = (bootstrap_session w r.device).1 }

  -- The layout's listener on the app's state; what the refresh rejects with is dropped.
  unfoldable pub on_change : String → Root → Root
  on_change next_state r =
      if str_eq next_state "active"
      then record r { device = (get_valid_access_token w r.device).1 }
      else r

-- The query client's listener on it.
unfoldable pub set_focused_from_app_state : String → Root → Root
set_focused_from_app_state next_state r = record r { focused = str_eq next_state "active" }
