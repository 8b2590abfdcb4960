-- ===== src/Tests/App.antt =====
-- The mobile client on concrete inputs: a platform that answers, one that rejects the token, one that
-- cannot be reached, and a device with a stored token.
use dropbox_go_grpc_microser.Prelude.{
  true, ◌↔◌, present, ℕ, String, ◌≡◌, ◌⊎◌, refl, false, Option, none, some, List, [], ◌∷◌,
}
use dropbox_go_grpc_microser.Exec.{Reply, ok, err}
use dropbox_go_grpc_microser.Rpc.{Code}
use dropbox_go_grpc_microser.Native.Session.{Session, Status}
use dropbox_go_grpc_microser.Native.Tokens.{
  Device, TokenPair, World, rotate_refresh_token, present_token, rejects,
}
use dropbox_go_grpc_microser.Native.Tokens.Rotation.{rotate_refresh_token-signed_out_iff}
use dropbox_go_grpc_microser.Native.Flight.{App, refresh_access_token, advance}
use dropbox_go_grpc_microser.Native.Flight.Single.{
  ask, go_on, here, next, IsSingle, start, Reach-IsSingle,
}
use dropbox_go_grpc_microser.Native.Interceptor.{Request, Link}
use dropbox_go_grpc_microser.Native.Session
use dropbox_go_grpc_microser.Native.Root.{
  Root, tabs, auth, index, mount, commit, screens, redirect, start as start_app,
}
use dropbox_go_grpc_microser.Native.Root.Guards
use dropbox_go_grpc_microser.Native.Root.Guards.{commit-start, Reach-signed_out}
use dropbox_go_grpc_microser.Native.Account.{Queries, Client, logout, current_user_key}
use dropbox_go_grpc_microser.Native.Account.Flows.{logout-ends}

abbrev pair : TokenPair
pair = record { access_token = "a.YQ.s"; refresh_token = "r2" }

-- Every token of this platform expires at second 5000.
abbrev online : World Code
online = record {
  code_of = λ c. c;
  no_token = Code.unauthenticated;
  now = 1000000;
  decode = λ _. some (record { exp = some 5000 });
  read_fault = none;
  write_fault = none;
  delete_fault = none;
  refresh_token = λ _. ok pair;
}

abbrev rejecting : World Code
rejecting = record online { refresh_token = λ _. err Code.permission_denied }

abbrev offline : World Code
offline = record online { refresh_token = λ _. err Code.unavailable }

abbrev session : Session
session = record { status = Status.signed_in; listeners = 7 ∷ []; notified = [] }

abbrev device : Device
device = record {
  access_token = none;
  access_token_expires_at = 0;
  keychain = some "r1";
  session = session;
  presented = [];
}

-- Two callers ask while the rotation of the first one runs.
abbrev asked : App Code
asked = (refresh_access_token (start device)).1

abbrev exchanged : App Code
exchanged = advance online 0 asked

abbrev shared : App Code
shared = (refresh_access_token exchanged).1

Reach-IsSingle_example : IsSingle shared
Reach-IsSingle_example =
    Reach-IsSingle {d = device}
      (next (next (next here (ask (start device))) (go_on online 0 asked)) (ask exchanged))

rotate_refresh_token-signed_out_iff_example :
    ((rotate_refresh_token rejecting device).1.session.status ≡ Status.signed_out) ↔ (
      ((rejecting.read_fault ≡ none)
        × (present device.keychain ≡ none)
        × ((rotate_refresh_token rejecting device).0 ≡ err rejecting.no_token)
        × ((rotate_refresh_token rejecting device).1.keychain ≡ device.keychain)
        × ((rotate_refresh_token rejecting device).1.access_token ≡ device.access_token))
      ⊎ ((old : String) × (e : Code) × (rejecting.read_fault ≡ none)
          × (present device.keychain ≡ some old)
          × ((present_token rejecting old device).0 ≡ err e)
          × (rejects (rejecting.code_of e) ≡ true)
          × (rejecting.delete_fault ≡ none)
          × ((rotate_refresh_token rejecting device).0 ≡ err e)
          × ((rotate_refresh_token rejecting device).1.keychain ≡ none)
          × ((rotate_refresh_token rejecting device).1.access_token ≡ none)))
rotate_refresh_token-signed_out_iff_example =
    rotate_refresh_token-signed_out_iff rejecting device (λ e. cc)

abbrev holding : Device
holding = record device { access_token = some "a1"; access_token_expires_at = 2000000 }

abbrev request : Request
request = record { authorization = none; stream = false }

abbrev link : Link
link = record { device = holding; sent = [] }

-- The first answer is a rejection, the repeat is answered.
abbrev first_answer : Option String → Reply Code ℕ
first_answer _ = err Code.unauthenticated

abbrev second_answer : Option String → Reply Code ℕ
second_answer _ = ok 1

-- A query cache is here the list of its keys.
abbrev queries : Queries
queries = record { Cache = List (List String); empty = []; remove_queries = λ key cache. [] }

abbrev client : Client (List (List String))
client = record { device = device; cache = current_user_key ∷ []; revoked = [] }

abbrev revocation_fails : String → Reply Code Unit
revocation_fails _ = err Code.unavailable

abbrev signed_off : Client (List (List String))
signed_off = (logout queries online revocation_fails client).1

logout-ends_example :
    (((logout queries online revocation_fails client).0 ≡ ok tt)
      × (online.read_fault ≡ none)
      × (online.delete_fault ≡ none)
      × (signed_off.device.session.status ≡ Status.signed_out)
      × (signed_off.device.access_token ≡ none)
      × (signed_off.device.keychain ≡ none)
      × (signed_off.cache ≡ queries.empty)
      × (signed_off.revoked ≡ "r1" ∷ []))
    ⊎ ((e : Code) × (online.read_fault ≡ some e)
        × (logout queries online revocation_fails client ≡ (err e, client)))
    ⊎ ((e : Code) × (online.delete_fault ≡ some e)
        × ((logout queries online revocation_fails client).0 ≡ err e)
        × (signed_off.device.session ≡ client.device.session)
        × (signed_off.device.keychain ≡ client.device.keychain)
        × (signed_off.device.access_token ≡ none)
        × (signed_off.cache ≡ client.cache)
        × (signed_off.revoked ≡ "r1" ∷ []))
logout-ends_example = logout-ends queries online client revocation_fails

-- The layout is mounted with the session still to be decided, and later shows the tabs.
abbrev waiting : Device
waiting = record device { session = Session.init }

abbrev waiting_out : Device
waiting_out = record device { session = record session { status = Status.signed_out } }

commit-start_example :
    ((commit (start_app offline (mount waiting))).splash_held ≡ false)
    × (((screens (commit (start_app offline (mount waiting))).rendered ≡ tabs ∷ index ∷ [])
          × (redirect (commit (start_app offline (mount waiting))).rendered ≡ "/home"))
        ⊎ ((screens (commit (start_app offline (mount waiting))).rendered ≡ auth ∷ index ∷ [])
            × (redirect (commit (start_app offline (mount waiting))).rendered ≡ "/login")))
commit-start_example = commit-start offline waiting refl

abbrev inside : Root
inside = commit (record (mount waiting) { device = device })

abbrev browsing : Root
browsing = record inside { queries = "recent-items" ∷ inside.queries }

abbrev left : Root
left = commit (record browsing { device = waiting_out })

Reach-signed_out_example :
    (screens left.rendered ≡ auth ∷ index ∷ []) × (left.queries ≡ []) × (left.splash_held ≡ false)
unfolding commit
Reach-signed_out_example =
    Reach-signed_out {r = left}
      (Guards.next
        (Guards.next
          (Guards.next
            (Guards.next
              (Guards.next (Guards.here waiting refl) (Guards.acts device (mount waiting)))
              (Guards.commits (record (mount waiting) { device = device })))
            (Guards.caches "recent-items" inside refl))
          (Guards.acts waiting_out browsing))
        (Guards.commits (record browsing { device = waiting_out })))
      refl
