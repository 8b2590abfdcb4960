-- ===== src/Native/Session.antt =====
-- native/src/auth/session.ts: the session status and the listeners on it. A listener is a number;
-- that a listener ran is an entry of `notified`, newest last.
pub mod Laws
use dropbox_go_grpc_microser.Prelude.{
  ℕ, Bool, true, false, List, [], ◌∷◌, ◌++◌, not, ◌==◌, any, keep, if◌then◌else◌,
}

pub data Status : Type 0 where
  loading signed_in signed_out : Status

pub record Session : Type 0 where
  pub status : Status
  pub listeners : List ℕ
  pub notified : List (ℕ × Status)

abbrev pub init : Session
init = record { status = loading; listeners = []; notified = [] }

-- `next === status`
abbrev pub same_status : Status → Status → Bool
same_status loading loading = true
same_status signed_in signed_in = true
same_status signed_out signed_out = true
same_status _ _ = false

abbrev pub tell : Status → List ℕ → List (ℕ × Status)
tell next [] = []
tell next (l ∷ ls) = (l, next) ∷ tell next ls

-- session.get
abbrev pub get : Session → Status
get s = s.status

-- session.set
unfoldable pub set : Status → Session → Session
set next s =
    if same_status next s.status
    then s
    else record s { status = next; notified = s.notified ++ tell next s.listeners }

-- session.subscribe: a `Set` keeps one copy, in the order of the first addition.
unfoldable pub subscribe : ℕ → Session → Session
subscribe l s =
    if any (λ k. k == l) s.listeners then s else record s { listeners = s.listeners ++ l ∷ [] }

-- What `subscribe` returns.
unfoldable pub unsubscribe : ℕ → Session → Session
unsubscribe l s = record s { listeners = keep (λ k. not (k == l)) s.listeners }
