-- ===== src/Native/Tokens.antt =====
-- native/src/auth/tokenManager.ts: the token pair of the device. The access token is in memory,
-- the refresh token in the keychain (`SecureStore`). What the auth service, the keychain and the
-- clock answer is an argument, one `World` for each run of a function.
pub mod Rotation
pub mod Bootstrap
pub mod Access
use dropbox_go_grpc_microser.Prelude.{
  ℕ, ◌+◌, ◌-◌, ◌*◌, String, Bool, true, false, Option, none, some, List, [], ◌∷◌, ◌++◌, ◌||◌, ◌&&◌,
  ltb, present, if◌then◌else◌,
}
use dropbox_go_grpc_microser.Exec.{
  Reply, ok, err, Exec, pure, raise, lift, gets, modify, catch, ◌>>=◌, ◌>>◌,
}
use dropbox_go_grpc_microser.Rpc.{Code}
use dropbox_go_grpc_microser.Text.{codes}
use dropbox_go_grpc_microser.Native.Payload.{decode_jwt_payload}
use dropbox_go_grpc_microser.Native.Session
use dropbox_go_grpc_microser.Native.Session.{Session, Status}

pub record Device : Type 0 where
  pub access_token : Option String
  pub access_token_expires_at : ℕ
  pub keychain : Option String
  pub session : Session
  -- The refresh tokens presented to the auth service, newest last.
  pub presented : List String

abbrev pub init : Device
init = record {
  access_token = none;
  access_token_expires_at = 0;
  keychain = none;
  session = Session.init;
  presented = [];
}

abbrev pub expiry_skew_ms : ℕ
expiry_skew_ms = 60000

abbrev pub unknown_expiry_ms : ℕ
unknown_expiry_ms = 0

pub record TokenPair : Type 0 where
  pub access_token : String
  pub refresh_token : String

-- The claims that are read: `exp`, where it is a number (a negative or fractional one is left out).
pub record Claims : Type 0 where
  pub exp : Option ℕ

-- What the functions ask of the platform: the errors that calls may reject with, the keychain's
-- failures, the auth service's answer to a refresh token, the clock, and the claims that
-- `JSON.parse(globalThis.atob(text))` gives, `none` where it throws.
pub record World (E : Type 0) : Type 0 where
  pub code_of : E → Code
  pub no_token : E
  pub now : ℕ
  pub decode : List ℕ → Option Claims
  pub read_fault : Option E
  pub write_fault : Option E
  pub delete_fault : Option E
  pub refresh_token : String → Reply E TokenPair

-- `claims?.exp`
abbrev exp_claim : Option Claims → Option ℕ
exp_claim none = none
exp_claim (some claims) = claims.exp

-- An asynchronous call of the keychain that may reject, and else changes the device.
abbrev faulty : {E : Type 0} → Option E → (Device → Device) → Exec Device E Unit
faulty none f d = (ok tt, f d)
faulty (some e) f d = (err e, d)

-- `Code.Unavailable`, `Code.DeadlineExceeded` or `Code.Unknown`
abbrev network_code : Code → Bool
network_code Code.unavailable = true
network_code Code.deadline_exceeded = true
network_code Code.unknown = true
network_code _ = false

-- `Code.Unauthenticated` or `Code.PermissionDenied`
abbrev pub rejects : Code → Bool
rejects Code.unauthenticated = true
rejects Code.permission_denied = true
rejects _ = false

module _ {E : Type 0} (w : World E) where
  unfoldable pub expiry_from_token : String → ℕ
  unfolding decode_jwt_payload
  expiry_from_token token = elim (exp_claim (decode_jwt_payload w.decode (codes token))) [
    | none ↦ w.now + unknown_expiry_ms
    | some exp ↦ exp * 1000
  ]

  unfoldable pub set_tokens : String → String → Exec Device E Unit
  set_tokens access refresh = do
    modify (λ d. record d { access_token = some access })
    modify (λ d. record d { access_token_expires_at = expiry_from_token access })
    faulty w.write_fault (λ d. record d { keychain = some refresh })

  unfoldable pub get_stored_refresh_token : Exec Device E (Option String)
  get_stored_refresh_token = do faulty w.read_fault (λ d. d); gets (λ d. d.keychain)

  unfoldable pub clear_tokens : Exec Device E Unit
  clear_tokens = do
    modify (λ d. record d { access_token = none })
    modify (λ d. record d { access_token_expires_at = 0 })
    faulty w.delete_fault (λ d. record d { keychain = none })

  abbrev pub set_session : Status → Exec Device E Unit
  set_session next = modify (λ d. record d { session = Session.set next d.session })

  unfoldable pub is_network_error : E → Bool
  is_network_error e = network_code (w.code_of e)

  -- The `catch` of `rotateRefreshToken`.
  unfoldable pub after_failed_rotation : E → Exec Device E String
  unfolding clear_tokens
  after_failed_rotation e =
      if rejects (w.code_of e)
      then (do clear_tokens; set_session Status.signed_out; raise e)
      else raise e

  -- The body of its `try`: the token is presented, and the answer stored.
  unfoldable pub present_token : String → Exec Device E String
  unfolding set_tokens
  present_token token = do
    modify (λ d. record d { presented = d.presented ++ token ∷ [] })
    pair ← lift (w.refresh_token token)
    set_tokens pair.access_token pair.refresh_token
    pure pair.access_token

  abbrev rotate_stored : Option String → Exec Device E String
  rotate_stored none = do set_session Status.signed_out; raise w.no_token
  rotate_stored (some token) = catch (present_token token) after_failed_rotation

  unfoldable pub rotate_refresh_token : Exec Device E String
  unfolding get_stored_refresh_token present_token after_failed_rotation
  rotate_refresh_token = do stored ← get_stored_refresh_token; rotate_stored (present stored)

  -- `refreshAccessToken` where no refresh is in flight: the caller starts the rotation and waits for
  -- it. How callers share one rotation is in `Native.Flight`.
  abbrev pub refresh_access_token : Exec Device E String
  refresh_access_token = rotate_refresh_token

  -- The `catch` of `bootstrapSession`; `stored` is what was read when the error was thrown.
  abbrev after_failed_bootstrap : Option String → E → Exec Device E Unit
  after_failed_bootstrap none e = set_session Status.signed_out
  after_failed_bootstrap (some token) e =
      if is_network_error e then set_session Status.signed_in else set_session Status.signed_out

  abbrev bootstrap_stored : Option String → Exec Device E Unit
  bootstrap_stored none = set_session Status.signed_out
  bootstrap_stored (some token) =
      catch (do refresh_access_token; set_session Status.signed_in)
        (after_failed_bootstrap (some token))

  unfoldable pub bootstrap_session : Exec Device E Unit
  unfolding get_stored_refresh_token is_network_error
  bootstrap_session = λ d.
      let (stored, d') = get_stored_refresh_token d in
      elim stored [
        | err e ↦ after_failed_bootstrap none e d'
        | ok token ↦ bootstrap_stored (present token) d'
      ]

  -- `accessToken && Date.now() < accessTokenExpiresAt - EXPIRY_SKEW_MS`, with the skew on the
  -- other side, where no difference is taken.
  unfoldable pub fresh_token : Device → Option String
  fresh_token d = elim (present d.access_token) [
    | none ↦ none
    | some token ↦
        if ltb (w.now + expiry_skew_ms) d.access_token_expires_at then some token else none
  ]

  abbrev refresh_if : Status → Exec Device E (Option String)
  refresh_if Status.signed_in = do token ← refresh_access_token; pure (some token)
  refresh_if _ = pure none

  unfoldable pub get_valid_access_token : Exec Device E (Option String)
  unfolding fresh_token
  get_valid_access_token d = elim (fresh_token d) [
    | some token ↦ (ok (some token), d)
    | none ↦ refresh_if d.session.status d
  ]
