-- ===== src/Native/Tokens/Bootstrap.antt =====
-- The app's starting state.
use dropbox_go_grpc_microser.Prelude.{String, ◌≡◌, ◌≢◌, ◌⊎◌, ◌↔◌, true, none, arith, present}
use dropbox_go_grpc_microser.Exec.{Reply, ok, err}
use dropbox_go_grpc_microser.Native.Session.{Status}
use dropbox_go_grpc_microser.Native.Session.Laws.{status-set}
use dropbox_go_grpc_microser.Native.Tokens.{
  Device, World, is_network_error, rotate_refresh_token, bootstrap_session,
}

-- The rotation succeeded, or failed by the network.
abbrev pub Survives : {E : Type 0} → World E → Reply E String → Type 0
Survives w (ok token) = Unit
Survives w (err e) = is_network_error w e ≡ true

module _ {E : Type 0} (w : World E) (d : Device) where
  -- The start never rejects, and decides the session one way or the other.
  pub bootstrap_session-settles :
      ((bootstrap_session w d).0 ≡ ok tt)
      × (((bootstrap_session w d).1.session.status ≡ Status.signed_in)
          ⊎ ((bootstrap_session w d).1.session.status ≡ Status.signed_out))
  unfolding bootstrap_session
  bootstrap_session-settles = ground (
    arith,
    status-set Status.signed_out d.session,
    status-set Status.signed_in (rotate_refresh_token w d).1.session,
    status-set Status.signed_out (rotate_refresh_token w d).1.session,
  )

  -- The app starts signed in exactly when the keychain answers with a token, and the rotation of that
  -- token succeeds or fails by the network.
  pub bootstrap_session-signed_in_iff :
      ((bootstrap_session w d).1.session.status ≡ Status.signed_in) ↔ (
        (w.read_fault ≡ none)
        × (present d.keychain ≢ none)
        × Survives w (rotate_refresh_token w d).0)
  unfolding bootstrap_session
  bootstrap_session-signed_in_iff = ground (
    arith,
    status-set Status.signed_out d.session,
    status-set Status.signed_in (rotate_refresh_token w d).1.session,
    status-set Status.signed_out (rotate_refresh_token w d).1.session,
  )
