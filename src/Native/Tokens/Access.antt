-- ===== src/Native/Tokens/Access.antt =====
-- The access token of a call.
use dropbox_go_grpc_microser.Prelude.{
  ◌+◌, ◌<◌, String, ◌≡◌, ◌≢◌, ◌⊎◌, true, none, some, arith, truthy,
}
use dropbox_go_grpc_microser.Exec.{ok, err}
use dropbox_go_grpc_microser.Native.Session.{Status}
use dropbox_go_grpc_microser.Native.Tokens.{
  Device, World, expiry_skew_ms, expiry_from_token, set_tokens, rotate_refresh_token,
  get_valid_access_token,
}

module _ {E : Type 0} (w : World E) (d : Device) where
  -- A token that is handed out is either the one in memory, more than the skew before its expiry and
  -- with the device untouched, or the result of a rotation made while signed in.
  pub get_valid_access_token-eq_some :
      (token : String)
      → (get_valid_access_token w d).0 ≡ ok (some token)
      → ((d.access_token ≡ some token)
          × (w.now + expiry_skew_ms < d.access_token_expires_at)
          × ((get_valid_access_token w d).1 ≡ d))
        ⊎ ((d.session.status ≡ Status.signed_in)
            × (rotate_refresh_token w d ≡ (ok token, (get_valid_access_token w d).1)))
  unfolding get_valid_access_token
  get_valid_access_token-eq_some token h = ground arith

  -- No token is handed out only to a caller that is not signed in, and nothing is changed.
  pub get_valid_access_token-eq_none :
      (get_valid_access_token w d).0 ≡ ok none
      → (d.session.status ≢ Status.signed_in) × ((get_valid_access_token w d).1 ≡ d)
  unfolding get_valid_access_token
  get_valid_access_token-eq_none h = ground arith

  -- A pair that was stored serves the next call, while more than the skew is left to its expiry.
  pub get_valid_access_token-set_tokens :
      (access refresh : String)
      → truthy access ≡ true
      → w.now + expiry_skew_ms < expiry_from_token w access
      → (get_valid_access_token w (set_tokens w access refresh d).1).0 ≡ ok (some access)
  unfolding get_valid_access_token set_tokens
  get_valid_access_token-set_tokens access refresh named left = ground arith

  -- Where the keychain rejects the write, the new access token is handed out all the same, while
  -- the keychain still holds the old refresh token.
  pub set_tokens_unsaved :
      (access refresh : String) (e : E)
      → truthy access ≡ true
      → w.now + expiry_skew_ms < expiry_from_token w access
      → w.write_fault ≡ some e
      → ((set_tokens w access refresh d).0 ≡ err e)
        × ((set_tokens w access refresh d).1.keychain ≡ d.keychain)
        × ((get_valid_access_token w (set_tokens w access refresh d).1).0 ≡ ok (some access))
  unfolding get_valid_access_token set_tokens
  set_tokens_unsaved access refresh e named left fault = ground arith
