-- ===== src/Native/Account/Flows.antt =====
-- Signing in and out: what the session, the tokens and the cache are afterwards.
use dropbox_go_grpc_microser.Prelude.{
  String, ◌≡◌, ◌⊎◌, inl, inr, Option-cases, none, some, [], ◌∷◌, ◌++◌, arith, present, append-nil,
}
use dropbox_go_grpc_microser.Exec.{Reply, ok, err}
use dropbox_go_grpc_microser.Text.{trim}
use dropbox_go_grpc_microser.Native.Session.{Status}
use dropbox_go_grpc_microser.Native.Session.Laws.{status-set}
use dropbox_go_grpc_microser.Native.Tokens.{
  World, set_tokens, get_valid_access_token, bootstrap_session,
}
use dropbox_go_grpc_microser.Native.Account.{
  AuthResponse, Queries, Client, current_user_key, login, register, logout,
}

module _ {E : Type 0} (q : Queries) (w : World E) (c : Client q.Cache) where
  -- After a login the session is signed in, both tokens are stored, the previous user is out of the
  -- cache, and the email was sent trimmed.
  pub login-ok :
      (rpc : String → String → Reply E AuthResponse) (email password : String)
      (response : AuthResponse)
      → (login q w rpc email password c).0 ≡ ok response
      → (rpc (trim email) password ≡ ok response)
        × ((login q w rpc email password c).1.device.session.status ≡ Status.signed_in)
        × ((login q w rpc email password c).1.device.access_token ≡ some response.access_token)
        × ((login q w rpc email password c).1.device.keychain ≡ some response.refresh_token)
        × ((login q w rpc email password c).1.cache ≡ q.remove_queries current_user_key c.cache)
  unfolding login set_tokens
  login-ok rpc email password response h =
      ground (arith, status-set Status.signed_in c.device.session)

  -- A login that fails leaves the session and the cache as they were, whether the service refuses it
  -- or the keychain cannot store the pair.
  pub login-err :
      (rpc : String → String → Reply E AuthResponse) (email password : String) (e : E)
      → (login q w rpc email password c).0 ≡ err e
      → ((login q w rpc email password c).1.device.session ≡ c.device.session)
        × ((login q w rpc email password c).1.cache ≡ c.cache)
        × ((login q w rpc email password c).1.device.keychain ≡ c.device.keychain)
  unfolding login set_tokens
  login-err rpc email password e h = ground arith

  -- Registering signs in as a login does: the same response leaves the same client.
  pub register-eq-login :
      (rpc : String → String → Reply E AuthResponse)
      (new : String → String → String → Reply E AuthResponse) (name email password : String)
      → new (trim name) (trim email) password ≡ rpc (trim email) password
      → register q w new name email password c ≡ login q w rpc email password c
  unfolding register login
  register-eq-login rpc new name email password same = rw same

  -- Signing out works where the keychain can be read and written, whatever the service says to the
  -- revocation: the tokens are gone, the cache is empty, the status is signed out, and a stored token was
  -- presented for revocation.
  pub logout-signs_out :
      (rpc : String → Reply E Unit)
      → w.read_fault ≡ none
      → w.delete_fault ≡ none
      → ((logout q w rpc c).0 ≡ ok tt)
        × ((logout q w rpc c).1.device.session.status ≡ Status.signed_out)
        × ((logout q w rpc c).1.device.access_token ≡ none)
        × ((logout q w rpc c).1.device.keychain ≡ none)
        × ((logout q w rpc c).1.cache ≡ q.empty)
        × ((logout q w rpc c).1.revoked
            ≡ (c.revoked ++ elim (present c.device.keychain) [ none ↦ [] | some t ↦ t ∷ [] ]))
  unfolding logout
  logout-signs_out rpc read deleted =
      ground (arith, status-set Status.signed_out c.device.session, append-nil c.revoked)

  -- A sign-out whatever the keychain and the service do. It comes to its end, with the tokens gone, the
  -- cache empty, the status signed out and the stored token presented for revocation; or the keychain
  -- cannot be read, and nothing has changed; or it cannot delete the token, and that one, the session and
  -- the cache stay, while the access token is gone and the revocation was asked for.
  pub logout-ends :
      (rpc : String → Reply E Unit)
      → let after = (logout q w rpc c).1 in
        let asked = c.revoked ++ elim (present c.device.keychain) [ none ↦ [] | some t ↦ t ∷ [] ] in
        (((logout q w rpc c).0 ≡ ok tt)
          × (w.read_fault ≡ none)
          × (w.delete_fault ≡ none)
          × (after.device.session.status ≡ Status.signed_out)
          × (after.device.access_token ≡ none)
          × (after.device.keychain ≡ none)
          × (after.cache ≡ q.empty)
          × (after.revoked ≡ asked))
        ⊎ ((e : E) × (w.read_fault ≡ some e) × (logout q w rpc c ≡ (err e, c)))
        ⊎ ((e : E) × (w.delete_fault ≡ some e)
            × ((logout q w rpc c).0 ≡ err e)
            × (after.device.session ≡ c.device.session)
            × (after.device.keychain ≡ c.device.keychain)
            × (after.device.access_token ≡ none)
            × (after.cache ≡ c.cache)
            × (after.revoked ≡ asked))
  unfolding logout
  logout-ends rpc = elim (Option-cases w.read_fault) [
    | inr (e, unreadable) ↦ inr (inl (e, unreadable, ground arith))
    | inl readable ↦ elim (Option-cases w.delete_fault) [
      | inr (e, kept) ↦ inr (
          inr (
            e,
            kept,
            ground arith,
            ground arith,
            ground arith,
            ground arith,
            ground arith,
            ground (arith, append-nil c.revoked),
          ))
      | inl deleted ↦
          let (ended, status, gone, empty, cache, revoked) =
            logout-signs_out rpc readable deleted in
          inl (ended, readable, deleted, status, gone, empty, cache, revoked)
    ]
  ]

  -- Whoever signed out gets no token afterwards, and the next start of the app is signed out too.
  pub logout-get_valid_access_token :
      (rpc : String → Reply E Unit) (later : World E)
      → w.read_fault ≡ none
      → w.delete_fault ≡ none
      → ((get_valid_access_token later (logout q w rpc c).1.device).0 ≡ ok none)
        × ((bootstrap_session later (logout q w rpc c).1.device).1.session.status
            ≡ Status.signed_out)
  unfolding get_valid_access_token bootstrap_session
  logout-get_valid_access_token rpc later read deleted = ground (
    arith,
    logout-signs_out rpc read deleted,
    status-set Status.signed_out (logout q w rpc c).1.device.session,
  )
