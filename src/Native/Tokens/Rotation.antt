-- ===== src/Native/Tokens/Rotation.antt =====
-- The rotation of the refresh token: what each outcome leaves on the device.
use dropbox_go_grpc_microser.Prelude.{
  String, ◌≡◌, ◌≢◌, ◌↔◌, ◌⊎◌, Bool-cases, false, true, true, false, none, some, [], ◌∷◌, ◌++◌,
  arith, present, Option-cases, inl, inr,
}
use dropbox_go_grpc_microser.Exec.{ok, err, Reply-cases}
use dropbox_go_grpc_microser.Native.Session.{Status}
use dropbox_go_grpc_microser.Native.Session.Laws.{status-set}
use dropbox_go_grpc_microser.Native.Tokens.{
  Device, TokenPair, World, expiry_from_token, rejects, present_token, after_failed_rotation,
  rotate_refresh_token,
}

module _ {E : Type 0} (w : World E) (d : Device) where
  -- A rotation that succeeds has presented the stored token once, returns the new access token, and
  -- leaves the new pair in memory and in the keychain; the session is as it was.
  pub rotate_refresh_token-eq_ok :
      (token : String)
      → (rotate_refresh_token w d).0 ≡ ok token
      → (old : String) × (present d.keychain ≡ some old)
        × (pair : TokenPair) × (w.refresh_token old ≡ ok pair)
        × (token ≡ pair.access_token)
        × ((rotate_refresh_token w d).1 ≡ record {
          access_token = some pair.access_token;
          access_token_expires_at = expiry_from_token w pair.access_token;
          keychain = some pair.refresh_token;
          session = d.session;
          presented = d.presented ++ old ∷ [];
        })
  unfolding rotate_refresh_token
  rotate_refresh_token-eq_ok token h = elim (Option-cases (present d.keychain)) [
    | inl missing ↦ absurd (ground arith)
    | inr (old, found) ↦ elim (Reply-cases (w.refresh_token old)) [
      | inl (pair, answered) ↦ (old, found, pair, answered, ground arith, ground arith)
      | inr (e, refused) ↦ absurd (ground arith)
    ]
  ]

  -- A rotation that fails on a stored token, with an error by which the server does not reject the
  -- token, leaves the session and the keychain as they were.
  pub rotate_refresh_token-keeps :
      (old : String) (e : E)
      → present d.keychain ≡ some old
      → (rotate_refresh_token w d).0 ≡ err e
      → rejects (w.code_of e) ≡ false
      → ((rotate_refresh_token w d).1.session ≡ d.session)
        × ((rotate_refresh_token w d).1.keychain ≡ d.keychain)
  unfolding rotate_refresh_token
  rotate_refresh_token-keeps old e found h soft = ground arith

  -- Where the keychain can be read and written, a token that the server rejects ends the session: the
  -- caller gets the server's error, the status is signed out, and no token is left in memory or in the
  -- keychain.
  pub rotate_refresh_token-rejected :
      (old : String) (e : E)
      → w.read_fault ≡ none
      → w.delete_fault ≡ none
      → present d.keychain ≡ some old
      → w.refresh_token old ≡ err e
      → rejects (w.code_of e) ≡ true
      → ((rotate_refresh_token w d).0 ≡ err e)
        × ((rotate_refresh_token w d).1.session.status ≡ Status.signed_out)
        × ((rotate_refresh_token w d).1.access_token ≡ none)
        × ((rotate_refresh_token w d).1.keychain ≡ none)
  unfolding rotate_refresh_token
  rotate_refresh_token-rejected old e read deleted found answered hard =
      ground (arith, status-set Status.signed_out d.session)

  rotation_failed :
      (old : String) (e : E)
      → w.read_fault ≡ none
      → present d.keychain ≡ some old
      → (present_token w old d).0 ≡ err e
      → rotate_refresh_token w d ≡ after_failed_rotation w e (present_token w old d).1
  unfolding rotate_refresh_token
  rotation_failed old e read found failed = ground arith

  rotation_rotated :
      (old token : String)
      → w.read_fault ≡ none
      → present d.keychain ≡ some old
      → (present_token w old d).0 ≡ ok token
      → (rotate_refresh_token w d).1.session ≡ (present_token w old d).1.session
  unfolding rotate_refresh_token
  rotation_rotated old token read found rotated = ground arith

  present_token-session : (old : String) → (present_token w old d).1.session ≡ d.session
  unfolding present_token
  present_token-session old = ground arith

  -- A status that changed after the presentation failed.
  ended :
      (old : String) (e : E)
      → w.read_fault ≡ none
      → present d.keychain ≡ some old
      → (present_token w old d).0 ≡ err e
      → d.session.status ≢ Status.signed_out
      → (rotate_refresh_token w d).1.session.status ≡ Status.signed_out
      → (rejects (w.code_of e) ≡ true)
        × (w.delete_fault ≡ none)
        × ((rotate_refresh_token w d).0 ≡ err e)
        × ((rotate_refresh_token w d).1.keychain ≡ none)
        × ((rotate_refresh_token w d).1.access_token ≡ none)
  unfolding after_failed_rotation
  ended old e read found failed awake out =
      let gone = rotation_failed old e read found failed in
      let left = present_token-session old in
      elim (Bool-cases (rejects (w.code_of e))) [
        | inr soft ↦ absurd (ground (arith, gone, left))
        | inl hard ↦ elim (Option-cases w.delete_fault) [
          | inr (fault, kept) ↦ absurd (ground (arith, gone, left))
          | inl deleted ↦ (hard, deleted, ground arith, ground arith, ground arith)
        ]
      ]

  -- A rotation signs out a session that was not so exactly in two cases. The keychain was read and has no
  -- token: then the device keeps what it has. Or presenting the stored token failed, with an error that
  -- counts as a rejection, and the keychain could delete the token: then the caller gets that error, and no
  -- token is left in memory or in the keychain.
  pub rotate_refresh_token-signed_out_iff :
      d.session.status ≢ Status.signed_out
      → ((rotate_refresh_token w d).1.session.status ≡ Status.signed_out) ↔ (
          ((w.read_fault ≡ none)
            × (present d.keychain ≡ none)
            × ((rotate_refresh_token w d).0 ≡ err w.no_token)
            × ((rotate_refresh_token w d).1.keychain ≡ d.keychain)
            × ((rotate_refresh_token w d).1.access_token ≡ d.access_token))
          ⊎ ((old : String) × (e : E) × (w.read_fault ≡ none)
              × (present d.keychain ≡ some old)
              × ((present_token w old d).0 ≡ err e)
              × (rejects (w.code_of e) ≡ true)
              × (w.delete_fault ≡ none)
              × ((rotate_refresh_token w d).0 ≡ err e)
              × ((rotate_refresh_token w d).1.keychain ≡ none)
              × ((rotate_refresh_token w d).1.access_token ≡ none)))
  unfolding rotate_refresh_token
  rotate_refresh_token-signed_out_iff awake = (
    λ h. elim (Option-cases w.read_fault) [
      | inr (e, fault) ↦ absurd (ground arith)
      | inl read ↦ elim (Option-cases (present d.keychain)) [
        | inl missing ↦ inl (read, missing, ground arith, ground arith, ground arith)
        | inr (old, found) ↦
            let left = present_token-session old in
            elim (Reply-cases (present_token w old d).0) [
              | inl (token, rotated) ↦
                  let same = rotation_rotated old token read found rotated in
                  absurd (ground (arith, same, left))
              | inr (e, failed) ↦
                  let (hard, deleted, error, kept, memory) =
                    ended old e read found failed awake h in
                  inr (old, e, read, found, failed, hard, deleted, error, kept, memory)
            ]
      ]
    ],
    λ h. elim h [
      | inl (read, missing, error, kept, memory) ↦
          ground (arith, status-set Status.signed_out d.session)
      | inr (old, e, read, found, failed, hard, deleted, error, kept, memory) ↦
          let gone = rotation_failed old e read found failed in
          let left = present_token-session old in
          ground (arith, gone, left, status-set Status.signed_out d.session)
    ],
  )

  -- One rotation presents one token at most, and then the one that is stored.
  pub rotate_refresh_token-presents_once :
      ((rotate_refresh_token w d).1.presented ≡ d.presented)
      ⊎ ((old : String) × (d.keychain ≡ some old)
          × ((rotate_refresh_token w d).1.presented ≡ d.presented ++ old ∷ []))
  unfolding rotate_refresh_token
  rotate_refresh_token-presents_once = elim (Option-cases (present d.keychain)) [
    | inl missing ↦ inl (ground arith)
    | inr (old, found) ↦ elim (Option-cases w.read_fault) [
      | inl read ↦ inr (old, ground arith, ground arith)
      | inr (e, fault) ↦ inl (ground arith)
    ]
  ]
