-- ===== src/Native/Flight.antt =====
-- `refreshAccessToken` of native/src/auth/tokenManager.ts with several callers: the rotations that
-- run, the promise that callers share, and the points at which a rotation waits. A promise is the
-- number of the rotation that it belongs to.
pub mod Single
use dropbox_go_grpc_microser.Prelude.{
  ℕ, suc, String, true, false, not, Option, none, some, List, [], ◌∷◌, ◌++◌, present, keep, ◌==◌,
  if◌then◌else◌,
}
use dropbox_go_grpc_microser.Exec.{Reply, ok, err}
use dropbox_go_grpc_microser.Native.Session.{Status}
use dropbox_go_grpc_microser.Native.Tokens.{
  Device, TokenPair, World, rejects, expiry_from_token, set_session,
}

-- Where a rotation waits: for the keychain's answer, for the auth service's, for the keychain to
-- store the pair or to delete the token; or it has an answer, and its `finally` is to run.
pub data Phase (E : Type 0) : Type 0 where
  reading : Phase E
  exchanging : (token : String) → Phase E
  storing : (pair : TokenPair) → Phase E
  clearing : (e : E) → Phase E
  answered : Reply E String → Phase E

pub record Rotation (E : Type 0) : Type 0 where
  pub promise : ℕ
  pub phase : Phase E

pub record App (E : Type 0) : Type 0 where
  pub device : Device
  pub in_flight : Option ℕ
  pub next : ℕ
  pub running : List (Rotation E)
  -- What each settled promise was settled with, newest first.
  pub settled : List (ℕ × Reply E String)

abbrev drop_access : Device → Device
drop_access d = record d { access_token = none; access_token_expires_at = 0 }

module _ {E : Type 0} where
  -- `inFlightRefresh ??= rotateRefreshToken().finally(…)`, and the promise that the caller gets.
  unfoldable pub refresh_access_token : App E → ℕ × App E
  refresh_access_token a = elim a.in_flight [
    | some promise ↦ (promise, a)
    | none ↦ (
      a.next,
      record a {
        in_flight = some a.next;
        next = suc a.next;
        running = record { promise = a.next; phase = reading } ∷ a.running;
      },
    )
  ]

  -- `expiryFromToken` and the assignments of `setTokens` and `clearTokens`, before their `await`.
  abbrev hold : World E → TokenPair → Device → Device
  hold w pair d = record d {
    access_token = some pair.access_token;
    access_token_expires_at = expiry_from_token w pair.access_token;
  }

  abbrev sign_out : World E → Device → Device
  sign_out w d = (set_session w Status.signed_out d).1

  -- The `catch` of `rotateRefreshToken`, up to its `await`.
  unfoldable pub caught : World E → E → Device → Phase E × Device
  caught w e d = elim (rejects (w.code_of e)) [
    | true ↦ (clearing e, drop_access d)
    | false ↦ (answered (err e), d)
  ]

  abbrev from_keychain : World E → Device → Option String → Phase E × Device
  from_keychain w d none = (answered (err w.no_token), sign_out w d)
  from_keychain w d (some token) =
      (exchanging token, record d { presented = d.presented ++ token ∷ [] })

  abbrev received : World E → Device → Reply E TokenPair → Phase E × Device
  received w d (ok pair) = (storing pair, hold w pair d)
  received w d (err e) = caught w e d

  -- A rotation goes on from where it waits to where it waits next, once what it waits for is there.
  unfoldable pub resume : World E → Phase E → Device → Phase E × Device
  unfolding caught
  resume w reading d = elim w.read_fault [
    | some e ↦ (answered (err e), d)
    | none ↦ from_keychain w d (present d.keychain)
  ]
  resume w (exchanging token) d = received w d (w.refresh_token token)
  resume w (storing pair) d = elim w.write_fault [
    | some e ↦ caught w e d
    | none ↦ (answered (ok pair.access_token), record d { keychain = some pair.refresh_token })
  ]
  resume w (clearing e) d = elim w.delete_fault [
    | some fault ↦ (answered (err fault), d)
    | none ↦ (answered (err e), sign_out w (record d { keychain = none }))
  ]
  resume w (answered r) d = (answered r, d)

  abbrev pub pick : ℕ → List (Rotation E) → Option (Phase E)
  pick p [] = none
  pick p (r ∷ rs) = if r.promise == p then some r.phase else pick p rs

  abbrev pub replace : ℕ → Phase E → List (Rotation E) → List (Rotation E)
  replace p phase [] = []
  replace p phase (r ∷ rs) =
      if r.promise == p then record r { phase = phase } ∷ rs else r ∷ replace p phase rs

  -- The rotation of a promise goes on by one step.
  unfoldable pub advance : World E → ℕ → App E → App E
  unfolding resume
  advance w p a = elim (pick p a.running) [
    | none ↦ a
    | some phase ↦
        let (phase', d) = resume w phase a.device in
        record a { device = d; running = replace p phase' a.running }
  ]

  -- The `finally` of a rotation that has its answer: the promise is settled with it.
  unfoldable pub finish : ℕ → App E → App E
  finish p a = elim (pick p a.running) [
    | some (answered r) ↦ record a {
      in_flight = none;
      running = keep (λ r. not (r.promise == p)) a.running;
      settled = (p, r) ∷ a.settled;
    }
    | _ ↦ a
  ]
