-- ===== src/Native/Root/Guards.antt =====
-- What the guards let the user see, and what of the cache is left.
use dropbox_go_grpc_microser.Prelude.{
  String, ◌≡◌, ◌⊎◌, inl, inr, refl, true, false, none, some, [], ◌∷◌, arith, present, eq_refl,
  Bool-cases,
}
use dropbox_go_grpc_microser.Exec.{err}
use dropbox_go_grpc_microser.Native.Session.{Status}
use dropbox_go_grpc_microser.Native.Tokens.{
  Device, World, rejects, fresh_token, get_valid_access_token,
}
use dropbox_go_grpc_microser.Native.Tokens.Bootstrap.{bootstrap_session-settles}
use dropbox_go_grpc_microser.Native.Tokens.Rotation.{rotate_refresh_token-rejected}
use dropbox_go_grpc_microser.Native.Root.{
  Root, tabs, auth, index, mount, commit, screens, redirect, start, on_change,
  set_focused_from_app_state,
}

-- What happens to a mounted layout: the token manager and the account flows change the device, the layout
-- renders, a screen of the tabs caches a query, and the app's state changes.
pub data Step : Root → Root → Type 0 where
  acts : (device : Device) (r : Root) → Step r (record r { device = device })
  commits : (r : Root) → Step r (commit r)
  caches :
      (query : String) (r : Root)
      → r.rendered ≡ Status.signed_in
      → Step r (record r { queries = query ∷ r.queries })
  focuses : (next_state : String) (r : Root) → Step r (set_focused_from_app_state next_state r)

pub data Reach : Root → Type 0 where
  here : (device : Device) → device.session.status ≡ Status.loading → Reach (mount device)
  next : {q r : Root} → Reach q → Step q r → Reach r

-- With the sign-in stack, no query is in memory; the splash is held over nothing but an empty screen.
abbrev pub IsGuarded : Root → Type 0
IsGuarded r =
    (r.rendered ≡ Status.signed_out → r.queries ≡ [])
    × (r.splash_held ≡ true → screens r.rendered ≡ [])

Reach-IsGuarded : {r : Root} → Reach r → IsGuarded r
unfolding commit screens set_focused_from_app_state
Reach-IsGuarded (here device waits) = (λ out. refl, λ held. ground arith)
Reach-IsGuarded (next r (acts device q)) = Reach-IsGuarded r
Reach-IsGuarded (next r (commits q)) =
    let (empty, held) = Reach-IsGuarded r in
    (λ out. ground (arith, empty), λ holds. ground (arith, held))
Reach-IsGuarded (next r (caches query q inside)) =
    let (empty, held) = Reach-IsGuarded r in (λ out. ground arith, held)
Reach-IsGuarded (next r (focuses next_state q)) = Reach-IsGuarded r

-- Whatever the token manager, the account flows, the screens of the tabs and the app's state do, in any
-- order, the sign-in stack is never shown with a query of the earlier user in the cache, nor under the
-- splash.
pub Reach-signed_out :
    {r : Root}
    → Reach r
    → r.rendered ≡ Status.signed_out
    → (screens r.rendered ≡ auth ∷ index ∷ []) × (r.queries ≡ []) × (r.splash_held ≡ false)
unfolding screens
Reach-signed_out {r = r} h out =
    let (empty, held) = Reach-IsGuarded h in
    (
      ground arith,
      empty out,
      elim (Bool-cases r.splash_held) [
        | inl holds ↦ let nothing = held holds in absurd (ground arith)
        | inr gone ↦ gone
      ],
    )

module _ {E : Type 0} (w : World E) where
  -- However the keychain and the auth service answer, the start ends with the splash hidden and with one
  -- of the two stacks, and the entry route forwards into it.
  pub commit-start :
      (device : Device)
      → device.session.status ≡ Status.loading
      → let r = commit (start w (mount device)) in
        (r.splash_held ≡ false)
        × (((screens r.rendered ≡ tabs ∷ index ∷ []) × (redirect r.rendered ≡ "/home"))
            ⊎ ((screens r.rendered ≡ auth ∷ index ∷ []) × (redirect r.rendered ≡ "/login")))
  unfolding commit start screens redirect
  commit-start device waits = elim ((bootstrap_session-settles w device).1) [
    | inl inside ↦ (ground arith, inl (ground arith, ground arith))
    | inr outside ↦ (ground arith, inr (ground arith, ground arith))
  ]

  -- A token that the server rejects when the app comes to the foreground, with an access token that is
  -- spent, takes the user to the sign-in stack, with no query and no token left.
  pub commit-on_change :
      (r : Root) (old : String) (e : E)
      → r.rendered ≡ Status.signed_in
      → r.device.session.status ≡ Status.signed_in
      → fresh_token w r.device ≡ none
      → w.read_fault ≡ none
      → w.delete_fault ≡ none
      → present r.device.keychain ≡ some old
      → w.refresh_token old ≡ err e
      → rejects (w.code_of e) ≡ true
      → let after = commit (on_change w "active" r) in
        (screens after.rendered ≡ auth ∷ index ∷ [])
        × (after.queries ≡ [])
        × (after.device.access_token ≡ none)
        × (after.device.keychain ≡ none)
  unfolding commit on_change screens get_valid_access_token
  commit-on_change r old e shown inside spent read deleted found answered hard =
      let (raised, out, no_token, no_key) =
        rotate_refresh_token-rejected w r.device old e read deleted found answered hard in
      (
        ground (arith, eq_refl "active"),
        ground (arith, eq_refl "active"),
        ground (arith, eq_refl "active"),
        ground (arith, eq_refl "active"),
      )
