-- ===== src/Web/Profile/Initials.antt =====
-- Where the two components agree.
use dropbox_go_grpc_microser.Prelude.{
  ℕ, String, ◌≡◌, ◌⊎◌, inr, refl, true, Bool, Option, none, some, arith,
}
use dropbox_go_grpc_microser.Web.Profile.{
  CurrentUser, user, get_initials, use_auth, button_initials, header_initials,
}

module _ (to_upper_case : ℕ → String) where
  get_initials-fallback :
      (a b : String) (name : Option String)
      → (get_initials to_upper_case a name ≡ get_initials to_upper_case b name)
        ⊎ ((get_initials to_upper_case a name ≡ a) × (get_initials to_upper_case b name ≡ b))
  unfolding get_initials
  get_initials-fallback a b none = inr (refl, refl)
  get_initials-fallback a b (some name) = ground arith

  -- Of a user that is signed in, the button and the header show the same initials, or each what it shows
  -- without a name; who is signed in is a user that the state has.
  pub button_initials-header_initials :
      (u : CurrentUser) (is_loading is_fetching : Bool)
      → let state = use_auth (user u) is_loading is_fetching in
        ((button_initials to_upper_case state ≡ header_initials to_upper_case state)
          ⊎ ((button_initials to_upper_case state ≡ "U")
              × (header_initials to_upper_case state ≡ "AS")))
        × (state.is_authenticated ≡ true)
        × (state.current_user ≡ some u)
  unfolding button_initials header_initials use_auth
  button_initials-header_initials u is_loading is_fetching =
      (get_initials-fallback "U" "AS" (some u.name), refl, refl)
