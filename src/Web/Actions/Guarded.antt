-- ===== src/Web/Actions/Guarded.antt =====
-- The actions behind the same-origin check.
use dropbox_go_grpc_microser.Prelude.{
  String, ◌≡◌, ◌⊎◌, ◌↔◌, refl, Bool, true, false, Option, none, some, arith, present, eq_iff, inl,
  inr, Option-cases,
}
use dropbox_go_grpc_microser.Exec.{Reply, ok, err}
use dropbox_go_grpc_microser.Web.Cookies.{
  access_token_cookie_name, refresh_token_cookie_name, cookie_value,
}
use dropbox_go_grpc_microser.Web.Gate.Passes.{
  cookie_value-set_auth_cookies, cookie_value-clear_auth_cookies,
}
use dropbox_go_grpc_microser.Web.Actions.{
  Headers, allowed_site, is_same_origin_request, AuthResponse, Server, sign_in_action,
  logout_action,
}

abbrev Allowed : Option String → Type 0
Allowed site = (site ≡ none) ⊎ (site ≡ some "same-origin") ⊎ (site ≡ some "same-site")

allowed_site_iff : (site : Option String) → allowed_site site ≡ true → Allowed site
allowed_site_iff none h = inl refl
allowed_site_iff (some site) h = ground (arith, eq_iff site "same-origin", eq_iff site "same-site")

allowed_site-true : (site : Option String) → Allowed site → allowed_site site ≡ true
allowed_site-true none h = refl
allowed_site-true (some site) h = ground (arith, eq_iff site "same-origin", eq_iff site "same-site")

-- A request is taken for the site's own exactly when it names an origin and a host, the origin's host
-- is that host, and the browser, where it says so, calls it same-origin or same-site.
pub is_same_origin_request_iff :
    (url_host : String → Option String) (h : Headers)
    → (is_same_origin_request url_host h ≡ true) ↔ (
        (origin : String) × (host : String) × (present h.origin ≡ some origin)
        × (present h.host ≡ some host)
        × (url_host origin ≡ some host)
        × ((present h.sec_fetch_site ≡ none)
            ⊎ (present h.sec_fetch_site ≡ some "same-origin")
            ⊎ (present h.sec_fetch_site ≡ some "same-site")))
unfolding is_same_origin_request
is_same_origin_request_iff url_host h = (
  (λ passed. elim (Option-cases (present h.origin)) [
    | inl nothing ↦ absurd (ground arith)
    | inr (origin, from) ↦ elim (Option-cases (present h.host)) [
      | inl nothing ↦ absurd (ground arith)
      | inr (host, at_host) ↦ elim (Option-cases (url_host origin)) [
        | inl nothing ↦ absurd (ground arith)
        | inr (name, parsed) ↦ (
          origin,
          host,
          from,
          at_host,
          ground (arith, eq_iff name host),
          allowed_site_iff (present h.sec_fetch_site) (ground arith),
        )
      ]
    ]
  ]),
  (λ (origin, host, from, at_host, parsed, site).
      ground (arith, eq_iff host host, allowed_site-true (present h.sec_fetch_site) site)),
)

module _ {E : Type 0} (csrf_failed : E) (url_host : String → Option String) (production : Bool)
    (h : Headers) (s : Server) where
  -- A request of another site changes nothing: no service is called and no cookie set or cleared.
  pub actions-refuse :
      (answer : Reply E AuthResponse) (revocation : Reply E Unit)
      → is_same_origin_request url_host h ≡ false
      → (sign_in_action csrf_failed url_host production h answer s ≡ (err csrf_failed, s))
        × (logout_action csrf_failed url_host production h revocation s ≡ (err csrf_failed, s))
  unfolding sign_in_action logout_action
  actions-refuse answer revocation foreign = ground arith

  -- Signing in sets both cookies to the tokens of the answer.
  pub sign_in_action-ok :
      (response : AuthResponse)
      → is_same_origin_request url_host h ≡ true
      → (cookie_value
            (access_token_cookie_name production)
            (sign_in_action csrf_failed url_host production h (ok response) s).1.jar
          ≡ some response.access_token)
        × (cookie_value
              (refresh_token_cookie_name production)
              (sign_in_action csrf_failed url_host production h (ok response) s).1.jar
            ≡ some response.refresh_token)
  unfolding sign_in_action
  sign_in_action-ok response own = ground (
    arith,
    cookie_value-set_auth_cookies production response.access_token response.refresh_token s.jar,
  )

  -- Signing out clears both cookies, whatever the service answers to the revocation.
  pub logout_action-clears :
      (revocation : Reply E Unit)
      → is_same_origin_request url_host h ≡ true
      → ((logout_action csrf_failed url_host production h revocation s).0 ≡ ok tt)
        × (cookie_value
              (access_token_cookie_name production)
              (logout_action csrf_failed url_host production h revocation s).1.jar
            ≡ none)
        × (cookie_value
              (refresh_token_cookie_name production)
              (logout_action csrf_failed url_host production h revocation s).1.jar
            ≡ none)
  unfolding logout_action
  logout_action-clears revocation own = ground (
    arith,
    cookie_value-clear_auth_cookies production (access_token_cookie_name production) s.jar,
    cookie_value-clear_auth_cookies production (refresh_token_cookie_name production) s.jar,
    eq_iff (access_token_cookie_name production) (access_token_cookie_name production),
    eq_iff (refresh_token_cookie_name production) (refresh_token_cookie_name production),
  )
