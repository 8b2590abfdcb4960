-- ===== src/Web/Gate/Passes.antt =====
-- Which requests pass the middleware.
use dropbox_go_grpc_microser.Prelude.{
  ℕ, ◌+◌, ◌*◌, ◌<◌, String, ◌≡◌, ◌⊎◌, ◌↔◌, refl, inl, inr, Bool, true, false, Option, none, some,
  List, [], ◌∷◌, arith, present, Option-cases, Bool-cases, str_eq, if◌then◌else◌,
}
use dropbox_go_grpc_microser.Exec.{Reply, ok, is_ok}
use dropbox_go_grpc_microser.Text.{codes}
use dropbox_go_grpc_microser.Native.Payload.{second_part}
use dropbox_go_grpc_microser.Dict.{erase, lookup-insert, lookup-erase}
use dropbox_go_grpc_microser.Web.Cookies.{
  Jar, access_token_cookie_name, refresh_token_cookie_name, set_auth_cookies, clear_auth_cookies,
  cookie_value,
}
use dropbox_go_grpc_microser.Web.Jwks.{Validation, valid, invalid}
use dropbox_go_grpc_microser.Web.Gate.{
  expiry, Pair, Answer, next, redirect, is_access_token_expired_or_missing, proxy,
}

-- After the cookies are set, both tokens are read back from them.
pub cookie_value-set_auth_cookies :
    (production : Bool) (access refresh : String) (jar : Jar)
    → (cookie_value
          (access_token_cookie_name production)
          (set_auth_cookies production access refresh jar)
        ≡ some access)
      × (cookie_value
            (refresh_token_cookie_name production)
            (set_auth_cookies production access refresh jar)
          ≡ some refresh)
unfolding cookie_value set_auth_cookies
cookie_value-set_auth_cookies true access refresh jar = (simp lookup-insert, simp lookup-insert)
cookie_value-set_auth_cookies false access refresh jar = (simp lookup-insert, simp lookup-insert)

-- After the cookies are cleared, neither token is there, and every other cookie is as it was.
pub cookie_value-clear_auth_cookies :
    (production : Bool) (name : String) (jar : Jar)
    → cookie_value name (clear_auth_cookies production jar) ≡ (
        if str_eq (refresh_token_cookie_name production) name
        then none
        else if str_eq (access_token_cookie_name production) name
        then none
        else cookie_value name jar)
unfolding cookie_value clear_auth_cookies
cookie_value-clear_auth_cookies production name jar = ground (
  arith,
  lookup-erase (refresh_token_cookie_name production) name
      (erase (access_token_cookie_name production) jar),
  lookup-erase (access_token_cookie_name production) name jar,
)

abbrev pub is_valid : Validation → Bool
is_valid (valid payload) = true
is_valid (invalid reason) = false

module _ {E : Type 0} (production : Bool) (validate : Option String → Validation)
    (is_expired : Option String → Bool) (first second : String → Reply E Pair) (jar : Jar) where
  abbrev pub Passed : Answer → Type 0
  Passed (next jar') = Unit
  Passed (redirect jar') = ⊥

  -- A request passes exactly when it carries a refresh token that is valid and either its access
  -- token is fresh or one of two attempts to refresh succeeds.
  pub proxy-passes_iff : Passed (proxy production validate is_expired first second jar).0 ↔ (
      (token : String) × (present (cookie_value (refresh_token_cookie_name production) jar)
        ≡ some token)
      × (is_valid (validate (some token)) ≡ true)
      × ((is_expired (cookie_value (access_token_cookie_name production) jar) ≡ false)
          ⊎ (is_ok (first token) ≡ true)
          ⊎ (is_ok (second token) ≡ true)))
  unfolding proxy
  proxy-passes_iff = (
    (λ passed.
        elim (Option-cases (present (cookie_value (refresh_token_cookie_name production) jar))) [
          | inl nothing ↦ absurd (ground arith)
          | inr (token, given) ↦ (token, given, ground arith, ground arith)
        ]),
    (λ (token, given, checked, renewed). ground arith),
  )

  -- The auth service is asked twice at most, and only for a request with a valid refresh token and a
  -- stale access token, with that refresh token.
  pub proxy-presents :
      ((proxy production validate is_expired first second jar).1 ≡ [])
      ⊎ ((token : String) × (present (cookie_value (refresh_token_cookie_name production) jar)
            ≡ some token)
          × (is_valid (validate (some token)) ≡ true)
          × (is_expired (cookie_value (access_token_cookie_name production) jar) ≡ true)
          × (((proxy production validate is_expired first second jar).1 ≡ token ∷ [])
              ⊎ ((proxy production validate is_expired first second jar).1 ≡ token ∷ token ∷ [])))
  unfolding proxy
  proxy-presents =
      elim (Option-cases (present (cookie_value (refresh_token_cookie_name production) jar))) [
        | inl nothing ↦ inl (ground arith)
        | inr (token, given) ↦ elim (Bool-cases (is_valid (validate (some token)))) [
          | inr refused ↦ inl (ground arith)
          | inl checked ↦
              elim (Bool-cases
                (is_expired (cookie_value (access_token_cookie_name production) jar))) [
                  | inr fresh ↦ inl (ground arith)
                  | inl stale ↦ inr (token, given, checked, stale, ground arith)
                ]
        ]
      ]

  -- A valid request with a stale access token passes with both cookies of the pair that the first
  -- attempt gave, and where that fails, of the pair that the repeat gave.
  pub proxy-renews :
      (token : String) (pair : Pair)
      → present (cookie_value (refresh_token_cookie_name production) jar) ≡ some token
      → is_valid (validate (some token)) ≡ true
      → is_expired (cookie_value (access_token_cookie_name production) jar) ≡ true
      → (first token ≡ ok pair) ⊎ ((is_ok (first token) ≡ false) × (second token ≡ ok pair))
      → (proxy production validate is_expired first second jar).0
        ≡ next (set_auth_cookies production pair.access_token pair.refresh_token jar)
  unfolding proxy
  proxy-renews token pair given checked stale answered = ground arith

expiry-eq_some :
    (decode : List ℕ → Option ℕ) (p : Option (List ℕ)) (exp : ℕ)
    → expiry decode p ≡ some exp
    → (part : List ℕ) × (p ≡ some part) × (decode part ≡ some exp) × (0 < exp)
expiry-eq_some decode none exp h = cc
expiry-eq_some decode (some []) exp h = cc
expiry-eq_some decode (some (c ∷ s)) exp h = (c ∷ s, refl, ground arith, ground arith)

-- An access token counts as fresh only if its second part decodes to an expiry that is not zero and
-- lies more than fifteen seconds ahead.
pub is_access_token_expired_or_missing-fresh :
    (decode : List ℕ → Option ℕ) (now : ℕ) (token : Option String)
    → is_access_token_expired_or_missing decode now token ≡ false
    → (text : String) × (part : List ℕ) × (exp : ℕ) × (token ≡ some text)
      × (second_part (codes text) ≡ some part)
      × (decode part ≡ some exp)
      × (0 < exp)
      × (now + 15000 < exp * 1000)
unfolding is_access_token_expired_or_missing
is_access_token_expired_or_missing-fresh decode now token h = elim (Option-cases (present token)) [
  | inl nothing ↦ absurd (ground arith)
  | inr (text, given) ↦ elim (Option-cases (expiry decode (second_part (codes text)))) [
    | inl unreadable ↦ absurd (ground arith)
    | inr (exp, read) ↦
        let (part, split, decoded, positive) =
          expiry-eq_some decode (second_part (codes text)) exp read in
        (text, part, exp, ground arith, split, decoded, positive, ground arith)
  ]
]
