-- ===== src/Web/Gate.antt =====
-- The middleware of web/src/proxy.ts, with `isAccessTokenExpiredOrMissing` of
-- web/src/lib/jwt-utils.ts: which requests pass, and when the tokens are refreshed. The validation
-- of the refresh token is `Web.Jwks`; the auth service's answers are arguments. Requests that share
-- one refresh are left out: the first call and the repeat are this request's.
pub mod Passes
use dropbox_go_grpc_microser.Prelude.{
  ℕ, ◌+◌, ◌*◌, String, Bool, true, false, not, Option, none, some, List, [], ◌∷◌, ◌++◌, leb, ◌==◌,
  present, if◌then◌else◌,
}
use dropbox_go_grpc_microser.Exec.{Reply, ok, err}
use dropbox_go_grpc_microser.Text.{codes}
use dropbox_go_grpc_microser.Native.Payload.{second_part}
use dropbox_go_grpc_microser.Web.Cookies.{
  Jar, access_token_cookie_name, refresh_token_cookie_name, set_auth_cookies, clear_auth_cookies,
  cookie_value,
}
use dropbox_go_grpc_microser.Web.Jwks.{Validation, valid, invalid}

abbrev pub skew_seconds : ℕ
skew_seconds = 15

-- `exp` of the payload, where `JSON.parse(Buffer.from(text, "base64url"))` gives one; 0 is no `exp`.
abbrev expiry : (List ℕ → Option ℕ) → Option (List ℕ) → Option ℕ
expiry decode none = none
expiry decode (some []) = none
expiry decode (some (c ∷ s)) = elim (decode (c ∷ s)) [
  | none ↦ none
  | some exp ↦ if exp == 0 then none else some exp
]

-- `Date.now() / 1000 >= payload.exp - skewSeconds`, over milliseconds and with the skew on the
-- other side.
unfoldable pub is_access_token_expired_or_missing : (List ℕ → Option ℕ) → ℕ → Option String → Bool
is_access_token_expired_or_missing decode now token = elim (present token) [
  | none ↦ true
  | some t ↦ elim (expiry decode (second_part (codes t))) [
    | none ↦ true
    | some exp ↦ leb (exp * 1000) (now + skew_seconds * 1000)
  ]
]

pub record Pair : Type 0 where
  pub access_token : String
  pub refresh_token : String

-- What the middleware answers: it lets the request pass, with the cookies that the response sets, or
-- sends the browser to the sign-in page.
pub data Answer : Type 0 where
  next : Jar → Answer
  redirect : Jar → Answer

-- The answer, and the refresh tokens that were presented to the auth service.
abbrev pub Visit : Type 0
Visit = Answer × List String

abbrev redirect_to_login : Bool → Jar → Answer
redirect_to_login production jar = redirect (clear_auth_cookies production jar)

abbrev renewed : Bool → Jar → Pair → Answer
renewed production jar pair =
    next (set_auth_cookies production pair.access_token pair.refresh_token jar)

module _ {E : Type 0} (production : Bool) where
  abbrev retry : Jar → String → Reply E Pair → Visit
  retry jar token (ok pair) = (renewed production jar pair, token ∷ token ∷ [])
  retry jar token (err e) = (redirect_to_login production jar, token ∷ token ∷ [])

  abbrev refresh : Jar → String → Reply E Pair → Reply E Pair → Visit
  refresh jar token (ok pair) second = (renewed production jar pair, token ∷ [])
  refresh jar token (err e) second = retry jar token second

  abbrev admit : (String → Reply E Pair) → (String → Reply E Pair) → Bool → Jar → String → Visit
  admit first second expired jar token =
      if not expired then (next jar, []) else refresh jar token (first token) (second token)

  -- `jar` holds the request's cookies; the response's are what is set in it.
  unfoldable pub proxy :
      (Option String → Validation)
      → (Option String → Bool)
      → (String → Reply E Pair)
      → (String → Reply E Pair)
      → Jar
      → Visit
  proxy validate is_expired first second jar =
      elim (present (cookie_value (refresh_token_cookie_name production) jar)) [
        | none ↦ (redirect_to_login production jar, [])
        | some token ↦ elim (validate (some token)) [
          | invalid reason ↦ (redirect_to_login production jar, [])
          | valid payload ↦
              admit first second
                (is_expired (cookie_value (access_token_cookie_name production) jar)) jar token
        ]
      ]
