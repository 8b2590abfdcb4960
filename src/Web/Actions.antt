-- ===== src/Web/Actions.antt =====
-- The server actions of web/src/actions/auth.ts behind the check of web/src/lib/csrf.ts. The request's
-- headers, `new URL(origin).host` and the auth service's answers are arguments.
pub mod Guarded
use dropbox_go_grpc_microser.Prelude.{
  String, Bool, true, false, not, ◌&&◌, ◌||◌, Option, none, some, List, [], ◌∷◌, ◌++◌, str_eq,
  present, if◌then◌else◌,
}
use dropbox_go_grpc_microser.Exec.{
  Reply, ok, err, Exec, pure, raise, lift, modify, catch, ◌>>=◌, ◌>>◌,
}
use dropbox_go_grpc_microser.Web.Cookies.{
  Jar, refresh_token_cookie_name, set_auth_cookies, clear_auth_cookies, cookie_value,
}

pub record Headers : Type 0 where
  pub origin : Option String
  pub host : Option String
  pub sec_fetch_site : Option String

-- `fetchSite && fetchSite !== "same-origin" && fetchSite !== "same-site"` is false
abbrev pub allowed_site : Option String → Bool
allowed_site none = true
allowed_site (some site) = str_eq site "same-origin" || str_eq site "same-site"

abbrev pub same_host : Option String → String → Bool
same_host none host = false
same_host (some h) host = str_eq h host

abbrev origin_matches : (String → Option String) → Option String → Option String → Bool
origin_matches url_host (some origin) (some host) = same_host (url_host origin) host
origin_matches url_host _ _ = false

-- Whether `assertSameOriginRequest` returns; `url_host` is `none` where `new URL` throws.
unfoldable pub is_same_origin_request : (String → Option String) → Headers → Bool
is_same_origin_request url_host h =
    origin_matches url_host (present h.origin) (present h.host)
    && allowed_site (present h.sec_fetch_site)

pub record AuthResponse : Type 0 where
  pub user_id : String
  pub name : String
  pub email : String
  pub access_token : String
  pub refresh_token : String

pub record User : Type 0 where
  pub user_id : String
  pub name : String
  pub email : String

-- The cookies, and the refresh tokens presented to the service's logout, newest last; and whether
-- the service was asked to sign somebody in.
pub record Server : Type 0 where
  pub jar : Jar
  pub revoked : List String
  pub asked : Bool

module _ {E : Type 0} (csrf_failed : E) (url_host : String → Option String)
    (production : Bool) where
  unfoldable pub assert_same_origin_request : Headers → Exec Server E Unit
  unfolding is_same_origin_request
  assert_same_origin_request h =
      if is_same_origin_request url_host h then pure tt else raise csrf_failed

  abbrev user_of : AuthResponse → User
  user_of r = record { user_id = r.user_id; name = r.name; email = r.email }

  -- `loginAction` and `registerAction`, which differ in the call alone.
  unfoldable pub sign_in_action : Headers → Reply E AuthResponse → Exec Server E User
  unfolding assert_same_origin_request
  sign_in_action h answer = do
    assert_same_origin_request h
    modify (λ s. record s { asked = true })
    response ← lift answer
    modify (λ s. record s {
      jar = set_auth_cookies production response.access_token response.refresh_token s.jar;
    })
    pure (user_of response)

  abbrev revoke : Reply E Unit → Option String → Exec Server E Unit
  revoke answer none = pure tt
  revoke answer (some token) =
      catch (do modify (λ s. record s { revoked = s.revoked ++ token ∷ [] }); lift answer)
        (λ _. pure tt)

  unfoldable pub logout_action : Headers → Reply E Unit → Exec Server E Unit
  unfolding assert_same_origin_request
  logout_action h answer = do
    assert_same_origin_request h
    λ s. revoke answer (present (cookie_value (refresh_token_cookie_name production) s.jar)) s
    modify (λ s. record s { jar = clear_auth_cookies production s.jar })

  abbrev user_or_null : Reply E AuthResponse → Option User
  user_or_null (ok r) = some (user_of r)
  user_or_null (err e) = none

  -- getCurrentUserAction
  unfoldable pub get_current_user_action : Reply E AuthResponse → Exec Server E (Option User)
  get_current_user_action answer = pure (user_or_null answer)
