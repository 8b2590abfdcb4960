-- ===== src/Web/Cookies.antt =====
-- The cookies of a session: web/src/lib/auth-cookie.ts, and `setAuthCookies` of web/src/proxy.ts and
-- of web/src/actions/auth.ts, which set the same two cookies with the same options.
use dropbox_go_grpc_microser.Prelude.{ℕ, ◌*◌, String, Bool, true, Option, none, some, if◌then◌else◌}
use dropbox_go_grpc_microser.Dict.{Dict, lookup, insert, erase}

pub data SameSite : Type 0 where
  strict : SameSite

pub record Cookie : Type 0 where
  pub value : String
  pub http_only : Bool
  pub secure : Bool
  pub same_site : SameSite
  pub path : String
  pub max_age : ℕ

abbrev pub Jar : Type 0
Jar = Dict Cookie

-- NODE_ENV === "production" is an argument of all of these.
abbrev pub access_token_cookie_name : Bool → String
access_token_cookie_name production = if production then "__Host-access_token" else "access_token"

abbrev pub refresh_token_cookie_name : Bool → String
refresh_token_cookie_name production =
    if production then "__Host-refresh_token" else "refresh_token"

abbrev pub auth_cookie : Bool → String → ℕ → Cookie
auth_cookie production value max_age = record {
  value = value;
  http_only = true;
  secure = production;
  same_site = strict;
  path = "/";
  max_age = max_age;
}

unfoldable pub set_auth_cookies : Bool → String → String → Jar → Jar
set_auth_cookies production access refresh jar =
    insert (access_token_cookie_name production) (auth_cookie production access (15 * 60)) (
      insert (refresh_token_cookie_name production)
        (auth_cookie production refresh (7 * 24 * 60 * 60)) jar)

-- `clearAuthCookies` of actions/auth.ts, and the deletions of `redirectToLogin` of proxy.ts.
unfoldable pub clear_auth_cookies : Bool → Jar → Jar
clear_auth_cookies production jar =
    erase (refresh_token_cookie_name production) (erase (access_token_cookie_name production) jar)

abbrev value_of : Option Cookie → Option String
value_of none = none
value_of (some c) = some c.value

-- cookies.get(name)?.value
unfoldable pub cookie_value : String → Jar → Option String
cookie_value name jar = value_of (lookup name jar)
