-- ===== src/Web/Forward.antt =====
-- `createRpcProxy` of web/src/lib/create-rpc-proxy.ts: what is passed on to the service, and what comes
-- back. Header names are in lower case, as `Headers` compares them; `fetch` is an argument.
pub mod Headers
use Prim.Native.String
use dropbox_go_grpc_microser.Prelude.{
  ℕ, String, Bool, true, false, ◌||◌, Option, none, some, List, [], ◌∷◌, ◌++◌, length, drop, str_eq,
  present, if◌then◌else◌,
}
use dropbox_go_grpc_microser.Exec.{Reply, ok, err}
use dropbox_go_grpc_microser.Dict.{Dict, insert, erase}
use dropbox_go_grpc_microser.Web.Blocks.{Bytes}
use dropbox_go_grpc_microser.Web.Cookies.{Jar, access_token_cookie_name, cookie_value}

-- A text of the URL is the list of its code units.
pub record BrowserRequest : Type 0 where
  pub method : String
  pub pathname : Bytes
  pub search : Bytes
  pub headers : Dict String
  pub body : Bytes

pub record UpstreamRequest : Type 0 where
  pub url : Bytes
  pub method : String
  pub headers : Dict String
  pub body : Option Bytes

pub record Response : Type 0 where
  pub status : ℕ
  pub headers : Dict String
  pub body : Bytes

abbrev pub bearer : String → String
bearer token = String.◌++◌ "Bearer " token

-- `request.nextUrl.pathname.slice(mountPath.length) || "/"`
abbrev or_root : Bytes → Bytes
or_root [] = b'/' ∷ []
or_root (c ∷ s) = c ∷ s

unfoldable pub upstream_path : Bytes → Bytes → Bytes
upstream_path mount_path pathname = or_root (drop (length mount_path) pathname)

-- The browser's headers without `host` and `cookie`, and with the token if there is one.
unfoldable pub passed_headers : Option String → Dict String → Dict String
passed_headers token headers = elim token [
  | none ↦ erase "cookie" (erase "host" headers)
  | some t ↦ insert "authorization" (bearer t) (erase "cookie" (erase "host" headers))
]

-- The headers of `send`.
unfoldable pub request_headers : Option String → Dict String → Dict String
request_headers access_token headers = elim access_token [
  | none ↦ erase "authorization" headers
  | some t ↦ insert "authorization" (bearer t) headers
]

abbrev body_of : String → Bytes → Option Bytes
body_of method body = if str_eq method "GET" || str_eq method "HEAD" then none else some body

unfoldable pub upstream_request : Bytes → Bytes → Option String → BrowserRequest → UpstreamRequest
unfolding upstream_path passed_headers request_headers
upstream_request base_url mount_path token request = record {
  url = base_url ++ upstream_path mount_path request.pathname ++ request.search;
  method = request.method;
  headers = request_headers (present token) (passed_headers (present token) request.headers);
  body = body_of request.method request.body;
}

unfoldable pub response_headers : Dict String → Dict String
response_headers headers =
    erase "connection"
      (erase "transfer-encoding" (erase "content-length" (erase "content-encoding" headers)))

abbrev answer : {E : Type 0} → Reply E Response → Reply E Response
answer (err e) = err e
answer (ok r) = ok (record r { headers = response_headers r.headers })

unfoldable pub handler :
    {E : Type 0}
    → (UpstreamRequest → Reply E Response)
    → Bool
    → Bytes
    → Bytes
    → Jar
    → BrowserRequest
    → Reply E Response
handler fetch production base_url mount_path jar request = answer (
    fetch (
      upstream_request base_url mount_path (cookie_value (access_token_cookie_name production) jar)
        request))
