-- ===== src/Web/Jwks/Accepted.antt =====
-- What a refresh token that is accepted has been checked for.
use dropbox_go_grpc_microser.Prelude.{ℕ, String, ◌≡◌, ◌≢◌, true, Option, some}
use dropbox_go_grpc_microser.Web.Jwks.{
  Store, Fetched, found, resolve_refresh_token_jwk, Header, Payload, Jose,
}

module _ {K : Type 0} (jose : Jose K) (answer : Fetched K) (now : ℕ) (s : Store K) where
  -- What stands behind a payload that is accepted.
  pub record IsVerified (token : Option String) (payload : Payload) : Type 0 where
    pub text : String
    pub given : token ≡ some text
    pub header : Header
    pub decoded : jose.decode_protected_header text ≡ some header
    pub algorithm : header.alg ≡ "EdDSA"
    pub named : header.kid ≢ ""
    pub key : K
    pub resolved : (resolve_refresh_token_jwk answer now header.kid s).0 ≡ found key
    pub verified : jose.jwt_verify text key ≡ some payload
    pub refreshes : payload.token_type ≡ some "refresh"
    pub complete : (payload.sid_is_text ≡ true) × (payload.gen_is_number ≡ true)
