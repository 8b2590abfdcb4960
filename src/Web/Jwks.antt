-- ===== src/Web/Jwks.antt =====
-- web/src/lib/server-jwt.ts: the cache of the auth service's public keys, and the validation of a
-- refresh token. `jose` (decoding and verifying), `fetch` and the clock are arguments.
pub mod Cache
pub mod Accepted
use dropbox_go_grpc_microser.Prelude.{
  ℕ, suc, ◌*◌, ◌-◌, String, Bool, true, false, not, ◌&&◌, ◌||◌, Option, none, some, List, [], ◌∷◌,
  ltb, keep, str_eq, present, if◌then◌else◌,
}
use dropbox_go_grpc_microser.Dict.{Dict, lookup, insert}

-- A key of the service's answer, with the members that are read, and the rest of it.
pub record Jwk (K : Type 0) : Type 0 where
  pub kid : Option String
  pub alg : Option String
  pub kty : Option String
  pub crv : Option String
  pub key : K

-- The one algorithm of `SupportedJwsAlgorithm`, "EdDSA", is not written out.
pub record CachedJwkEntry (K : Type 0) : Type 0 where
  pub key : K
  pub observed_at : ℕ

-- The module's variables, and how often the keys were fetched.
pub record Store (K : Type 0) : Type 0 where
  pub cache : Dict (CachedJwkEntry K)
  pub last_fetch_at : ℕ
  pub fetches : ℕ

abbrev pub jwks_refresh_interval_ms : ℕ
jwks_refresh_interval_ms = 60 * 60 * 1000

abbrev pub jwks_retention_ms : ℕ
jwks_retention_ms = 8 * 24 * 60 * 60 * 1000

pub data Reason : Type 0 where
  missing_token invalid_token invalid_token_type invalid_algorithm jwks_fetch_failed : Reason

-- What a fetch comes to: it throws or its answer is no JSON, its status is no success, or there are
-- keys (none, where `keys` is no array), each of which may be null.
pub data Fetched (K : Type 0) : Type 0 where
  threw : Fetched K
  not_ok : Fetched K
  keys : List (Option (Jwk K)) → Fetched K

abbrev pub is_text : Option String → String → Bool
is_text none s = false
is_text (some t) s = str_eq t s

unfoldable pub is_supported_algorithm : String → Bool
is_supported_algorithm algorithm = str_eq algorithm "EdDSA"

-- JwkResolutionResult
pub data Resolution (K : Type 0) : Type 0 where
  found : K → Resolution K
  missing : Reason → Resolution K

module _ {K : Type 0} where
  -- normalizeJwkAlgorithm(key) is not null
  unfoldable pub normalizes : Jwk K → Bool
  normalizes k = is_text k.alg "EdDSA" || is_text k.kty "OKP" && is_text k.crv "Ed25519"

  abbrev pub is_retained : ℕ → String × CachedJwkEntry K → Bool
  is_retained now entry = not (ltb jwks_retention_ms (now - entry.1.observed_at))

  unfoldable pub prune_expired_jwks_entries : ℕ → Store K → Store K
  prune_expired_jwks_entries now s = record s { cache = keep (is_retained now) s.cache }

  abbrev cache_key : ℕ → Option (Jwk K) → Dict (CachedJwkEntry K) → Dict (CachedJwkEntry K)
  cache_key now none cache = cache
  cache_key now (some k) cache = elim k.kid [
    | none ↦ cache
    | some kid ↦
        if normalizes k then insert kid (record { key = k.key; observed_at = now }) cache else cache
  ]

  -- The loop over the keys.
  abbrev pub cache_keys :
      ℕ → List (Option (Jwk K)) → Dict (CachedJwkEntry K) → Dict (CachedJwkEntry K)
  cache_keys now [] cache = cache
  cache_keys now (k ∷ ks) cache = cache_keys now ks (cache_key now k cache)

  -- The new state, and whether the refresh is `ok`.
  unfoldable pub refresh_jwks_cache : Fetched K → ℕ → Store K → Bool × Store K
  unfolding prune_expired_jwks_entries
  refresh_jwks_cache threw now s = (false, record s { fetches = suc s.fetches })
  refresh_jwks_cache not_ok now s = (false, record s { fetches = suc s.fetches })
  refresh_jwks_cache (keys ks) now s = (
    true,
    prune_expired_jwks_entries now (record s {
      cache = cache_keys now ks s.cache;
      last_fetch_at = now;
      fetches = suc s.fetches;
    }),
  )

  abbrev fall_back : Option (CachedJwkEntry K) → Bool → Resolution K
  fall_back (some entry) refreshed = found entry.key
  fall_back none true = missing invalid_token
  fall_back none false = missing jwks_fetch_failed

  abbrev after_refresh : Option (CachedJwkEntry K) → Option (CachedJwkEntry K) → Bool → Resolution K
  after_refresh (some entry) cached refreshed = found entry.key
  after_refresh none cached refreshed = fall_back cached refreshed

  abbrev is_current : Option (CachedJwkEntry K) → ℕ → ℕ → Bool
  is_current none now last = false
  is_current (some entry) now last = ltb (now - last) jwks_refresh_interval_ms

  unfoldable pub resolve_refresh_token_jwk :
      Fetched K → ℕ → String → Store K → Resolution K × Store K
  unfolding prune_expired_jwks_entries refresh_jwks_cache
  resolve_refresh_token_jwk answer now kid s =
      let pruned = prune_expired_jwks_entries now s in
      let cached = lookup kid pruned.cache in
      let (refreshed, s') = refresh_jwks_cache answer now pruned in
      if is_current cached now pruned.last_fetch_at
      then (fall_back cached true, pruned)
      else (after_refresh (lookup kid s'.cache) cached refreshed, s')

-- The header and the payload of a token, with what is read of them.
pub record Header : Type 0 where
  pub alg : String
  pub kid : String

pub record Payload : Type 0 where
  pub token_type : Option String
  pub sid_is_text : Bool
  pub gen_is_number : Bool

pub data Validation : Type 0 where
  valid : Payload → Validation
  invalid : Reason → Validation

-- `decodeProtectedHeader`, "" for a member that is not there; and `importJWK` with `jwtVerify`, for
-- the one algorithm; `none` where they throw.
pub record Jose (K : Type 0) : Type 0 where
  pub decode_protected_header : String → Option Header
  pub jwt_verify : String → K → Option Payload

module _ {K : Type 0} (jose : Jose K) (answer : Fetched K) (now : ℕ) where
  abbrev check_payload : Option Payload → Validation
  check_payload none = invalid invalid_token
  check_payload (some p) =
      if not (is_text p.token_type "refresh")
      then invalid invalid_token_type
      else if not p.sid_is_text || not p.gen_is_number
      then invalid invalid_token
      else valid p

  abbrev check_signature : String → Resolution K → Validation
  check_signature token (missing reason) = invalid reason
  check_signature token (found key) = check_payload (jose.jwt_verify token key)

  abbrev check_header : String → Option Header → Store K → Validation × Store K
  check_header token none s = (invalid invalid_token, s)
  check_header token (some h) s =
      if str_eq h.alg ""
      then (invalid invalid_token, s)
      else if not (is_supported_algorithm h.alg)
      then (invalid invalid_algorithm, s)
      else if str_eq h.kid ""
      then (invalid invalid_token, s)
      else let (resolution, s') = resolve_refresh_token_jwk answer now h.kid s in
        (check_signature token resolution, s')

  unfoldable pub validate_refresh_token : Option String → Store K → Validation × Store K
  validate_refresh_token token s = elim (present token) [
    | none ↦ (invalid missing_token, s)
    | some t ↦ check_header t (jose.decode_protected_header t) s
  ]
