-- ===== src/Web/Jwks/Cache.antt =====
-- The cache of keys: how long entries stay, when keys are fetched, and what is served.
use dropbox_go_grpc_microser.Prelude.{
  ℕ, ◌-◌, ◌≤◌, ◌<◌, ◌≡◌, String, some, [], ◌∷◌, arith, keep, All,
}
use dropbox_go_grpc_microser.Dict.{Dict, lookup, lookup-keep}
use dropbox_go_grpc_microser.Web.Jwks.{
  CachedJwkEntry, Store, jwks_refresh_interval_ms, jwks_retention_ms, Fetched, keys, threw, not_ok,
  is_retained, cache_keys, found, resolve_refresh_token_jwk,
}

module _ {K : Type 0} where
  -- No entry is older than the retention.
  abbrev pub IsPruned : ℕ → Dict (CachedJwkEntry K) → Type 0
  IsPruned now cache = All (λ entry. now - entry.1.observed_at ≤ jwks_retention_ms) cache

  keep-IsPruned :
      (now : ℕ) (cache : Dict (CachedJwkEntry K)) → IsPruned now (keep (is_retained now) cache)
  keep-IsPruned now [] = tt
  keep-IsPruned now ((kid, entry) ∷ cache) = ground (arith, keep-IsPruned now cache)

  -- After a key was asked for, whatever the fetch came to, no entry older than the retention is left.
  pub resolve_refresh_token_jwk-IsPruned :
      (answer : Fetched K) (now : ℕ) (kid : String) (s : Store K)
      → IsPruned now (resolve_refresh_token_jwk answer now kid s).1.cache
  unfolding resolve_refresh_token_jwk
  resolve_refresh_token_jwk-IsPruned threw now kid s = ground (arith, keep-IsPruned now s.cache)
  resolve_refresh_token_jwk-IsPruned not_ok now kid s = ground (arith, keep-IsPruned now s.cache)
  resolve_refresh_token_jwk-IsPruned (keys ks) now kid s = ground (
    arith,
    keep-IsPruned now s.cache,
    keep-IsPruned now (cache_keys now ks (keep (is_retained now) s.cache)),
  )

  -- A cached key is served without a fetch while the last fetch is less than an hour old.
  pub resolve_refresh_token_jwk-cached :
      (answer : Fetched K) (now : ℕ) (kid : String) (s : Store K) (entry : CachedJwkEntry K)
      → lookup kid s.cache ≡ some entry
      → now - entry.observed_at ≤ jwks_retention_ms
      → now - s.last_fetch_at < jwks_refresh_interval_ms
      → ((resolve_refresh_token_jwk answer now kid s).0 ≡ found entry.key)
        × ((resolve_refresh_token_jwk answer now kid s).1.fetches ≡ s.fetches)
  unfolding resolve_refresh_token_jwk
  resolve_refresh_token_jwk-cached answer now kid s entry held recent current =
      ground (arith, lookup-keep (is_retained now) kid entry s.cache)

  -- A key that is cached is served although the service cannot be reached, until its retention ends.
  pub resolve_refresh_token_jwk-offline :
      (now : ℕ) (kid : String) (s : Store K) (entry : CachedJwkEntry K)
      → lookup kid s.cache ≡ some entry
      → now - entry.observed_at ≤ jwks_retention_ms
      → ((resolve_refresh_token_jwk threw now kid s).0 ≡ found entry.key)
        × ((resolve_refresh_token_jwk not_ok now kid s).0 ≡ found entry.key)
  unfolding resolve_refresh_token_jwk
  resolve_refresh_token_jwk-offline now kid s entry held recent =
      ground (arith, lookup-keep (is_retained now) kid entry s.cache)
