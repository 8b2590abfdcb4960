-- ===== src/Native/Env/Address.antt =====
-- What an address looks like.
use dropbox_go_grpc_microser.Prelude.{
  String, ◌≡◌, refl, Bool, true, false, Option, none, some, str_eq, Bool-cases, inl, inr,
  if◌then◌else◌, present,
}
use dropbox_go_grpc_microser.Native.Env.{
  strip_slashes, trimmed, service_url, own_address, given_or, env,
}

-- A slash at the end.
unfoldable pub ends_in_slash : String → Bool
ends_in_slash String.[] = false
ends_in_slash (String.◌∷◌ c s) =
    let rest = ends_in_slash s in if str_eq s "" then str_eq (String.◌∷◌ c "") "/" else rest

strip_slashes-ends_in_slash : (s : String) → ends_in_slash (strip_slashes s) ≡ false
unfolding strip_slashes ends_in_slash
strip_slashes-ends_in_slash String.[] = refl
strip_slashes-ends_in_slash (String.◌∷◌ c s) =
    let rest = strip_slashes-ends_in_slash s in
    elim (Bool-cases (str_eq (strip_slashes s) "")) [
      | inl ends ↦ elim (Bool-cases (str_eq (String.◌∷◌ c "") "/")) [
        | inl slash ↦ rw (ends, slash) refl
        | inr other ↦ rw (ends, other) (rw (ends, other) refl)
      ]
      | inr more ↦ rw more (rw more rest)
    ]

given_or-ends_in_slash :
    (own : String) (given : Option String)
    → ends_in_slash own ≡ false
    → ends_in_slash (given_or own given) ≡ false
given_or-ends_in_slash own none fine = fine
given_or-ends_in_slash own (some url) fine = strip_slashes-ends_in_slash url

-- The ports of this repository.
own_address-ends_in_slash :
    (is_android : Bool)
    → (ends_in_slash (own_address is_android "50051") ≡ false)
      × (ends_in_slash (own_address is_android "50052") ≡ false)
      × (ends_in_slash (own_address is_android "50053") ≡ false)
unfolding ends_in_slash
own_address-ends_in_slash true = (refl, refl, refl)
own_address-ends_in_slash false = (refl, refl, refl)

-- Whatever the variables of the build are, no address of a service ends with a slash, so that a path can
-- be put after it.
pub env-ends_in_slash :
    (is_android : Bool) (auth upload metadata : Option String)
    → let addresses = env is_android auth upload metadata in
      (ends_in_slash addresses.auth_url ≡ false)
      × (ends_in_slash addresses.upload_url ≡ false)
      × (ends_in_slash addresses.metadata_url ≡ false)
unfolding env service_url
env-ends_in_slash is_android auth upload metadata =
    let (auth_own, upload_own, metadata_own) = own_address-ends_in_slash is_android in
    (
      given_or-ends_in_slash (own_address is_android "50051") (present (trimmed auth)) auth_own,
      given_or-ends_in_slash (own_address is_android "50052") (present (trimmed upload)) upload_own,
      given_or-ends_in_slash (own_address is_android "50053") (present (trimmed metadata))
          metadata_own,
    )
