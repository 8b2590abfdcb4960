-- ===== src/Native/Env.antt =====
-- The addresses of the services, native/src/lib/env.ts. The variables of the build and the platform are
-- arguments.
pub mod Address
use Prim.Native.String
use dropbox_go_grpc_microser.Prelude.{
  String, Bool, true, false, ◌&&◌, Option, none, some, present, str_eq, if◌then◌else◌,
}
use dropbox_go_grpc_microser.Text.{trim}

-- `trimmed.replace(/\/+$/, '')`
unfoldable pub strip_slashes : String → String
strip_slashes String.[] = ""
strip_slashes (String.◌∷◌ c s) =
    let rest = strip_slashes s in
    if str_eq rest "" && str_eq (String.◌∷◌ c "") "/" then "" else String.◌∷◌ c rest

abbrev pub dev_host : (is_android : Bool) → String
dev_host true = "10.0.2.2"
dev_host false = "localhost"

abbrev pub trimmed : Option String → Option String
trimmed none = none
trimmed (some explicit) = some (trim explicit)

abbrev pub given_or : (own : String) → Option String → String
given_or own none = own
given_or own (some url) = strip_slashes url

-- The port is the text of its number.
abbrev pub own_address : Bool → String → String
own_address is_android port =
    String.◌++◌ "http://" (String.◌++◌ (dev_host is_android) (String.◌++◌ ":" port))

unfoldable pub service_url : Bool → Option String → String → String
unfolding trim strip_slashes
service_url is_android explicit port =
    given_or (own_address is_android port) (present (trimmed explicit))

-- `env`, of the three variables.
pub record Env : Type 0 where
  pub auth_url : String
  pub upload_url : String
  pub metadata_url : String

unfoldable pub env : Bool → (auth upload metadata : Option String) → Env
unfolding service_url
env is_android auth upload metadata = record {
  auth_url = service_url is_android auth "50051";
  upload_url = service_url is_android upload "50052";
  metadata_url = service_url is_android metadata "50053";
}
