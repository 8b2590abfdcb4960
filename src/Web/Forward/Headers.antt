-- ===== src/Web/Forward/Headers.antt =====
-- The headers that reach the service.
use dropbox_go_grpc_microser.Prelude.{String, Option, none, some}
use dropbox_go_grpc_microser.Web.Forward.{bearer}

-- The one header that the handler sets.
abbrev pub authorization : Option String → Option String
authorization none = none
authorization (some token) = some (bearer token)
