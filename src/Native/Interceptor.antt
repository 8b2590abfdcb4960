-- ===== src/Native/Interceptor.antt =====
-- The interceptor of native/src/lib/rpc.ts: it attaches the bearer token to a request, and repairs
-- it once if the server says that it is no good. `next(request)` is an argument.
pub mod Retry
use Prim.Native.String
use dropbox_go_grpc_microser.Prelude.{
  String, Bool, true, false, Option, none, some, List, [], ◌∷◌, ◌++◌, not, ◌||◌, present,
  if◌then◌else◌,
}
use dropbox_go_grpc_microser.Exec.{Reply, Exec, raise, lift, modify, catch, ◌>>=◌, ◌>>◌}
use dropbox_go_grpc_microser.Rpc.{Code}
use dropbox_go_grpc_microser.Native.Tokens.{
  Device, World, get_valid_access_token, refresh_access_token,
}

pub record Request : Type 0 where
  pub authorization : Option String
  pub stream : Bool

pub record Link : Type 0 where
  pub device : Device
  -- The Authorization headers of the requests that were passed on, newest last.
  pub sent : List (Option String)

abbrev pub bearer : String → String
bearer token = String.◌++◌ "Bearer " token

-- `if (token) request.header.set('Authorization', …)`
unfoldable pub attach : Option String → Option String → Option String
attach token header = elim (present token) [ none ↦ header | some t ↦ some (bearer t) ]

abbrev pub is_unauthenticated : Code → Bool
is_unauthenticated Code.unauthenticated = true
is_unauthenticated _ = false

-- An action of the token manager.
abbrev pub on_device : {E B : Type 0} → Exec Device E B → Exec Link E B
on_device m l = let (r, d) = m l.device in (r, record l { device = d })

module _ {E A : Type 0} where
  abbrev send : (Option String → Reply E A) → Option String → Exec Link E A
  send next header = do modify (λ l. record l { sent = l.sent ++ header ∷ [] }); lift (next header)

  -- `w` is the platform at the first request and `w'` at its repeat; so `next` and `next'`.
  module _ (w w' : World E) (next next' : Option String → Reply E A) (request : Request) where
    -- The `catch`.
    abbrev repair : Option String → E → Exec Link E A
    repair header e =
        if request.stream || not (is_unauthenticated (w.code_of e)) then raise e else (do
          token ← on_device (refresh_access_token w')
          send next' (attach (some token) header))

    unfoldable pub auth_interceptor : Exec Link E A
    auth_interceptor = do
      token ← on_device (get_valid_access_token w)
      let header = attach token request.authorization
      catch (send next header) (repair header)
