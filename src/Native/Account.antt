-- ===== src/Native/Account.antt =====
-- The account flows of native/src/modules/auth/api: use-login.ts, use-register.ts and use-logout.ts.
-- What the auth service answers is an argument, and so is the query cache of
-- `@tanstack/react-query`: its type, and what removing a key from it gives.
pub mod Flows
use dropbox_go_grpc_microser.Prelude.{String, Option, none, some, List, [], ◌∷◌, ◌++◌, present}
use dropbox_go_grpc_microser.Exec.{Reply, Exec, pure, lift, modify, catch, ◌>>=◌, ◌>>◌}
use dropbox_go_grpc_microser.Text.{trim}
use dropbox_go_grpc_microser.Native.Session.{Status}
use dropbox_go_grpc_microser.Native.Tokens.{
  Device, World, set_tokens, get_stored_refresh_token, clear_tokens, set_session,
}

pub record AuthResponse : Type 0 where
  pub user_id : String
  pub access_token : String
  pub refresh_token : String

pub record Queries : Type 1 where
  pub Cache : Type 0
  pub empty : Cache
  -- queryClient.removeQueries({ queryKey })
  pub remove_queries : List String → Cache → Cache

abbrev pub current_user_key : List String
current_user_key = "currentUser" ∷ []

pub record Client (Cache : Type 0) : Type 0 where
  pub device : Device
  pub cache : Cache
  -- The refresh tokens presented to `authClient.logout`, newest last.
  pub revoked : List String

module _ {E : Type 0} (q : Queries) (w : World E) where
  abbrev on_device : {B : Type 0} → Exec Device E B → Exec (Client q.Cache) E B
  on_device m c = let (r, d) = m c.device in (r, record c { device = d })

  -- What login and register do with their response.
  unfoldable pub sign_in : AuthResponse → Exec (Client q.Cache) E AuthResponse
  sign_in response = do
    on_device (set_tokens w response.access_token response.refresh_token)
    modify (λ c. record c { cache = q.remove_queries current_user_key c.cache })
    on_device (set_session w Status.signed_in)
    pure response

  unfoldable pub login :
      (String → String → Reply E AuthResponse)
      → String
      → String
      → Exec (Client q.Cache) E AuthResponse
  unfolding sign_in
  login rpc email password = do response ← lift (rpc (trim email) password); sign_in response

  unfoldable pub register :
      (String → String → String → Reply E AuthResponse)
      → String
      → String
      → String
      → Exec (Client q.Cache) E AuthResponse
  unfolding sign_in
  register rpc name email password = do
    response ← lift (rpc (trim name) (trim email) password)
    sign_in response

  -- `try { await authClient.logout({ refreshToken }) } catch {}`, if there is a token.
  abbrev revoke : (String → Reply E Unit) → Option String → Exec (Client q.Cache) E Unit
  revoke rpc none = pure tt
  revoke rpc (some token) =
      catch (do modify (λ c. record c { revoked = c.revoked ++ token ∷ [] }); lift (rpc token))
        (λ _. pure tt)

  unfoldable pub logout : (String → Reply E Unit) → Exec (Client q.Cache) E Unit
  unfolding get_stored_refresh_token clear_tokens
  logout rpc = do
    stored ← on_device (get_stored_refresh_token w)
    revoke rpc (present stored)
    on_device (clear_tokens w)
    modify (λ c. record c { cache = q.empty })
    on_device (set_session w Status.signed_out)
