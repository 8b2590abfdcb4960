-- ===== src/Native/Interceptor/Retry.antt =====
-- How often a request is sent, and with which token.
use dropbox_go_grpc_microser.Prelude.{String, ◌≡◌, ◌⊎◌, ◌≢◌, true, Option, [], ◌∷◌, ◌++◌, arith}
use dropbox_go_grpc_microser.Exec.{Reply, ok, err}
use dropbox_go_grpc_microser.Rpc.{Code}
use dropbox_go_grpc_microser.Native.Tokens.{World, get_valid_access_token}
use dropbox_go_grpc_microser.Native.Interceptor.{Request, Link, attach, auth_interceptor}

module _ {E A : Type 0} (w w' : World E) (next next' : Option String → Reply E A)
    (request : Request) (l : Link) where
  -- A first answer that is no rejection is the caller's, from one sending, with the token that the
  -- token manager gave.
  pub auth_interceptor-ok :
      (token : Option String) (a : A)
      → (get_valid_access_token w l.device).0 ≡ ok token
      → next (attach token request.authorization) ≡ ok a
      → ((auth_interceptor w w' next next' request l).0 ≡ ok a)
        × ((auth_interceptor w w' next next' request l).1.sent
            ≡ l.sent ++ attach token request.authorization ∷ [])
  unfolding auth_interceptor
  auth_interceptor-ok token a held answered = ground arith

  -- A failure that is not an authentication failure, or that of a stream, is the caller's: nothing is
  -- sent again and no token is rotated.
  pub auth_interceptor-passes_on :
      (token : Option String) (e : E)
      → (get_valid_access_token w l.device).0 ≡ ok token
      → next (attach token request.authorization) ≡ err e
      → ((request.stream ≡ true) ⊎ (w.code_of e ≢ Code.unauthenticated))
      → ((auth_interceptor w w' next next' request l).0 ≡ err e)
        × ((auth_interceptor w w' next next' request l).1.sent
            ≡ l.sent ++ attach token request.authorization ∷ [])
        × ((auth_interceptor w w' next next' request l).1.device
            ≡ (get_valid_access_token w l.device).1)
  unfolding auth_interceptor
  auth_interceptor-passes_on token e held failed final = ground arith
