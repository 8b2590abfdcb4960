-- ===== src/Web/Shared.antt =====
-- `refreshTokens` of web/src/proxy.ts: the map from refresh tokens to the requests that are under way, and
-- the retries of `proxy` itself, which pass the map by. A promise is a number. The entry is deleted by the
-- first reaction to the answer, and the callers that it refuses retry; both are one event with the answer
-- here.
pub mod Single
use dropbox_go_grpc_microser.Prelude.{
  ℕ, suc, String, Bool, true, false, not, ◌++◌, keep, str_eq, Option, none, some, List, [], ◌∷◌,
  ◌==◌, if◌then◌else◌,
}
use dropbox_go_grpc_microser.Dict.{Dict, lookup, insert, erase}

-- A request that the auth service has not answered, with the token that it presents.
pub record Sent : Type 0 where
  pub promise : ℕ
  pub token : String

pub record Requests : Type 0 where
  -- refreshRequests
  pub by_token : Dict ℕ
  pub running : List Sent
  pub next : ℕ
  -- The promises that callers await, one entry for each caller.
  pub awaited : List ℕ
  -- The tokens of the retries that run, and those that were refused by `refreshTokens`.
  pub retried : List String
  pub refused : List String

abbrev pub init : Requests
init = record { by_token = []; running = []; next = 0; awaited = []; retried = []; refused = [] }

abbrev request : String → Requests → ℕ × Requests
request token s = (
  s.next,
  record s {
    by_token = insert token s.next s.by_token;
    running = record { promise = s.next; token = token } ∷ s.running;
    next = suc s.next;
    awaited = s.next ∷ s.awaited;
  },
)

unfoldable pub refresh_tokens : String → Requests → ℕ × Requests
refresh_tokens token s = elim (lookup token s.by_token) [
  | some existing ↦ (existing, record s { awaited = existing ∷ s.awaited })
  | none ↦ request token s
]

abbrev pub token_of : ℕ → List Sent → Option String
token_of n [] = none
token_of n (r ∷ rs) = let rest = token_of n rs in if r.promise == n then some r.token else rest

abbrev pub leave : ℕ → List Sent → List Sent
leave n [] = []
leave n (r ∷ rs) = let rest = leave n rs in if r.promise == n then rs else r ∷ rest

-- The callers that do not await a promise.
abbrev others : ℕ → List ℕ → List ℕ
others n ns = keep (λ k. not (k == n)) ns

-- A token for each caller that awaits a promise.
abbrev pub retries : ℕ → String → List ℕ → List String
retries n token [] = []
retries n token (k ∷ ks) = if k == n then token ∷ retries n token ks else retries n token ks

-- A request is answered, with tokens or with an error. In the `catch` of `proxy`, each caller that is
-- refused presents the token once more.
unfoldable pub answered : ℕ → (is_ok : Bool) → Requests → Requests
answered n is_ok s = elim (token_of n s.running) [
  | none ↦ s
  | some token ↦ record s {
    by_token = erase token s.by_token;
    running = leave n s.running;
    awaited = others n s.awaited;
    retried = (if is_ok then s.retried else retries n token s.awaited ++ s.retried);
    refused = (if is_ok then s.refused else token ∷ s.refused);
  }
]

abbrev pub without : String → List String → List String
without token [] = []
without token (t ∷ ts) = if str_eq t token then ts else t ∷ without token ts

-- A retry is answered, well or not.
unfoldable pub retry_answered : String → Requests → Requests
retry_answered token s = record s { retried = without token s.retried }
