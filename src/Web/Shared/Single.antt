-- ===== src/Web/Shared/Single.antt =====
-- How many requests for a token run, in any order of events.
use dropbox_go_grpc_microser.Prelude.{
  ℕ, suc, ◌≤◌, String, ◌≡◌, refl, Bool, true, false, ◌++◌, ◌⊎◌, any, Option, none, some, [], ◌∷◌,
  List, arith, str_eq, eq_iff, eq_refl, Bool-cases, Option-cases, inl, inr, if◌then◌else◌,
}
use dropbox_go_grpc_microser.Dict.{lookup, lookup-insert, lookup-erase}
use dropbox_go_grpc_microser.Web.Shared.{
  Sent, Requests, init, refresh_tokens, token_of, leave, answered, retries, without, retry_answered,
}

-- How many requests for a token run, and the newest of them.
abbrev pub count : String → List Sent → ℕ
count token [] = 0
count token (r ∷ rs) = if str_eq r.token token then suc (count token rs) else count token rs

abbrev pub running_for : String → List Sent → Option ℕ
running_for token [] = none
running_for token (r ∷ rs) =
    let rest = running_for token rs in if str_eq r.token token then some r.promise else rest

pub data Step : Requests → Requests → Type 0 where
  asks : (token : String) (s : Requests) → Step s (refresh_tokens token s).1
  answers : (n : ℕ) (is_ok : Bool) (s : Requests) → Step s (answered n is_ok s)
  retry_answers : (token : String) (s : Requests) → Step s (retry_answered token s)

pub data Reach : Requests → Type 0 where
  here : Reach init
  next : {s u : Requests} → Reach s → Step s u → Reach u

-- The map holds for each token the request that runs for it, and there is one at most.
abbrev IsShared : Requests → Type 0
IsShared s =
    (token : String)
    → (lookup token s.by_token ≡ running_for token s.running) × (count token s.running ≤ 1)

count-running_for : (k : String) (rs : List Sent) → running_for k rs ≡ none → count k rs ≡ 0
count-running_for k [] h = refl
count-running_for k (r ∷ rs) h = ground (arith, count-running_for k rs)

running_for-count : (k : String) (rs : List Sent) → count k rs ≡ 0 → running_for k rs ≡ none
running_for-count k [] h = refl
running_for-count k (r ∷ rs) h = ground (arith, running_for-count k rs)

count-leave :
    (n : ℕ) (token k : String) (rs : List Sent)
    → token_of n rs ≡ some token
    → count k rs ≡ (if str_eq token k then suc (count k (leave n rs)) else count k (leave n rs))
count-leave n token k [] h = cc
count-leave n token k (r ∷ rs) h = ground (arith, count-leave n token k rs)

running_for-leave :
    (n : ℕ) (token k : String) (rs : List Sent)
    → token_of n rs ≡ some token
    → str_eq token k ≡ false
    → running_for k (leave n rs) ≡ running_for k rs
running_for-leave n token k [] h other = cc
running_for-leave n token k (r ∷ rs) h other = ground (arith, running_for-leave n token k rs)

refresh_tokens-IsShared :
    (token : String) (s : Requests) → IsShared s → IsShared (refresh_tokens token s).1
unfolding refresh_tokens
refresh_tokens-IsShared token s h k = elim (Option-cases (lookup token s.by_token)) [
  | inr (n, there) ↦ let shared = h k in ground arith
  | inl absent ↦
      let idle = count-running_for token s.running in
      let here = h token in
      let shared = h k in
      ground (arith, idle, lookup-insert token k s.next s.by_token, eq_iff token k)
]

answered-IsShared :
    (n : ℕ) (is_ok : Bool) (s : Requests) → IsShared s → IsShared (answered n is_ok s)
unfolding answered
answered-IsShared n is_ok s h k = elim (Option-cases (token_of n s.running)) [
  | inl gone ↦ let shared = h k in ground arith
  | inr (token, waits) ↦
      let shared = h k in
      let counted = count-leave n token k s.running waits in
      let erased = lookup-erase token k s.by_token in
      elim (Bool-cases (str_eq token k)) [
        | inl same ↦
            let idle = running_for-count k (leave n s.running) (ground arith) in ground arith
        | inr other ↦ let kept = running_for-leave n token k s.running waits other in ground arith
      ]
]

Step-IsShared : {s u : Requests} → Step s u → IsShared s → IsShared u
unfolding retry_answered
Step-IsShared (asks token s) h = refresh_tokens-IsShared token s h
Step-IsShared (answers n is_ok s) h = answered-IsShared n is_ok s h
Step-IsShared (retry_answers token s) h = h

Reach-IsShared : {s : Requests} → Reach s → IsShared s
unfolding lookup
Reach-IsShared here = λ token. (refl, omega arith)
Reach-IsShared (next r st) = Step-IsShared st (Reach-IsShared r)

-- How many retries present a token, and whether a request with it was refused.
abbrev pub count_retries : String → List String → ℕ
count_retries token [] = 0
count_retries token (t ∷ ts) =
    if str_eq t token then suc (count_retries token ts) else count_retries token ts

abbrev pub has_token : String → List String → Bool
has_token token ts = any (λ t. str_eq t token) ts

-- A token is retried only where a request with it was refused.
abbrev IsProvoked : Requests → Type 0
IsProvoked s =
    (token : String) → (count_retries token s.retried ≡ 0) ⊎ (has_token token s.refused ≡ true)

count_retries-without :
    (token k : String) (ts : List String) → count_retries k (without token ts) ≤ count_retries k ts
count_retries-without token k [] = omega arith
count_retries-without token k (t ∷ ts) = ground (arith, count_retries-without token k ts)

count_retries-retries :
    (n : ℕ) (token k : String) (ns : List ℕ) (ts : List String)
    → str_eq token k ≡ false
    → count_retries k (retries n token ns ++ ts) ≡ count_retries k ts
count_retries-retries n token k [] ts other = refl
count_retries-retries n token k (m ∷ ns) ts other =
    ground (arith, count_retries-retries n token k ns ts other)

answered-IsProvoked :
    (n : ℕ) (is_ok : Bool) (s : Requests) → IsProvoked s → IsProvoked (answered n is_ok s)
unfolding answered
answered-IsProvoked n true s h k = let before = h k in ground arith
answered-IsProvoked n false s h k = elim (Option-cases (token_of n s.running)) [
  | inl gone ↦ let before = h k in ground arith
  | inr (token, waits) ↦ elim (Bool-cases (str_eq token k)) [
    | inl same ↦ inr (ground arith)
    | inr other ↦
        let before = h k in
        let kept = count_retries-retries n token k s.awaited s.retried other in ground arith
  ]
]

Step-IsProvoked : {s u : Requests} → Step s u → IsProvoked s → IsProvoked u
unfolding refresh_tokens retry_answered
Step-IsProvoked (asks token s) h k = let before = h k in ground arith
Step-IsProvoked (answers n is_ok s) h k = answered-IsProvoked n is_ok s h k
Step-IsProvoked (retry_answers token s) h k =
    let before = h k in ground (arith, count_retries-without token k s.retried)

Reach-IsProvoked : {s : Requests} → Reach s → IsProvoked s
Reach-IsProvoked here = λ token. inl refl
Reach-IsProvoked (next r st) = Step-IsProvoked st (Reach-IsProvoked r)

-- However the requests of the middleware overlap, after a call of `refreshTokens` exactly one request
-- that `refreshTokens` has sent with its refresh token runs, and it is the one that the caller waits for.
-- The retries of `proxy`, which are sent beside these, present the token too only if an earlier request
-- of `refreshTokens` with it was refused.
pub refresh_tokens-shares :
    {s : Requests} (token : String)
    → Reach s
    → (count token (refresh_tokens token s).1.running ≡ 1)
      × (running_for token (refresh_tokens token s).1.running ≡ some (refresh_tokens token s).0)
      × ((count_retries token (refresh_tokens token s).1.retried ≡ 0)
          ⊎ (has_token token (refresh_tokens token s).1.refused ≡ true))
unfolding refresh_tokens
refresh_tokens-shares {s = s} token r =
    let shared = Reach-IsShared r token in
    let provoked = Reach-IsProvoked (next r (asks token s)) token in
    elim (Option-cases (lookup token s.by_token)) [
      | inl absent ↦
          let idle = count-running_for token s.running (ground arith) in
          (ground (arith, eq_refl token), ground (arith, eq_refl token), provoked)
      | inr (n, there) ↦
          (ground (arith, running_for-count token s.running), ground (arith, shared), provoked)
    ]
