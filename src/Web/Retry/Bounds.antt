-- ===== src/Web/Retry/Bounds.antt =====
-- How often a block is sent, and how long the save waits for it.
use dropbox_go_grpc_microser.Prelude.{
  ℕ, zero, suc, ◌+◌, ◌*◌, ◌≤◌, ◌<◌, ◌≡◌, true, false, Option, none, some, List, [], ◌∷◌, arith,
  length, ◌-◌,
}
use dropbox_go_grpc_microser.Exec.{ok, err}
use dropbox_go_grpc_microser.Web.Retry.{
  Link, Outcome, is_retryable, delay, attempt_from, upload_block_with_retry,
}

abbrev pub sum : List ℕ → ℕ
sum [] = 0
sum (x ∷ xs) = x + sum xs

-- The loop has come to an end, with an outcome of which `P` holds.
abbrev pub Ends : {E : Type 0} → Option (Outcome E) → (Outcome E → Type 0) → Type 0
Ends none P = ⊥
Ends (some o) P = P o

Ends-map :
    {E : Type 0} (r : Option (Outcome E)) {P : Outcome E → Type 0} (Q : Outcome E → Type 0)
    → ((o : Outcome E) → P o → Q o)
    → Ends r P
    → Ends r Q
Ends-map none Q f h = h
Ends-map (some o) Q f h = f o h

module _ {E : Type 0} (l : Link E) where
  -- From an attempt on, the rounds left being those up to the third attempt.
  abbrev Sent : ℕ → Outcome E → Type 0
  Sent attempt o =
      (o.writes + attempt ≤ 3)
      × (o.writes ≤ suc (length o.waits))
      × (length o.waits ≤ o.writes)
      × (o.result ≡ ok tt → (0 < o.writes) × (l.write (o.writes + attempt - 1) ≡ ok tt))

  -- At most three requests, with a wait before each but the first and at most one more; a success
  -- is the service's answer to the last request.
  abbrev pub Requests : Outcome E → Type 0
  Requests o =
      (o.writes ≤ 3)
      × (o.writes ≤ suc (length o.waits))
      × (length o.waits ≤ o.writes)
      × (o.result ≡ ok tt → (0 < o.writes) × (l.write (o.writes - 1) ≡ ok tt))

  last_round : Ends (attempt_from l 1 2) (Sent 2)
  unfolding attempt_from
  last_round = ground arith

  earlier_round :
      (fuel attempt : ℕ)
      → attempt < 2
      → Ends (attempt_from l fuel (suc attempt)) (Sent (suc attempt))
      → Ends (attempt_from l (suc fuel) attempt) (Sent attempt)
  unfolding attempt_from
  earlier_round fuel attempt early later = ground arith

  -- The loop ends within its three rounds: at most three requests are sent, with a wait before each
  -- but the first and at most one more; and a success is the service's answer to the last request.
  pub upload_block_with_retry-ends : Ends (upload_block_with_retry l) Requests
  unfolding upload_block_with_retry
  upload_block_with_retry-ends =
      let second : Ends (attempt_from l 2 1) (Sent 1) =
        earlier_round 1 1 (omega arith) last_round in
      Ends-map (attempt_from l 3 0) Requests
        (λ o s. (ground arith, ground arith, ground arith, λ done. ground (arith, s.3 done)))
        (earlier_round 2 0 (omega arith) second)

  -- An error that another attempt cannot mend is the caller's after one request.
  pub upload_block_with_retry-gives_up :
      (e : E)
      → l.aborted 0 ≡ false
      → l.write 0 ≡ err e
      → is_retryable l e ≡ false
      → upload_block_with_retry l ≡ some (record { result = err e; writes = 1; waits = [] })
  unfolding upload_block_with_retry
  upload_block_with_retry-gives_up e runs failed final = ground arith

  -- One attempt that is answered, after failures that may be transient and waits that nobody ends,
  -- is enough.
  pub upload_block_with_retry-recovers :
      (e f : E)
      → l.aborted 0 ≡ false
      → l.write 0 ≡ err e
      → is_retryable l e ≡ true
      → l.aborted_asleep 0 ≡ false
      → l.aborted 1 ≡ false
      → l.write 1 ≡ err f
      → is_retryable l f ≡ true
      → l.aborted_asleep 1 ≡ false
      → l.aborted 2 ≡ false
      → l.write 2 ≡ ok tt
      → upload_block_with_retry l
        ≡ some (record { result = ok tt; writes = 3; waits = delay l 0 ∷ delay l 1 ∷ [] })
  unfolding upload_block_with_retry
  upload_block_with_retry-recovers e f a b c d g h i j k m = ground arith

  module _ (random_below : (attempt : ℕ) → l.random attempt < 1000) where
    abbrev Waits : ℕ → Outcome E → Type 0
    Waits bound o = sum o.waits ≤ bound

    delay-le : (attempt : ℕ) → attempt < 2 → delay l attempt ≤ 375000 * suc attempt
    unfolding delay
    delay-le zero h = omega (arith, random_below 0)
    delay-le (suc zero) h = omega (arith, random_below 1)
    delay-le (suc (suc a)) h = absurd (omega arith)

    last_wait : Ends (attempt_from l 1 2) (Waits 0)
    unfolding attempt_from
    last_wait = ground arith

    earlier_wait :
        (fuel attempt bound : ℕ)
        → attempt < 2
        → Ends (attempt_from l fuel (suc attempt)) (Waits bound)
        → Ends (attempt_from l (suc fuel) attempt) (Waits (375000 * suc attempt + bound))
    unfolding attempt_from
    earlier_wait fuel attempt bound early later = ground (arith, delay-le attempt early)

    -- The waits for one block come to at most 1.125 seconds, as long as `Math.random` is below one.
    pub upload_block_with_retry-waits :
        Ends (upload_block_with_retry l) (λ o. sum o.waits ≤ 1125000)
    unfolding upload_block_with_retry
    upload_block_with_retry-waits =
        earlier_wait 2 0 750000 (omega arith) (earlier_wait 1 1 0 (omega arith) last_wait)
