-- ===== src/Web/Retry.antt =====
-- `uploadBlockWithRetry` and `isRetryable` of web/src/modules/files/lib/edit-commit.ts. What the
-- upload service, the abort signal and `Math.random` give at each attempt is an argument.
pub mod Bounds
pub mod Sleep
use dropbox_go_grpc_microser.Prelude.{
  ℕ, zero, suc, ◌+◌, ◌*◌, ◌^◌, Bool, true, false, not, ◌||◌, Option, none, some, List, [], ◌∷◌, leb,
  if◌then◌else◌,
}
use dropbox_go_grpc_microser.Exec.{Reply, ok, err}
use dropbox_go_grpc_microser.Rpc.{Code}

abbrev pub upload_attempts : ℕ
upload_attempts = 3

abbrev pub retry_base_delay_ms : ℕ
retry_base_delay_ms = 250

abbrev pub retry_code : Code → Bool
retry_code Code.unavailable = true
retry_code Code.internal = true
retry_code Code.deadline_exceeded = true
retry_code Code.resource_exhausted = true
retry_code Code.unknown = true
retry_code _ = false

pub record Link (E : Type 0) : Type 0 where
  pub code_of : E → Code
  -- `new EditSaveAbortedError()`, and `error instanceof EditSaveAbortedError`.
  pub aborted_error : E
  pub is_aborted_error : E → Bool
  -- signal?.aborted, at the start of an attempt and while the wait after it lasts.
  pub aborted : ℕ → Bool
  pub aborted_asleep : ℕ → Bool
  -- What `writeEditBlock` answers to an attempt.
  pub write : ℕ → Reply E Unit
  -- Math.random(), in thousandths.
  pub random : ℕ → ℕ

pub record Outcome (E : Type 0) : Type 0 where
  pub result : Reply E Unit
  -- How many requests were sent, and the waits between them, in thousandths of a millisecond.
  pub writes : ℕ
  pub waits : List ℕ

module _ {E : Type 0} (l : Link E) where
  unfoldable pub is_retryable : E → Bool
  is_retryable e = if l.is_aborted_error e then false else retry_code (l.code_of e)

  -- RETRY_BASE_DELAY_MS * 2 ** attempt * (0.5 + Math.random())
  unfoldable pub delay : ℕ → ℕ
  delay attempt = retry_base_delay_ms * 2 ^ attempt * (500 + l.random attempt)

  abbrev after : Option (Outcome E) → ℕ → Option (Outcome E)
  after none wait = none
  after (some o) wait = some (record o { writes = suc o.writes; waits = wait ∷ o.waits })

  abbrev stop : Reply E Unit → ℕ → Option (Outcome E)
  stop r writes = some (record { result = r; writes = writes; waits = [] })

  -- The loop, from an attempt on, with the rounds that are left; `none` means that they ran out.
  unfoldable pub attempt_from : ℕ → ℕ → Option (Outcome E)
  unfolding is_retryable
  attempt_from zero attempt = none
  attempt_from (suc fuel) attempt =
      let rest = after (attempt_from fuel (suc attempt)) (delay attempt) in
      if l.aborted attempt then stop (err l.aborted_error) 0 else (elim (l.write attempt) [
        | ok done ↦ stop (ok tt) 1
        | err e ↦
            if leb upload_attempts (attempt + 1) || not (is_retryable e)
            then stop (err e) 1
            else if l.aborted_asleep attempt
            then some
                (record { result = err l.aborted_error; writes = 1; waits = delay attempt ∷ [] })
            else rest
      ])

  unfoldable pub upload_block_with_retry : Option (Outcome E)
  unfolding attempt_from
  upload_block_with_retry = attempt_from upload_attempts 0
