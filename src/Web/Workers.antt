-- ===== src/Web/Workers.antt =====
-- `runWithWorkers` of web/src/modules/files/lib/edit-commit.ts. Each worker is between two tasks
-- (`idle`), awaiting its task (`running` has the task's index), or has returned. The functions are
-- the stretches that run without an `await`; which comes next is up to the event loop.
pub mod Once
pub mod Settled
pub mod Ends
use dropbox_go_grpc_microser.Prelude.{
  ℕ, zero, suc, ◌+◌, ◌-◌, Option, none, some, List, [], ◌∷◌, ltb, leb, ◌==◌, min, any,
  if◌then◌else◌,
}

pub record Pool (E : Type 0) : Type 0 where
  pub next : ℕ
  pub failure : Option E
  pub idle : ℕ
  pub running : List ℕ
  pub returned : ℕ
  -- The tasks that resolved, and those that rejected, newest first.
  pub completed : List ℕ
  pub failed : List (ℕ × E)

abbrev pub parallel_workers : ℕ
parallel_workers = 4

abbrev pub without : ℕ → List ℕ → List ℕ
without i [] = []
without i (j ∷ js) = if j == i then js else j ∷ without i js

module _ {E : Type 0} where
  -- The workers are made, `Math.min(limit, items.length)` of them.
  unfoldable pub start : (limit items : ℕ) → Pool E
  start limit items = record {
    next = 0;
    failure = none;
    idle = min limit items;
    running = [];
    returned = 0;
    completed = [];
    failed = [];
  }

  abbrev leave : Pool E → Pool E
  leave p = record p { idle = p.idle - 1; returned = suc p.returned }

  -- The loop's test and the start of a task, by a worker that is between two tasks.
  unfoldable pub advance : (items : ℕ) → Pool E → Pool E
  advance items p =
      if ltb 0 p.idle
      then (elim p.failure [
        | some e ↦ leave p
        | none ↦
            if leb items p.next
            then record (leave p) { next = suc p.next }
            else record p { next = suc p.next; idle = p.idle - 1; running = p.next ∷ p.running }
      ])
      else p

  -- The task of an index resolves: its worker goes back to the loop's test.
  unfoldable pub resolve : ℕ → Pool E → Pool E
  resolve i p =
      if any (λ j. j == i) p.running
      then record p {
        idle = suc p.idle;
        running = without i p.running;
        completed = i ∷ p.completed;
      }
      else p

  -- The task of an index rejects: `failure` is set and its worker returns.
  unfoldable pub reject : ℕ → E → Pool E → Pool E
  reject i e p =
      if any (λ j. j == i) p.running
      then record p {
        failure = some e;
        running = without i p.running;
        returned = suc p.returned;
        failed = (i, e) ∷ p.failed;
      }
      else p
