-- ===== src/Web/Save/Progress.antt =====
-- The progress that `saveEditedFile` of web/src/modules/files/lib/edit-commit.ts reports while the workers
-- hash or upload the blocks: the workers of `Web.Workers`, with the counters of `hashBlocks` and of the
-- upload's task beside them. A task's end is one event: its promise and the counting run on without an
-- `await` between them.
pub mod Totals
use dropbox_go_grpc_microser.Prelude.{
  ℕ, zero, suc, ◌+◌, Bool, List, [], ◌∷◌, length, any, ◌==◌, if◌then◌else◌,
}
use dropbox_go_grpc_microser.Web.Save.{Indexed}
use dropbox_go_grpc_microser.Web.Workers.{Pool, start, advance, resolve, reject, parallel_workers}

pub data EditSavePhase : Type 0 where
  hashing uploading committing : EditSavePhase

pub record EditSaveProgress : Type 0 where
  pub phase : EditSavePhase
  pub completed : ℕ
  pub total : ℕ
  pub bytes_uploaded : ℕ
  pub bytes_to_upload : ℕ

-- A phase that runs, with what it has reported, newest first.
pub record Reporting (E : Type 0) : Type 0 where
  pub pool : Pool E
  pub completed : ℕ
  pub bytes_uploaded : ℕ
  pub reports : List EditSaveProgress

-- What a block adds to the bytes of a phase: hashing sends none.
abbrev pub weight : EditSavePhase → Indexed → ℕ
weight uploading x = length x.block
weight _ x = 0

abbrev pub weights : EditSavePhase → List Indexed → ℕ
weights phase [] = 0
weights phase (x ∷ xs) = weight phase x + weights phase xs

-- The weight of the item at an index, and 0 past the end, where no task runs.
abbrev pub weight_at : EditSavePhase → List Indexed → ℕ → ℕ
weight_at phase [] i = 0
weight_at phase (x ∷ xs) zero = weight phase x
weight_at phase (x ∷ xs) (suc i) = weight_at phase xs i

module _ (phase : EditSavePhase) (items : List Indexed) where
  abbrev pub progress : ℕ → ℕ → EditSaveProgress
  progress completed bytes_uploaded = record {
    phase = phase;
    completed = completed;
    total = length items;
    bytes_uploaded = bytes_uploaded;
    bytes_to_upload = weights phase items;
  }

module _ {E : Type 0} (phase : EditSavePhase) (items : List Indexed) where
  -- The phase's first report, and its workers.
  unfoldable pub begin : Reporting E
  unfolding start
  begin = record {
    pool = start parallel_workers (length items);
    completed = 0;
    bytes_uploaded = 0;
    reports = progress phase items 0 0 ∷ [];
  }

  -- A worker takes the next block, or returns.
  unfoldable pub take_next : Reporting E → Reporting E
  unfolding advance
  take_next r = record r { pool = advance (length items) r.pool }

  -- The task of an index ends well: it counts its block, and reports.
  abbrev pub count_block : ℕ → Reporting E → Reporting E
  count_block i r = record {
    pool = resolve i r.pool;
    completed = suc r.completed;
    bytes_uploaded = r.bytes_uploaded + weight_at phase items i;
    reports =
        progress phase items (suc r.completed) (r.bytes_uploaded + weight_at phase items i)
        ∷ r.reports;
  }

  unfoldable pub finish : ℕ → Reporting E → Reporting E
  unfolding resolve
  finish i r = if any (λ j. j == i) r.pool.running then count_block i r else r

  -- It fails, after its retries or by the signal.
  unfoldable pub fail : ℕ → E → Reporting E → Reporting E
  unfolding reject
  fail i e r = record r { pool = reject i e r.pool }

-- The report before the commit, of the blocks that were to be sent.
unfoldable pub commit_progress : {E : Type 0} → List Indexed → Reporting E → EditSaveProgress
commit_progress items r = record {
  phase = committing;
  completed = length items;
  total = length items;
  bytes_uploaded = r.bytes_uploaded;
  bytes_to_upload = weights uploading items;
}
