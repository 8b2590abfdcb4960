-- ===== src/Web/Save/Progress/Totals.antt =====
-- What the reports add up to.
use mathlib.Core.Path.{subst}
use dropbox_go_grpc_microser.Prelude.{
  ℕ, sym, zero, suc, ◌+◌, ◌-◌, ◌≤◌, ◌≡◌, refl, true, none, List, [], ◌∷◌, arith, length, any, ◌==◌,
  drop, All, Bool-cases, inl, inr,
}
use dropbox_go_grpc_microser.Web.Save.{Indexed, total_size}
use dropbox_go_grpc_microser.Web.Workers.{without, resolve, start, parallel_workers}
use dropbox_go_grpc_microser.Web.Workers.Once
use dropbox_go_grpc_microser.Web.Workers.Once.{IsSound, Run, Run-IsSound, length-without}
use dropbox_go_grpc_microser.Web.Save.Progress.{
  EditSavePhase, uploading, EditSaveProgress, Reporting, weights, weight_at, begin, take_next,
  finish, fail, count_block, commit_progress,
}

module _ (phase : EditSavePhase) (items : List Indexed) where
  -- The weights of the running tasks, and of those that failed.
  abbrev pub running_weight : List ℕ → ℕ
  running_weight [] = 0
  running_weight (i ∷ is) = weight_at phase items i + running_weight is

  running_weight-without :
      (i : ℕ) (is : List ℕ)
      → any (λ j. j == i) is ≡ true
      → running_weight is ≡ weight_at phase items i + running_weight (without i is)
  running_weight-without i [] h = cc
  running_weight-without i (j ∷ is) h = ground (arith, running_weight-without i is)

-- A report within its totals.
abbrev pub IsWithin : EditSavePhase → List Indexed → EditSaveProgress → Type 0
IsWithin phase items p =
    (p.completed ≤ p.total)
    × (p.total ≡ length items)
    × (p.bytes_uploaded ≤ p.bytes_to_upload)
    × (p.bytes_to_upload ≡ weights phase items)

-- Reports, newest first, of which each counts one block more than the one before, from none on.
abbrev pub IsCounting : List EditSaveProgress → Type 0
IsCounting [] = Unit
IsCounting (p ∷ ps) = (p.completed ≡ length ps) × IsCounting ps

weights-drop :
    (phase : EditSavePhase) (items : List Indexed) (k : ℕ)
    → weights phase (drop k items) ≡ weight_at phase items k + weights phase (drop (suc k) items)
weights-drop phase [] zero = refl
weights-drop phase [] (suc k) = refl
weights-drop phase (x ∷ xs) zero = refl
weights-drop phase (x ∷ xs) (suc k) = weights-drop phase xs k

drop-all : (items : List Indexed) (k : ℕ) → length items ≤ k → drop k items ≡ []
drop-all [] zero h = refl
drop-all [] (suc k) h = refl
drop-all (x ∷ xs) zero h = absurd (omega arith)
drop-all (x ∷ xs) (suc k) h = drop-all xs k (omega arith)

module _ {E : Type 0} (phase : EditSavePhase) (items : List Indexed) where
  abbrev failed_weight : List (ℕ × E) → ℕ
  failed_weight [] = 0
  failed_weight ((i, e) ∷ is) = weight_at phase items i + failed_weight is

  -- Each byte is uploaded, on the way, lost to a failure or not begun.
  pub record IsConserved (r : Reporting E) : Type 0 where
    pub bytes :
        r.bytes_uploaded
          + running_weight phase items r.pool.running
          + failed_weight r.pool.failed
          + weights phase (drop r.pool.next items)
        ≡ weights phase items
    pub blocks :
        r.completed + length r.pool.running + length r.pool.failed + (length items - r.pool.next)
        ≡ length items
    pub counted : r.completed ≡ length r.pool.completed
    pub within : All (IsWithin phase items) r.reports
    pub reported : length r.reports ≡ suc r.completed
    pub counting : IsCounting r.reports

  -- What the event loop does to a phase.
  pub data Step : Reporting E → Reporting E → Type 0 where
    goes_on : (r : Reporting E) → Step r (take_next phase items r)
    finishes : (i : ℕ) (r : Reporting E) → Step r (finish phase items i r)
    fails : (i : ℕ) (e : E) (r : Reporting E) → Step r (fail phase items i e r)

  pub data Reach : Reporting E → Type 0 where
    here : Reach (begin phase items)
    next : {q r : Reporting E} → Reach q → Step q r → Reach r

  begin-IsConserved : IsConserved (begin phase items)
  unfolding begin
  begin-IsConserved = record {
    bytes = omega arith;
    blocks = omega arith;
    counted = refl;
    within = ((omega arith, refl, omega arith, refl), tt);
    reported = refl;
    counting = (refl, tt);
  }

  take_next-IsConserved : (r : Reporting E) → IsConserved r → IsConserved (take_next phase items r)
  unfolding take_next
  take_next-IsConserved r c = record {
    bytes =
        ground (arith, c.bytes, weights-drop phase items r.pool.next, drop-all items r.pool.next);
    blocks = ground (arith, c.blocks);
    counted = ground (arith, c.counted);
    within = c.within;
    reported = c.reported;
    counting = c.counting;
  }

  count_block-IsConserved :
      (i : ℕ) (r : Reporting E)
      → any (λ j. j == i) r.pool.running ≡ true
      → IsConserved r
      → IsConserved (count_block phase items i r)
  unfolding resolve
  count_block-IsConserved i r runs c =
      let moved = running_weight-without phase items i r.pool.running runs in
      record {
        bytes = ground (arith, c.bytes, moved);
        blocks = ground (arith, c.blocks, length-without i r.pool.running runs);
        counted = ground (arith, c.counted);
        within = (
          (
            ground (arith, c.blocks, length-without i r.pool.running runs),
            refl,
            omega (arith, c.bytes, moved),
            refl,
          ),
          c.within,
        );
        reported = omega (arith, c.reported);
        counting = (omega (arith, c.reported), c.counting);
      }

  finish-IsConserved :
      (i : ℕ) (r : Reporting E) → IsConserved r → IsConserved (finish phase items i r)
  unfolding finish
  finish-IsConserved i r c = elim (Bool-cases (any (λ j. j == i) r.pool.running)) [
    | inl runs ↦
        let counts : finish phase items i r ≡ count_block phase items i r = rw runs in
        subst IsConserved (sym counts) (count_block-IsConserved i r runs c)
    | inr idle ↦ let stays : finish phase items i r ≡ r = rw idle in subst IsConserved (sym stays) c
  ]

  fail-IsConserved :
      (i : ℕ) (e : E) (r : Reporting E) → IsConserved r → IsConserved (fail phase items i e r)
  unfolding fail
  fail-IsConserved i e r c = record {
    bytes = ground (arith, c.bytes, running_weight-without phase items i r.pool.running);
    blocks = ground (arith, c.blocks, length-without i r.pool.running);
    counted = ground (arith, c.counted);
    within = c.within;
    reported = c.reported;
    counting = c.counting;
  }

  Reach-IsConserved : {r : Reporting E} → Reach r → IsConserved r
  Reach-IsConserved here = begin-IsConserved
  Reach-IsConserved (next h (goes_on r)) = take_next-IsConserved r (Reach-IsConserved h)
  Reach-IsConserved (next h (finishes i r)) = finish-IsConserved i r (Reach-IsConserved h)
  Reach-IsConserved (next h (fails i e r)) = fail-IsConserved i e r (Reach-IsConserved h)

  -- The workers of a phase run as those of a pool.
  pool-finish : (i : ℕ) (r : Reporting E) → (finish phase items i r).pool ≡ resolve i r.pool
  unfolding finish resolve
  pool-finish i r = ground arith

  Reach-Run :
      {r : Reporting E}
      → Reach r
      → Run (length items) (start parallel_workers (length items)) r.pool
  unfolding begin take_next fail
  Reach-Run here = Once.here
  Reach-Run (next h (goes_on r)) = Once.next (Reach-Run h) (Once.go_on r.pool)
  Reach-Run (next h (finishes i r)) =
      subst (Run (length items) (start parallel_workers (length items))) (sym (pool-finish i r))
        (Once.next (Reach-Run h) (Once.resolves i r.pool))
  Reach-Run (next h (fails i e r)) = Once.next (Reach-Run h) (Once.rejects i e r.pool)

  -- In whatever order the tasks of a phase end: once all workers have returned and none has failed, all
  -- blocks of the phase and all their bytes are counted. There was one report for each number of blocks,
  -- from none to all, in this order, and none was beyond the totals of blocks and of bytes.
  pub Reach-totals :
      {r : Reporting E}
      → Reach r
      → r.pool.idle ≡ 0
      → r.pool.running ≡ []
      → r.pool.failure ≡ none
      → (r.completed ≡ length items)
        × (r.bytes_uploaded ≡ weights phase items)
        × All (IsWithin phase items) r.reports
        × (length r.reports ≡ suc (length items))
        × IsCounting r.reports
  Reach-totals {r = r} h done none_runs fine =
      let c = Reach-IsConserved h in
      let s = Run-IsSound parallel_workers (length items) 0 (Reach-Run h) in
      let spared = s.spared fine in
      let begun : length items ≤ r.pool.next = ground (arith, s.workers, s.exhausted fine) in
      let rest = drop-all items r.pool.next begun in
      (
        ground (arith, c.blocks),
        ground (arith, c.bytes, rest),
        c.within,
        ground (arith, c.blocks, c.reported),
        c.counting,
      )

weights-total_size : (items : List Indexed) → weights uploading items ≡ total_size items
weights-total_size [] = refl
weights-total_size (x ∷ xs) = ground (arith, weights-total_size xs)

-- The bytes that a save returns as uploaded are those that its workers have counted: once the workers of
-- the upload have returned without a failure, the report before the commit has all bytes as uploaded.
commit_progress-Reach :
    {E : Type 0} (items : List Indexed) {r : Reporting E}
    → Reach uploading items r
    → r.pool.idle ≡ 0
    → r.pool.running ≡ []
    → r.pool.failure ≡ none
    → ((commit_progress items r).bytes_uploaded ≡ total_size items)
      × ((commit_progress items r).bytes_to_upload ≡ total_size items)
      × ((commit_progress items r).completed ≡ r.completed)
unfolding commit_progress
commit_progress-Reach items h done none_runs fine =
    let (blocks, bytes, within, numbered, counting) =
      Reach-totals uploading items h done none_runs fine in
    (ground (arith, weights-total_size items), weights-total_size items, sym blocks)
