-- ===== src/Web/Edit/Runs.antt =====
-- How many saves run, in any order of events.
use dropbox_go_grpc_microser.Prelude.{
  ℕ, suc, ◌≤◌, ◌≡◌, refl, true, false, Option, List, [], ◌∷◌, arith, if◌then◌else◌,
}
use dropbox_go_grpc_microser.Web.Edit.{
  EditView, EditSession, Run, Progress, Outcome, committed, conflicted, cancelled, broken, init,
  is_saving, begin_save, has_run, settle_run, end_run, report, settle, conclude, cancel_save,
  track_interaction,
}

-- How many saves have not ended.
abbrev pub unsettled : List Run → ℕ
unsettled [] = 0
unsettled (r ∷ rs) = if r.is_settled then unsettled rs else suc (unsettled rs)

-- The user, the save and the refetches, in any order.
pub data Step : EditView → EditView → Type 0 where
  begins : (v : EditView) → Step v (begin_save v)
  reports : (n : ℕ) (p : Progress) (v : EditView) → Step v (report n p v)
  settles : (n : ℕ) (o : Outcome) (v : EditView) → Step v (settle n o v)
  concludes : (n : ℕ) (v : EditView) → Step v (conclude n v)
  cancels : (v : EditView) → Step v (cancel_save v)
  interacts : (v : EditView) → Step v (track_interaction v)
  -- The session's query has an answer.
  loads : (session : Option EditSession) (v : EditView) → Step v (record v { session = session })

pub data Reach (session : Option EditSession) : EditView → Type 0 where
  here : Reach session (init session)
  next : {v w : EditView} → Reach session v → Step v w → Reach session w

abbrev pub IsSteady : EditView → Type 0
IsSteady v = unsettled v.runs ≡ (if is_saving v.save_state then 1 else 0)

unsettled-has_run : (n : ℕ) (rs : List Run) → has_run n false rs ≡ true → 1 ≤ unsettled rs
unsettled-has_run n [] h = cc
unsettled-has_run n (r ∷ rs) h = ground (arith, unsettled-has_run n rs)

unsettled-settle_run :
    (n : ℕ) (rs : List Run)
    → has_run n false rs ≡ true
    → suc (unsettled (settle_run n rs)) ≡ unsettled rs
unsettled-settle_run n [] h = cc
unsettled-settle_run n (r ∷ rs) h = ground (arith, unsettled-settle_run n rs)

unsettled-end_run :
    (n : ℕ) (rs : List Run)
    → has_run n false rs ≡ true
    → suc (unsettled (end_run n false rs)) ≡ unsettled rs
unsettled-end_run n [] h = cc
unsettled-end_run n (r ∷ rs) h = ground (arith, unsettled-end_run n rs)

unsettled-end_run_settled : (n : ℕ) (rs : List Run) → unsettled (end_run n true rs) ≡ unsettled rs
unsettled-end_run_settled n [] = refl
unsettled-end_run_settled n (r ∷ rs) = ground (arith, unsettled-end_run_settled n rs)

settle-IsSteady : (n : ℕ) (o : Outcome) (v : EditView) → IsSteady v → IsSteady (settle n o v)
unfolding settle
settle-IsSteady n (committed version sent) v s =
    ground (arith, unsettled-settle_run n v.runs, unsettled-has_run n v.runs)
settle-IsSteady n (conflicted head) v s =
    ground (arith, unsettled-settle_run n v.runs, unsettled-has_run n v.runs)
settle-IsSteady n cancelled v s =
    ground (arith, unsettled-end_run n v.runs, unsettled-has_run n v.runs)
settle-IsSteady n (broken message) v s =
    ground (arith, unsettled-end_run n v.runs, unsettled-has_run n v.runs)

Step-IsSteady : {v w : EditView} → Step v w → IsSteady v → IsSteady w
unfolding begin_save report conclude cancel_save track_interaction
Step-IsSteady (begins v) s = ground arith
Step-IsSteady (reports n p v) s = ground (arith, unsettled-has_run n v.runs)
Step-IsSteady (settles n o v) s = settle-IsSteady n o v s
Step-IsSteady (concludes n v) s = ground (arith, unsettled-end_run_settled n v.runs)
Step-IsSteady (cancels v) s = ground arith
Step-IsSteady (interacts v) s = s
Step-IsSteady (loads session v) s = s

-- Whatever the user does while saves and refetches are awaited, one save runs if the page says that it
-- is saving, and else none.
pub Reach-IsSteady : {session : Option EditSession} {v : EditView} → Reach session v → IsSteady v
Reach-IsSteady here = refl
Reach-IsSteady (next r st) = Step-IsSteady st (Reach-IsSteady r)
