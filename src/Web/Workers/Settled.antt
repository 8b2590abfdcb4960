-- ===== src/Web/Workers/Settled.antt =====
-- The pool against `settle`, by which `Web.Save` reads a phase: the outcome of the tasks without the order
-- in which they run.
use mathlib.Core.Path.{subst}
use dropbox_go_grpc_microser.Prelude.{
  sym, ℕ, zero, suc, ◌<◌, ◌≡◌, ◌⊎◌, inl, inr, refl, none, some, List, [], ◌∷◌, arith, length,
  get_elem?, All, any, ◌==◌, Bool-cases, Option-cases,
}
use dropbox_go_grpc_microser.Exec.{Reply, ok, err}
use dropbox_go_grpc_microser.Web.Save.{errors, values, settle}
use dropbox_go_grpc_microser.Web.Workers.{Pool, start, advance, resolve, reject}
use dropbox_go_grpc_microser.Web.Workers.Once
use dropbox_go_grpc_microser.Web.Workers.Once.{Run, count, newest, Run-failure, Run-completes}

All-count : (P : ℕ → Type 0) (k : ℕ) (is : List ℕ) → All P is → count k is ≡ 1 → P k
All-count P k [] held once = absurd (omega arith)
All-count P k (i ∷ is) (here, held) once = elim (Bool-cases (i == k)) [
  | inl same ↦ let e : i ≡ k = ground arith in rw (← e) here
  | inr other ↦ All-count P k is held (ground arith)
]

module _ {E A : Type 0} where
  -- A list of replies that are all good has no errors.
  errors-none :
      (replies : List (Reply E A))
      → ((k : ℕ) → k < length replies → (a : A) × (get_elem? replies k ≡ some (ok a)))
      → errors replies ≡ []
  errors-none [] good = refl
  errors-none (ok a ∷ rs) good = errors-none rs (λ k below. good (suc k) (omega arith))
  errors-none (err e ∷ rs) good = let (a, first) = good 0 (omega arith) in cc

  errors-some :
      (replies : List (Reply E A)) (i : ℕ) (e : E)
      → get_elem? replies i ≡ some (err e)
      → (x : E) × (xs : List E) × (errors replies ≡ x ∷ xs)
  errors-some [] i e h = cc
  errors-some (ok a ∷ rs) zero e h = cc
  errors-some (ok a ∷ rs) (suc i) e h = errors-some rs i e h
  errors-some (err x ∷ rs) i e h = (x, errors rs, refl)

module _ {E A : Type 0} (replies : List (Reply E A)) (limit : ℕ) where
  -- The event loop, where the task of an index comes to the reply of that index.
  pub data Step : Pool E → Pool E → Type 0 where
    go_on : (p : Pool E) → Step p (advance (length replies) p)
    resolves :
        (i : ℕ) (a : A) (p : Pool E) → get_elem? replies i ≡ some (ok a) → Step p (resolve i p)
    rejects :
        (i : ℕ) (e : E) (p : Pool E) → get_elem? replies i ≡ some (err e) → Step p (reject i e p)

  pub data Reach : Pool E → Type 0 where
    here : Reach (start limit (length replies))
    next : {p q : Pool E} → Reach p → Step p q → Reach q

  pub Reach-Run : {p : Pool E} → Reach p → Run (length replies) (start limit (length replies)) p
  Reach-Run here = Once.here
  Reach-Run (next r (go_on p)) = Once.next (Reach-Run r) (Once.go_on p)
  Reach-Run (next r (resolves i a p h)) = Once.next (Reach-Run r) (Once.resolves i p)
  Reach-Run (next r (rejects i e p h)) = Once.next (Reach-Run r) (Once.rejects i e p)

  abbrev IsGood : ℕ → Type 0
  IsGood i = (a : A) × (get_elem? replies i ≡ some (ok a))

  abbrev IsBad : ℕ × E → Type 0
  IsBad (i, e) = get_elem? replies i ≡ some (err e)

  abbrev IsTrue : Pool E → Type 0
  IsTrue p = All IsGood p.completed × All IsBad p.failed

  -- What leaves the lists as they are.
  carry : (p q : Pool E) → q.completed ≡ p.completed → q.failed ≡ p.failed → IsTrue p → IsTrue q
  carry p q same_completed same_failed (good, bad) =
      (subst (All IsGood) (sym same_completed) good, subst (All IsBad) (sym same_failed) bad)

  resolve-IsTrue :
      (i : ℕ) (a : A) (p : Pool E)
      → get_elem? replies i ≡ some (ok a)
      → IsTrue p
      → IsTrue (resolve i p)
  unfolding resolve
  resolve-IsTrue i a p h (good, bad) = elim (Bool-cases (any (λ j. j == i) p.running)) [
    | inl runs ↦
        let ends : (resolve i p).completed ≡ i ∷ p.completed = ground arith in
        let others : (resolve i p).failed ≡ p.failed = ground arith in
        (subst (All IsGood) (sym ends) ((a, h), good), subst (All IsBad) (sym others) bad)
    | inr idle ↦ carry p (resolve i p) (ground arith) (ground arith) (good, bad)
  ]

  reject-IsTrue :
      (i : ℕ) (e : E) (p : Pool E)
      → get_elem? replies i ≡ some (err e)
      → IsTrue p
      → IsTrue (reject i e p)
  unfolding reject
  reject-IsTrue i e p h (good, bad) = elim (Bool-cases (any (λ j. j == i) p.running)) [
    | inl runs ↦
        let ends : (reject i e p).failed ≡ (i, e) ∷ p.failed = ground arith in
        let others : (reject i e p).completed ≡ p.completed = ground arith in
        (subst (All IsGood) (sym others) good, subst (All IsBad) (sym ends) (h, bad))
    | inr idle ↦ carry p (reject i e p) (ground arith) (ground arith) (good, bad)
  ]

  Step-IsTrue : {p q : Pool E} → Step p q → IsTrue p → IsTrue q
  unfolding advance
  Step-IsTrue (go_on p) t = carry p (advance (length replies) p) (ground arith) (ground arith) t
  Step-IsTrue (resolves i a p h) t = resolve-IsTrue i a p h t
  Step-IsTrue (rejects i e p h) t = reject-IsTrue i e p h t

  Reach-IsTrue : {p : Pool E} → Reach p → IsTrue p
  unfolding start
  Reach-IsTrue here = (tt, tt)
  Reach-IsTrue (next r s) = Step-IsTrue s (Reach-IsTrue r)

  -- An error that is shown is that of a task.
  newest-IsBad :
      (failed : List (ℕ × E)) (e : E)
      → All IsBad failed
      → newest failed ≡ some e
      → (i : ℕ) × (get_elem? replies i ≡ some (err e))
  newest-IsBad [] e bad h = cc
  newest-IsBad ((i, x) ∷ failed) e (first, bad) h = (i, ground arith)

  -- Once all workers have returned, the pool has come to what `settle` says of the replies, in whatever
  -- order the tasks ran: to all values if every task was good, and else to the error of one of the tasks
  -- that failed.
  pub Reach-settle :
      {p : Pool E} (blame : E → List E → E)
      → Reach p
      → 0 < limit
      → p.idle ≡ 0
      → p.running ≡ []
      → ((p.failure ≡ none) × (settle blame replies ≡ ok (values replies)))
        ⊎ ((e : E) × (i : ℕ) × (p.failure ≡ some e)
            × (get_elem? replies i ≡ some (err e))
            × (settle (λ x xs. e) replies ≡ err e))
  unfolding settle
  Reach-settle {p = p} blame r some_workers done none_runs =
      let (good, bad) = Reach-IsTrue r in
      let newest_one = Run-failure limit (length replies) (Reach-Run r) in
      elim (Option-cases p.failure) [
        | inl fine ↦
            let all_good = errors-none replies (λ k below. All-count IsGood k p.completed good (
              Run-completes limit (length replies) k (Reach-Run r) some_workers done none_runs fine
                below)) in
            inl (fine, ground arith)
        | inr (e, failed) ↦
            let (i, his) = newest-IsBad p.failed e bad (ground arith) in
            let (x, xs, there) = errors-some replies i e his in
            inr (e, i, failed, his, ground arith)
      ]
