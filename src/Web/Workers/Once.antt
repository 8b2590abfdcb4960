-- ===== src/Web/Workers/Once.antt =====
-- Every item is done once, and no more than the limit at a time.
use dropbox_go_grpc_microser.Prelude.{
  ℕ, suc, ◌+◌, ◌≤◌, ◌<◌, ◌≡◌, refl, true, Option, none, some, List, [], ◌∷◌, arith, length, ltb,
  ◌==◌, min, any, if◌then◌else◌,
}
use dropbox_go_grpc_microser.Web.Workers.{Pool, without, start, advance, resolve, reject}

abbrev pub count : ℕ → List ℕ → ℕ
count i [] = 0
count i (j ∷ js) = if j == i then suc (count i js) else count i js

abbrev pub count_failed : {E : Type 0} → ℕ → List (ℕ × E) → ℕ
count_failed i [] = 0
count_failed i ((j, e) ∷ js) = if j == i then suc (count_failed i js) else count_failed i js

pub length-without :
    (i : ℕ) (js : List ℕ) → any (λ j. j == i) js ≡ true → suc (length (without i js)) ≡ length js
length-without i [] h = cc
length-without i (j ∷ js) h = ground (arith, length-without i js)

count-without :
    (i k : ℕ) (js : List ℕ)
    → any (λ j. j == i) js ≡ true
    → count k js ≡ count k (without i js) + (if i == k then 1 else 0)
count-without i k [] h = cc
count-without i k (j ∷ js) h = ground (arith, count-without i k js)

module _ {E : Type 0} where
  -- The event loop: any worker goes on, or any task settles.
  pub data Step (items : ℕ) : Pool E → Pool E → Type 0 where
    go_on : (p : Pool E) → Step items p (advance items p)
    resolves : (i : ℕ) (p : Pool E) → Step items p (resolve i p)
    rejects : (i : ℕ) (e : E) (p : Pool E) → Step items p (reject i e p)

  pub data Run (items : ℕ) (p : Pool E) : Pool E → Type 0 where
    here : Run items p p
    next : {q r : Pool E} → Run items p q → Step items q r → Run items p r

  -- The workers are accounted for, and so is each item: not started while its index is not reached,
  -- and else running, completed or failed, once.
  pub record IsSound (limit items : ℕ) (k : ℕ) (p : Pool E) : Type 0 where
    pub workers : p.idle + length p.running + p.returned ≡ min limit items
    pub once :
        count k p.running + count k p.completed + count_failed k p.failed
        ≡ (if ltb k (min p.next items) then 1 else 0)
    pub spared : p.failure ≡ none → p.failed ≡ []
    pub exhausted : p.failure ≡ none → 0 < p.returned → items ≤ p.next

  -- The error of the newest entry.
  abbrev pub newest : List (ℕ × E) → Option E
  newest [] = none
  newest ((i, e) ∷ failed) = some e

  Step-failure :
      {items : ℕ} {p q : Pool E}
      → Step items p q
      → p.failure ≡ newest p.failed
      → q.failure ≡ newest q.failed
  unfolding advance resolve reject
  Step-failure (go_on p) h = ground arith
  Step-failure (resolves i p) h = ground arith
  Step-failure (rejects i e p) h = ground arith

  -- The error that the call rejects with is that of the task that rejected last: a task that was in
  -- flight when another one failed, and fails itself, replaces the first error.
  pub Run-failure :
      (limit items : ℕ) {p : Pool E} → Run items (start limit items) p → p.failure ≡ newest p.failed
  unfolding start
  Run-failure limit items here = refl
  Run-failure limit items (next r s) = Step-failure s (Run-failure limit items r)

  module _ (limit items k : ℕ) where
    start-IsSound : IsSound limit items k (start limit items)
    unfolding start
    start-IsSound = ground arith

    advance-IsSound :
        (p : Pool E) → IsSound limit items k p → IsSound limit items k (advance items p)
    unfolding advance
    advance-IsSound p s = ground arith

    resolve-IsSound :
        (i : ℕ) (p : Pool E) → IsSound limit items k p → IsSound limit items k (resolve i p)
    unfolding resolve
    resolve-IsSound i p s = ground (arith, length-without i p.running, count-without i k p.running)

    reject-IsSound :
        (i : ℕ) (e : E) (p : Pool E)
        → IsSound limit items k p
        → IsSound limit items k (reject i e p)
    unfolding reject
    reject-IsSound i e p s = ground (arith, length-without i p.running, count-without i k p.running)

    Step-IsSound :
        {p q : Pool E} → Step items p q → IsSound limit items k p → IsSound limit items k q
    Step-IsSound (go_on p) s = advance-IsSound p s
    Step-IsSound (resolves i p) s = resolve-IsSound i p s
    Step-IsSound (rejects i e p) s = reject-IsSound i e p s

    pub Run-IsSound : {p : Pool E} → Run items (start limit items) p → IsSound limit items k p
    Run-IsSound here = start-IsSound
    Run-IsSound (next r s) = Step-IsSound s (Run-IsSound r)

    -- In every order of events no item is started twice, and never more than `limit` run at once.
    pub Run-once :
        {p : Pool E}
        → Run items (start limit items) p
        → (length p.running ≤ limit)
          × (count k p.running + count k p.completed + count_failed k p.failed ≤ 1)
    Run-once r = let s = Run-IsSound r in ground arith

    -- When all workers have returned and no failure was seen, every item has completed once.
    pub Run-completes :
        {p : Pool E}
        → Run items (start limit items) p
        → 0 < limit
        → p.idle ≡ 0
        → p.running ≡ []
        → p.failure ≡ none
        → k < items
        → count k p.completed ≡ 1
    Run-completes {p} r some_workers done none_runs fine here_too =
        let s = Run-IsSound r in ground arith
