-- ===== src/Web/Workers/Ends.antt =====
-- What is left for the pool to do, and whether it can go on.
use dropbox_go_grpc_microser.Prelude.{
  ℕ, zero, suc, ◌+◌, ◌*◌, ◌-◌, ◌≤◌, ◌<◌, ◌≡◌, ◌⊎◌, inl, inr, refl, true, some, List, [], ◌∷◌, arith,
  length, get_elem?, any, ◌==◌, ltb, Bool-cases,
}
use dropbox_go_grpc_microser.Exec.{Reply, Reply-cases}
use dropbox_go_grpc_microser.Web.Workers.{Pool, advance, resolve, reject}
use dropbox_go_grpc_microser.Web.Workers.Once.{Run-IsSound, length-without}
use dropbox_go_grpc_microser.Web.Workers.Settled.{
  Step, Reach, go_on, resolves, rejects, next, Reach-Run,
}

get_elem?-some :
    {A : Type 0} (xs : List A) (i : ℕ) → i < length xs → (x : A) × (get_elem? xs i ≡ some x)
get_elem?-some [] i h = absurd (omega arith)
get_elem?-some (x ∷ xs) zero h = (x, refl)
get_elem?-some (x ∷ xs) (suc i) h = get_elem?-some xs i (omega arith)

List-cases : (is : List ℕ) → (is ≡ []) ⊎ ((i : ℕ) × (js : List ℕ) × (is ≡ i ∷ js))
List-cases [] = inl refl
List-cases (i ∷ js) = inr (i, js, refl)

-- What is left to do: a task not begun counts three, one that runs two, a worker between tasks one.
abbrev pub work : {E : Type 0} → ℕ → Pool E → ℕ
work items p = 3 * (items - p.next) + 2 * length p.running + p.idle

module _ {E : Type 0} (items : ℕ) where
  work-advance : (p : Pool E) → 0 < p.idle → work items (advance items p) < work items p
  unfolding advance
  work-advance p waits = ground arith

  work-resolve :
      (i : ℕ) (p : Pool E)
      → any (λ j. j == i) p.running ≡ true
      → work items (resolve i p) < work items p
  unfolding resolve
  work-resolve i p runs = ground (arith, length-without i p.running runs)

  work-reject :
      (i : ℕ) (e : E) (p : Pool E)
      → any (λ j. j == i) p.running ≡ true
      → work items (reject i e p) < work items p
  unfolding reject
  work-reject i e p runs = ground (arith, length-without i p.running runs)

module _ {E A : Type 0} (replies : List (Reply E A)) (limit : ℕ) where
  pub data Steps : Pool E → Pool E → Type 0 where
    none_more : {p : Pool E} → Steps p p
    first : {p q r : Pool E} → Step replies limit p q → Steps q r → Steps p r

  abbrev pub Ends : Pool E → Type 0
  Ends p = (q : Pool E) × Steps p q × (q.idle ≡ 0) × (q.running ≡ [])

  -- A task that runs is one of the items.
  runs-below :
      (i : ℕ) (is : List ℕ) (p : Pool E)
      → Reach replies limit p
      → p.running ≡ i ∷ is
      → i < length replies
  runs-below i is p r runs =
      let s = Run-IsSound limit (length replies) i (Reach-Run replies limit r) in
      ground (arith, s.once)

  prepend : {p q : Pool E} → Step replies limit p q → Ends q → Ends p
  prepend s (q, steps, done, none_runs) = (q, first s steps, done, none_runs)

  ends_from :
      (fuel : ℕ) (p : Pool E) → Reach replies limit p → work (length replies) p ≤ fuel → Ends p
  ends_from zero p r enough = elim (List-cases p.running) [
    | inl none_runs ↦ (p, none_more, omega (arith, enough), none_runs)
    | inr (i, is, runs) ↦ absurd (ground arith)
  ]
  ends_from (suc fuel) p r enough = elim (Bool-cases (ltb 0 p.idle)) [
    | inl waits ↦
        let less = work-advance (length replies) p (ground arith) in
        prepend (go_on p) (
          ends_from fuel (advance (length replies) p) (next r (go_on p))
            (omega (arith, less, enough)))
    | inr none_waits ↦ elim (List-cases p.running) [
      | inl none_runs ↦ (p, none_more, ground arith, none_runs)
      | inr (i, is, runs) ↦
          let chosen : any (λ j. j == i) p.running ≡ true = ground arith in
          let (reply, his) = get_elem?-some replies i (runs-below i is p r runs) in
          elim (Reply-cases reply) [
            | inl (a, good) ↦
                let s = resolves i a p (ground arith) in
                let less = work-resolve (length replies) i p chosen in
                prepend s (ends_from fuel (resolve i p) (next r s) (omega (arith, less, enough)))
            | inr (e, bad) ↦
                let s = rejects i e p (ground arith) in
                let less = work-reject (length replies) i e p chosen in
                prepend s (ends_from fuel (reject i e p) (next r s) (omega (arith, less, enough)))
          ]
    ]
  ]

  -- From every point of a run the pool can go on to its end, where all workers have returned and no
  -- task runs, whichever tasks fail.
  pub Reach-Ends : (p : Pool E) → Reach replies limit p → Ends p
  Reach-Ends p r = ends_from (work (length replies) p) p r (omega arith)
