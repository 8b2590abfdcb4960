-- ===== src/Native/Flight/Single.antt =====
-- Callers, rotations and the rest of the app in any order: one rotation runs at most, and every
-- caller's promise is settled by the rotation that it belongs to.
use dropbox_go_grpc_microser.Prelude.{
  ℕ, zero, suc, ◌≡◌, ◌⊎◌, inl, inr, refl, Bool, true, false, ◌&&◌, none, some, [], ◌∷◌, arith, ◌==◌,
  Bool-cases,
}
use dropbox_go_grpc_microser.Native.Tokens.{Device, World, rotate_refresh_token}
use dropbox_go_grpc_microser.Native.Flight.{
  Phase, reading, answered, Rotation, App, refresh_access_token, resume, advance, finish,
}

module _ {E : Type 0} where
  abbrev pub start : Device → App E
  start d = record { device = d; in_flight = none; next = 0; running = []; settled = [] }

  -- A caller asks for a refresh; a rotation goes on, with whatever the platform answers; its
  -- `finally` runs; anything else of the app (a login, a logout) changes the device.
  pub data Step : App E → App E → Type 0 where
    ask : (a : App E) → Step a (refresh_access_token a).1
    go_on : (w : World E) (p : ℕ) (a : App E) → Step a (advance w p a)
    settle : (p : ℕ) (a : App E) → Step a (finish p a)
    change : (d : Device) (a : App E) → Step a (record a { device = d })

  pub data Reach (a : App E) : App E → Type 0 where
    here : Reach a a
    next : {b c : App E} → Reach a b → Step b c → Reach a c

  abbrev pub is_answered : Phase E → Bool
  is_answered (answered r) = true
  is_answered _ = false

  -- No rotation runs and none is in flight, or exactly the one in flight runs.
  abbrev pub IsSingle : App E → Type 0
  IsSingle a =
      ((a.in_flight ≡ none) × (a.running ≡ []))
      ⊎ ((r : Rotation E) × (a.in_flight ≡ some r.promise) × (a.running ≡ r ∷ []))

  ask-IsSingle : (a : App E) → IsSingle a → IsSingle (refresh_access_token a).1
  unfolding refresh_access_token
  ask-IsSingle a (inl (idle, none_runs)) =
      inr (record { promise = a.next; phase = reading }, ground arith, ground arith)
  ask-IsSingle a (inr (r, flies, runs)) = inr (r, ground arith, ground arith)

  go_on-IsSingle : (w : World E) (p : ℕ) (a : App E) → IsSingle a → IsSingle (advance w p a)
  unfolding advance
  go_on-IsSingle w p a (inl (idle, none_runs)) = inl (ground arith)
  go_on-IsSingle w p a (inr (r, flies, runs)) = elim (Bool-cases (r.promise == p)) [
    | inl same ↦
        inr (record r { phase = (resume w r.phase a.device).0 }, ground arith, ground arith)
    | inr other ↦ inr (r, ground arith, ground arith)
  ]

  settle-IsSingle : (p : ℕ) (a : App E) → IsSingle a → IsSingle (finish p a)
  unfolding finish
  settle-IsSingle p a (inl (idle, none_runs)) = inl (ground arith)
  settle-IsSingle p a (inr (r, flies, runs)) =
      elim (Bool-cases (r.promise == p && is_answered r.phase)) [
        | inl ended ↦ inl (ground arith)
        | inr goes_on ↦ inr (r, ground arith, ground arith)
      ]

  Step-IsSingle : {a b : App E} → Step a b → IsSingle a → IsSingle b
  Step-IsSingle (ask a) s = ask-IsSingle a s
  Step-IsSingle (go_on w p a) s = go_on-IsSingle w p a s
  Step-IsSingle (settle p a) s = settle-IsSingle p a s
  Step-IsSingle (change d a) s = s

  -- Whatever is called and answered in whatever order, the refreshes of the app are the one rotation
  -- in flight, if any: no two of them are ever exchanged with the auth service at once.
  pub Reach-IsSingle : {d : Device} {a : App E} → Reach (start d) a → IsSingle a
  Reach-IsSingle here = inl (refl, refl)
  Reach-IsSingle (next r s) = Step-IsSingle s (Reach-IsSingle r)

  -- Resuming a rotation a number of times, in worlds that the step chooses.
  abbrev pub resume_all : (ℕ → World E) → ℕ → Phase E → Device → Phase E × Device
  resume_all w zero phase d = (phase, d)
  resume_all w (suc n) phase d = let (phase', d') = resume (w n) phase d in resume_all w n phase' d'

  -- A rotation has its answer after four steps at most, whatever the platform answers at each.
  pub resume_all-ends :
      (w : ℕ → World E) (d : Device) → is_answered (resume_all w 4 reading d).0 ≡ true
  unfolding resume
  resume_all-ends w d = ground arith

  -- In a world that stays as it is, the steps of a rotation come to what the function does in one go.
  pub resume_all-eq-rotate_refresh_token :
      (w : World E) (d : Device)
      → resume_all (λ _. w) 4 reading d
        ≡ (answered (rotate_refresh_token w d).0, (rotate_refresh_token w d).1)
  unfolding resume rotate_refresh_token
  resume_all-eq-rotate_refresh_token w d = ground arith
