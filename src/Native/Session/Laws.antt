-- ===== src/Native/Session/Laws.antt =====
-- The session store: what a listener is told.
use dropbox_go_grpc_microser.Prelude.{
  ℕ, suc, ◌+◌, ◌≡◌, ◌≢◌, refl, true, false, not, List, [], ◌∷◌, ◌++◌, arith, ◌==◌, any, keep,
  if◌then◌else◌,
}
use dropbox_go_grpc_microser.Native.Session.{
  Status, Session, same_status, tell, set, subscribe, unsubscribe,
}

same_status_lem : (a b : Status) → same_status a b ≡ true → a ≡ b
same_status_lem a b h = ground arith

-- What was set is read back.
pub status-set : (next : Status) (s : Session) → (set next s).status ≡ next
unfolding set
status-set next s = ground (arith, same_status_lem next s.status)

-- How often a listener was told.
abbrev pub told : ℕ → List (ℕ × Status) → ℕ
told l [] = 0
told l ((k, status) ∷ log) = if k == l then suc (told l log) else told l log

-- How often a listener is registered.
abbrev pub registered : ℕ → List ℕ → ℕ
registered l [] = 0
registered l (k ∷ ks) = if k == l then suc (registered l ks) else registered l ks

told-append : (l : ℕ) (xs ys : List (ℕ × Status)) → told l (xs ++ ys) ≡ told l xs + told l ys
told-append l [] ys = omega arith
told-append l ((k, status) ∷ xs) ys = ground (arith, told-append l xs ys)

told-tell : (l : ℕ) (next : Status) (ls : List ℕ) → told l (tell next ls) ≡ registered l ls
told-tell l next [] = refl
told-tell l next (k ∷ ls) = ground (arith, told-tell l next ls)

registered-append :
    (l : ℕ) (xs ys : List ℕ) → registered l (xs ++ ys) ≡ registered l xs + registered l ys
registered-append l [] ys = omega arith
registered-append l (k ∷ xs) ys = ground (arith, registered-append l xs ys)

registered-keep : (l : ℕ) (ls : List ℕ) → registered l (keep (λ k. not (k == l)) ls) ≡ 0
registered-keep l [] = refl
registered-keep l (k ∷ ls) = ground (arith, registered-keep l ls)

any-registered : (l : ℕ) (ls : List ℕ) → any (λ k. k == l) ls ≡ false → registered l ls ≡ 0
any-registered l [] h = refl
any-registered l (k ∷ ls) h = ground (arith, any-registered l ls)

any-registered_pos : (l : ℕ) (ls : List ℕ) → any (λ k. k == l) ls ≡ true → registered l ls ≢ 0
any-registered_pos l [] h = cc
any-registered_pos l (k ∷ ls) h = ground (arith, any-registered_pos l ls)

-- A listener that was not registered is registered once after two subscriptions.
pub registered-subscribe :
    (l : ℕ) (s : Session)
    → registered l s.listeners ≡ 0
    → registered l (subscribe l (subscribe l s)).listeners ≡ 1
unfolding subscribe
registered-subscribe l s h = ground (
  arith,
  any-registered_pos l s.listeners,
  any-registered_pos l (s.listeners ++ l ∷ []),
  any-registered l (s.listeners ++ l ∷ []),
  registered-append l s.listeners (l ∷ []),
)

-- A change of status tells a registered listener once for each registration; setting the status
-- that is there tells nobody.
pub told-set :
    (l : ℕ) (next : Status) (s : Session)
    → told l (set next s).notified
      ≡ told l s.notified + (if same_status next s.status then 0 else registered l s.listeners)
unfolding set
told-set l next s =
    ground (arith, told-append l s.notified (tell next s.listeners), told-tell l next s.listeners)

-- A listener that has unsubscribed is told nothing more.
pub told-set-unsubscribe :
    (l : ℕ) (next : Status) (s : Session)
    → told l (set next (unsubscribe l s)).notified ≡ told l s.notified
unfolding unsubscribe
told-set-unsubscribe l next s =
    ground (arith, told-set l next (unsubscribe l s), registered-keep l s.listeners)
