-- ===== src/Native/Sheet/Notices.antt =====
-- The notes of the sheet and their timers.
use dropbox_go_grpc_microser.Prelude.{
  ℕ, String, Bool, ◌≡◌, ◌⊎◌, inl, inr, refl, true, false, Option, none, some, [], ◌∷◌, arith, ◌==◌,
  Bool-cases, if◌then◌else◌,
}
use dropbox_go_grpc_microser.Native.Sheet.{
  Sheet, Mode, init, open_create_sheet, show_notice, fire, close_sheet, change_open, type_name,
  start_folder, submit_folder, created, not_created, cancel_folder,
}

-- What can happen to the sheet, in any order.
pub data Step : Sheet → Sheet → Type 0 where
  opens : (mode : Option Mode) (s : Sheet) → Step s (open_create_sheet mode s)
  shows : (message : String) (s : Sheet) → Step s (show_notice message s)
  fires : (t : ℕ) (s : Sheet) → Step s (fire t s)
  changes : (b : Bool) (s : Sheet) → Step s (change_open b s)
  types : (name : String) (s : Sheet) → Step s (type_name name s)
  starts : (s : Sheet) → Step s (start_folder s)
  submits : (s : Sheet) → Step s (submit_folder s)
  creates : (s : Sheet) → Step s (created s)
  fails : (message : String) (s : Sheet) → Step s (not_created message s)
  cancels : (s : Sheet) → Step s (cancel_folder s)

pub data Reach : Sheet → Type 0 where
  here : Reach init
  next : {s u : Sheet} → Reach s → Step s u → Reach u

-- No timer runs and no note is shown, or exactly the timer of the last note runs.
abbrev pub IsTimed : Sheet → Type 0
IsTimed s =
    ((s.timers ≡ []) × (s.notice ≡ none))
    ⊎ ((t : ℕ) × (s.timers ≡ t ∷ []) × (s.notice_timer ≡ some t))

fire-IsTimed : (t : ℕ) (s : Sheet) → IsTimed s → IsTimed (fire t s)
unfolding fire
fire-IsTimed t s (inl (none_runs, none_shown)) = inl (ground arith)
fire-IsTimed t s (inr (k, runs, current)) = elim (Bool-cases (k == t)) [
  | inl same ↦ inl (ground arith)
  | inr other ↦ inr (k, ground arith, ground arith)
]

show_notice-IsTimed : (message : String) (s : Sheet) → IsTimed s → IsTimed (show_notice message s)
unfolding show_notice
show_notice-IsTimed message s (inl (none_runs, none_shown)) = inr (s.next_timer, ground arith, refl)
show_notice-IsTimed message s (inr (k, runs, current)) = inr (s.next_timer, ground arith, refl)

close_sheet-IsTimed : (s : Sheet) → IsTimed s → IsTimed (close_sheet s)
unfolding close_sheet
close_sheet-IsTimed s (inl h) = inl (ground arith)
close_sheet-IsTimed s (inr h) = inr h

change_open-IsTimed : (b : Bool) (s : Sheet) → IsTimed s → IsTimed (change_open b s)
unfolding change_open
change_open-IsTimed true s h = h
change_open-IsTimed false s h = close_sheet-IsTimed s h

cancel_folder-IsTimed : (s : Sheet) → IsTimed s → IsTimed (cancel_folder s)
unfolding cancel_folder
cancel_folder-IsTimed s (inl h) = inl (ground arith)
cancel_folder-IsTimed s (inr (t, runs, current)) = inr (t, ground arith, ground arith)

submit_folder-IsTimed : (s : Sheet) → IsTimed s → IsTimed (submit_folder s)
unfolding submit_folder
submit_folder-IsTimed s (inl h) = inl (ground arith)
submit_folder-IsTimed s (inr (t, runs, current)) = inr (t, ground arith, ground arith)

Step-IsTimed : {s u : Sheet} → Step s u → IsTimed s → IsTimed u
unfolding open_create_sheet type_name start_folder created not_created
Step-IsTimed (opens mode s) h = h
Step-IsTimed (shows message s) h = show_notice-IsTimed message s h
Step-IsTimed (fires t s) h = fire-IsTimed t s h
Step-IsTimed (changes b s) h = change_open-IsTimed b s h
Step-IsTimed (types name s) h = h
Step-IsTimed (starts s) h = h
Step-IsTimed (submits s) h = submit_folder-IsTimed s h
Step-IsTimed (creates s) h = close_sheet-IsTimed s h
Step-IsTimed (fails message s) h = h
Step-IsTimed (cancels s) h = cancel_folder-IsTimed s h

pub Reach-IsTimed : {s : Sheet} → Reach s → IsTimed s
unfolding init
Reach-IsTimed here = inl (refl, refl)
Reach-IsTimed (next r st) = Step-IsTimed st (Reach-IsTimed r)

-- Whatever happened to the sheet, a note that is shown has one timer that still runs: it goes away when
-- that timer fires, and no other timer takes it away.
pub notice-ends :
    {s : Sheet} (message : String)
    → Reach s
    → s.notice ≡ some message
    → (t : ℕ) × (s.timers ≡ t ∷ [])
      × ((fire t s).notice ≡ none)
      × ((k : ℕ) → (fire k s).notice ≡ (if k == t then none else some message))
unfolding fire
notice-ends message r shown = elim (Reach-IsTimed r) [
  | inl quiet ↦ absurd (ground arith)
  | inr (t, runs, current) ↦ (t, runs, ground arith, λ k. ground arith)
]
