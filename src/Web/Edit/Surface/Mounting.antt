-- ===== src/Web/Edit/Surface/Mounting.antt =====
-- Which document an editor holds, and when it is lost.
use dropbox_go_grpc_microser.Prelude.{
  ℕ, String, ◌≡◌, inl, inr, refl, sym, ap, ◌∙◌, true, false, ◌||◌, Option, none, some, arith,
  Bool-cases, eq_iff,
}
use dropbox_go_grpc_microser.Web.Edit.{
  EditSession, EditView, Outcome, track_interaction, committed, conflicted, cancelled, broken,
  is_saving, init, begin_save, settle, conclude, report, cancel_save, Progress,
}
use dropbox_go_grpc_microser.Web.Edit.Surface.{
  Session, Editor, EditPage, new_editor, stays, mount_in, editor_in, edit_of, commit, open_page,
  session_arrives, session_fails, file_arrives, file_fails, change, Submission, press_save, on_view,
  pressed, typed, submission_of,
}

pub data Step : EditPage → EditPage → Type 0 where
  session_answers : (s : Session) (p : EditPage) → Step p (session_arrives s p)
  session_errs : (p : EditPage) → Step p (session_fails p)
  file_answers : (name : String) (p : EditPage) → Step p (file_arrives name p)
  file_errs : (p : EditPage) → Step p (file_fails p)
  types : (text : String) (p : EditPage) → Step p (change text p)
  saves : (p : EditPage) → Step p (press_save p).0
  reports : (n : ℕ) (progress : Progress) (p : EditPage) → Step p (on_view (report n progress) p)
  settles : (n : ℕ) (o : Outcome) (p : EditPage) → Step p (on_view (settle n o) p)
  concludes : (n : ℕ) (p : EditPage) → Step p (on_view (conclude n) p)
  cancels : (p : EditPage) → Step p (on_view cancel_save p)

pub data Reach (session : Option Session) (file : Option String) : EditPage → Type 0 where
  here : Reach session file (open_page session file)
  next : {p q : EditPage} → Reach session file p → Step p q → Reach session file q

kept_begin_save : (v : EditView) → (begin_save v).session ≡ v.session
unfolding begin_save
kept_begin_save v = ground arith

kept_pressed : (mounted : Option Editor) (v : EditView) → (pressed mounted v).session ≡ v.session
kept_pressed none v = refl
kept_pressed (some e) v = kept_begin_save v

kept_report : (n : ℕ) (p : Progress) (v : EditView) → (report n p v).session ≡ v.session
unfolding report
kept_report n p v = ground arith

kept_settle : (n : ℕ) (o : Outcome) (v : EditView) → (settle n o v).session ≡ v.session
unfolding settle
kept_settle n (committed version sent) v = ground arith
kept_settle n (conflicted head) v = ground arith
kept_settle n cancelled v = ground arith
kept_settle n (broken message) v = ground arith

kept_conclude : (n : ℕ) (v : EditView) → (conclude n v).session ≡ v.session
unfolding conclude
kept_conclude n v = ground arith

kept_cancel_save : (v : EditView) → (cancel_save v).session ≡ v.session
unfolding cancel_save
kept_cancel_save v = ground arith

abbrev pub IsOf : Option Session → Editor → Type 0
IsOf none e = ⊥
IsOf (some s) e = (e.src ≡ s.ticket_url) × (s.can_edit ≡ true)

abbrev pub IsPinned : EditPage → Type 0
IsPinned p =
    (p.view.session ≡ edit_of p.session) × ((e : Editor) → p.mounted ≡ some e → IsOf p.session e)

mount_in-src : (old : Option Editor) (new : Editor) → (mount_in old new).src ≡ new.src
mount_in-src none new = refl
mount_in-src (some old) new = elim (Bool-cases (stays old new)) [
  | inl same ↦ ground (arith, eq_iff old.src new.src)
  | inr other ↦ ground arith
]

editor_in-IsOf :
    (old : Option Editor) (file : Option String) (session : Option Session) (e : Editor)
    → editor_in old file session ≡ some e
    → IsOf session e
editor_in-IsOf old none session e h = cc
editor_in-IsOf old (some file) none e h = cc
editor_in-IsOf old (some file) (some s) e h = elim (Bool-cases s.can_edit) [
  | inl editable ↦
      let same : mount_in old (new_editor s file) ≡ e = ground arith in
      (sym (ap (λ x. x.src) same) ∙ mount_in-src old (new_editor s file), editable)
  | inr refused ↦ absurd (ground arith)
]

commit-IsPinned : (p : EditPage) → p.view.session ≡ edit_of p.session → IsPinned (commit p)
unfolding commit
commit-IsPinned p same = (
  same,
  λ e h. elim (Bool-cases (p.file_failed || p.session_failed)) [
    | inl failed ↦ absurd (ground arith)
    | inr fine ↦ editor_in-IsOf p.mounted p.file p.session e (ground arith)
  ],
)

on_view-IsPinned :
    (f : EditView → EditView) (p : EditPage)
    → (f p.view).session ≡ p.view.session
    → IsPinned p
    → IsPinned (on_view f p)
unfolding on_view
on_view-IsPinned f p same (session, editor) = (same ∙ session, editor)

typed-IsOf :
    (text : String) (old : Option Editor) (session : Option Session) (e : Editor)
    → ((x : Editor) → old ≡ some x → IsOf session x)
    → typed text old ≡ some e
    → IsOf session e
typed-IsOf text none session e of_old h = cc
typed-IsOf text (some old) none e of_old h = absurd (of_old old refl)
typed-IsOf text (some old) (some s) e of_old h =
    let (src, editable) = of_old old refl in (ground arith, editable)

change-IsPinned : (text : String) (p : EditPage) → IsPinned p → IsPinned (change text p)
unfolding change track_interaction
change-IsPinned text p (session, editor) =
    (session, λ e h. typed-IsOf text p.mounted p.session e editor h)

Step-IsPinned : {p q : EditPage} → Step p q → IsPinned p → IsPinned q
unfolding session_arrives session_fails file_arrives file_fails press_save on_view
Step-IsPinned (session_answers s p) (session, editor) =
    commit-IsPinned
      (record p {
        view = record p.view { session = some s.edit };
        session = some s;
        session_failed = false;
      })
      refl
Step-IsPinned (session_errs p) (session, editor) =
    commit-IsPinned (record p { session_failed = true }) session
Step-IsPinned (file_answers name p) (session, editor) =
    commit-IsPinned (record p { file = some name; file_failed = false }) session
Step-IsPinned (file_errs p) (session, editor) =
    commit-IsPinned (record p { file_failed = true }) session
Step-IsPinned (types text p) h = change-IsPinned text p h
Step-IsPinned (saves p) h = on_view-IsPinned (pressed p.mounted) p (kept_pressed p.mounted p.view) h
Step-IsPinned (reports n progress p) h =
    on_view-IsPinned (report n progress) p (kept_report n progress p.view) h
Step-IsPinned (settles n o p) h = on_view-IsPinned (settle n o) p (kept_settle n o p.view) h
Step-IsPinned (concludes n p) h = on_view-IsPinned (conclude n) p (kept_conclude n p.view) h
Step-IsPinned (cancels p) h = on_view-IsPinned cancel_save p (kept_cancel_save p.view) h

Reach-IsPinned :
    {session : Option Session} {file : Option String} {p : EditPage}
    → Reach session file p
    → IsPinned p
unfolding open_page
Reach-IsPinned {session = session} {file = file} here =
    commit-IsPinned
      (record {
        view = init (edit_of session);
        session = session;
        session_failed = false;
        file = file;
        file_failed = false;
        mounted = none;
      })
      refl
Reach-IsPinned (next r s) = Step-IsPinned s (Reach-IsPinned r)

submitted :
    (view : Option EditSession) (session : Option Session) (mounted : Option Editor)
    (sub : Submission)
    → view ≡ edit_of session
    → ((e : Editor) → mounted ≡ some e → IsOf session e)
    → submission_of view mounted ≡ some sub
    → (s : Session) × (session ≡ some s)
      × (sub.base_version ≡ s.edit.version)
      × (sub.source.src ≡ s.ticket_url)
      × (s.can_edit ≡ true)
submitted none session mounted sub same of_it h = cc
submitted (some x) session none sub same of_it h = cc
submitted (some x) none (some e) sub same of_it h = absurd (of_it e refl)
submitted (some x) (some s) (some e) sub same of_it h =
    let (src, editable) = of_it e refl in (s, refl, ground arith, ground arith, editable)

-- Whatever the queries answer, and whatever was typed, saved and cancelled before: what a save sends
-- comes from an editor that was mounted on the ticket of the very session whose version is named as
-- the base, and that session allows the edit.
pub press_save-pinned :
    {session : Option Session} {file : Option String} {p : EditPage} (sub : Submission)
    → Reach session file p
    → (press_save p).1 ≡ some sub
    → (s : Session) × (p.session ≡ some s)
      × (sub.base_version ≡ s.edit.version)
      × (sub.source.src ≡ s.ticket_url)
      × (s.can_edit ≡ true)
unfolding press_save
press_save-pinned {p = p} sub r h =
    let (same, of_it) = Reach-IsPinned r in
    elim (Bool-cases (is_saving p.view.save_state)) [
      | inl busy ↦ absurd (ground arith)
      | inr idle ↦ submitted p.view.session p.session p.mounted sub same of_it (ground arith)
    ]
