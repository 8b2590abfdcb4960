-- ===== src/Web/Edit/Surface/Lost.antt =====
-- When what the user did in an editor is lost.
use dropbox_go_grpc_microser.Prelude.{ℕ, String, ◌≡◌, refl, true, false, none, some, arith, str_eq}
use dropbox_go_grpc_microser.Web.Edit.{conflict, conflicted, has_run, settle}
use dropbox_go_grpc_microser.Web.Edit.Surface.{
  Session, Editor, EditPage, new_editor, mount_in, session_arrives, session_fails, on_view,
}

mount_in-other : (old new : Editor) → str_eq old.src new.src ≡ false → mount_in (some old) new ≡ new
mount_in-other old new other = ground arith

-- On a page whose file is loaded, a save that runs ends in a conflict, and the refetch that follows
-- answers with a session that allows the edit and has another ticket: the editor is mounted anew,
-- without what the user did, while the page reports the conflict and counts as changed as before.
pub session_arrives-conflict :
    (p : EditPage) (old : Editor) (s : Session) (file : String) (n head : ℕ)
    → p.mounted ≡ some old
    → p.file ≡ some file
    → p.file_failed ≡ false
    → has_run n false p.view.runs ≡ true
    → s.can_edit ≡ true
    → str_eq old.src s.ticket_url ≡ false
    → let q = session_arrives s (on_view (settle n (conflicted head)) p) in
      (q.mounted ≡ some (new_editor s file))
      × (q.view.save_state ≡ conflict head)
      × (q.view.is_dirty ≡ p.view.is_dirty)
unfolding session_arrives on_view settle
session_arrives-conflict p old s file n head there named fine runs editable other =
    let anew = mount_in-other old (new_editor s file) other in
    (rw (fine, there, named, editable, anew) refl, ground arith, ground arith)

-- A refetch of the session fails, and a later one answers with the very session of before: meanwhile no
-- editor was mounted, and what the user did in it is gone.
pub session_arrives-session_fails :
    (p : EditPage) (s : Session) (file : String)
    → p.session ≡ some s
    → p.file ≡ some file
    → p.file_failed ≡ false
    → s.can_edit ≡ true
    → ((session_fails p).mounted ≡ none)
      × ((session_arrives s (session_fails p)).mounted ≡ some (new_editor s file))
unfolding session_arrives session_fails
session_arrives-session_fails p s file there named fine editable =
    (rw fine refl, rw (fine, named, editable) refl)
