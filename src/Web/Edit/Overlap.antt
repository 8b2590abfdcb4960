-- ===== src/Web/Edit/Overlap.antt =====
-- What a save that was cut into events loses.
use dropbox_go_grpc_microser.Prelude.{ℕ, ◌≡◌, true, false, ◌∷◌, arith, Bool}
use dropbox_go_grpc_microser.Web.Edit.{
  EditView, committed, is_saving, has_session, has_run, begin_save, settle, conclude, cancel_save,
  track_interaction, leave_edit,
}

-- A save that has just begun can be cancelled: the controller that is aborted is its own.
pub cancel_save-begin_save :
    (v : EditView)
    → has_session v.session ≡ true
    → is_saving v.save_state ≡ false
    → (cancel_save (begin_save v)).aborted ≡ v.next_controller ∷ v.aborted
unfolding cancel_save begin_save
cancel_save-begin_save v here idle = ground arith

-- A save that is begun while an earlier one awaits its refetches cannot be cancelled once these have
-- ended: the page says that it is saving, and the button aborts nothing.
pub cancel_save-conclude :
    (v : EditView) (n : ℕ)
    → has_session v.session ≡ true
    → is_saving v.save_state ≡ false
    → has_run n true v.runs ≡ true
    → (is_saving (conclude n (begin_save v)).save_state ≡ true)
      × ((cancel_save (conclude n (begin_save v))).aborted ≡ v.aborted)
unfolding cancel_save begin_save conclude
cancel_save-conclude v n here idle waits = ground arith

-- What the user changes while a save runs counts as saved when it is committed: the page is left
-- without a question.
pub leave_edit-settle :
    (v : EditView) (n version sent : ℕ) (confirmed : Bool)
    → has_run n false v.runs ≡ true
    → leave_edit confirmed (settle n (committed version sent) (track_interaction v)) ≡ (false, true)
unfolding leave_edit settle track_interaction
leave_edit-settle v n version sent confirmed runs = ground arith
