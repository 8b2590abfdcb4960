-- ===== src/Web/Queue/Errors.antt =====
-- The hook's state in any order of events: how many uploads run, and the errors that are shown.
use dropbox_go_grpc_microser.Prelude.{
  ◌≤◌, String, ◌≡◌, refl, Bool, true, false, Option, List, [], ◌∷◌, arith, length, if◌then◌else◌,
  Option-cases, inl, inr,
}
use dropbox_go_grpc_microser.Exec.{Reply, ok, err}
use dropbox_go_grpc_microser.Web.Queue.{
  UploadFile, UploadView, init, push_error, upload_success, add_files, begin_upload, end_upload,
  remove_file, clear_all, drag, on_drop, on_change,
}

-- What the user and Uppy do, in any order.
pub data Step : UploadView → UploadView → Type 0 where
  reports : (message : String) (v : UploadView) → Step v (push_error message v)
  succeeds : (v : UploadView) → Step v (upload_success v)
  begins : (v : UploadView) → Step v (begin_upload v)
  ends : (result : Reply (Option String) Unit) (v : UploadView) → Step v (end_upload result v)
  removes : (id : String) (v : UploadView) → Step v (remove_file id v)
  clears : (v : UploadView) → Step v (clear_all v)
  drags : (b : Bool) (v : UploadView) → Step v (drag b v)
  drops :
      (restrict : List UploadFile → UploadFile → Option String) (files : List UploadFile)
      (v : UploadView)
      → Step v (on_drop restrict files v)
  changes :
      (restrict : List UploadFile → UploadFile → Option String) (auto_proceed : Bool)
      (files : List UploadFile) (v : UploadView)
      → Step v (on_change restrict auto_proceed files v)
  -- Uppy's files change as an upload goes on.
  updates : (files : List UploadFile) (v : UploadView) → Step v (record v { files = files })

pub data Reach : UploadView → Type 0 where
  here : Reach init
  next : {v w : UploadView} → Reach v → Step v w → Reach w

abbrev pub IsCalm : UploadView → Type 0
IsCalm v = (v.running ≡ (if v.is_uploading then 1 else 0)) × (length v.errors ≤ 1)

begin_upload-IsCalm : (v : UploadView) → IsCalm v → IsCalm (begin_upload v)
unfolding begin_upload
begin_upload-IsCalm v (one, few) = ground arith

push_error-IsCalm : (message : String) (v : UploadView) → IsCalm v → IsCalm (push_error message v)
unfolding push_error
push_error-IsCalm message v (one, few) = ground arith

end_upload-IsCalm :
    (result : Reply (Option String) Unit) (v : UploadView) → IsCalm v → IsCalm (end_upload result v)
unfolding end_upload
end_upload-IsCalm (ok done) v (one, few) = ground arith
end_upload-IsCalm (err message) v (one, few) = ground arith

add_files-IsCalm :
    (restrict : List UploadFile → UploadFile → Option String) (files : List UploadFile)
    (v : UploadView)
    → IsCalm v
    → IsCalm (add_files restrict files v)
unfolding add_files
add_files-IsCalm restrict [] v h = h
add_files-IsCalm restrict (f ∷ fs) v h = elim (Option-cases (restrict v.files f)) [
  | inl allowed ↦ rw (add_files, allowed) (add_files-IsCalm restrict fs _ h)
  | inr (message, refused) ↦
      rw (add_files, refused) (add_files-IsCalm restrict fs _ (push_error-IsCalm message v h))
]

on_change-IsCalm :
    (restrict : List UploadFile → UploadFile → Option String) (auto_proceed : Bool)
    (files : List UploadFile) (v : UploadView)
    → IsCalm v
    → IsCalm (on_change restrict auto_proceed files v)
unfolding on_change
on_change-IsCalm restrict true files v h =
    begin_upload-IsCalm (add_files restrict files v) (add_files-IsCalm restrict files v h)
on_change-IsCalm restrict false files v h = add_files-IsCalm restrict files v h

Step-IsCalm : {v w : UploadView} → Step v w → IsCalm v → IsCalm w
unfolding upload_success remove_file clear_all drag on_drop
Step-IsCalm (reports message v) h = push_error-IsCalm message v h
Step-IsCalm (succeeds v) h = (h.0, omega arith)
Step-IsCalm (begins v) h = begin_upload-IsCalm v h
Step-IsCalm (ends result v) h = end_upload-IsCalm result v h
Step-IsCalm (removes id v) h = h
Step-IsCalm (clears v) h = (h.0, omega arith)
Step-IsCalm (drags b v) h = h
Step-IsCalm (drops restrict files v) h = add_files-IsCalm restrict files _ h
Step-IsCalm (changes restrict auto_proceed files v) h =
    on_change-IsCalm restrict auto_proceed files v h
Step-IsCalm (updates files v) h = h

-- Whatever the user and Uppy do, one upload runs if the hook says that it is uploading, and else none;
-- and one error is shown at most.
pub Reach-IsCalm : {v : UploadView} → Reach v → IsCalm v
Reach-IsCalm here = (refl, omega arith)
Reach-IsCalm (next r st) = Step-IsCalm st (Reach-IsCalm r)
