-- ===== src/Web/Queue/Shown.antt =====
-- What the drawer says of the uploads.
use dropbox_go_grpc_microser.Prelude.{
  ◌≡◌, ◌≢◌, ◌↔◌, refl, true, false, ◌||◌, List, [], ◌∷◌, arith, All, any, keep, length, Bool-cases,
  inl, inr,
}
use dropbox_go_grpc_microser.Web.Queue.{
  UploadFile, UploadView, is_complete, is_failed, is_open_upload, counts, complete,
}

-- A file whose upload has ended, well or not.
abbrev pub IsEnded : UploadFile → Type 0
IsEnded f = (is_complete f || is_failed f) ≡ true

any-IsEnded : (files : List UploadFile) → (any is_open_upload files ≡ false) ↔ All IsEnded files
any-IsEnded [] = ((λ h. tt), (λ h. refl))
any-IsEnded (f ∷ fs) = elim (Bool-cases (is_open_upload f)) [
  | inl goes_on ↦ ((λ h. absurd (ground arith)), (λ h. absurd (ground arith)))
  | inr over ↦ (
    (λ h. (ground arith, (any-IsEnded fs).0 (ground arith))),
    (λ h. ground (arith, (any-IsEnded fs).1 h.1)),
  )
]

-- The drawer says that the upload was successful exactly if there is a file, the hook is not uploading,
-- and the upload of every file has ended, well or not.
pub complete_iff :
    (v : UploadView)
    → (complete v ≡ true) ↔ ((v.files ≢ []) × (v.is_uploading ≡ false) × All IsEnded v.files)
unfolding complete
complete_iff v = (
  (λ done. (ground arith, ground arith, (any-IsEnded v.files).0 (ground arith))),
  (λ (some_file, idle, over). ground (arith, (any-IsEnded v.files).1 over)),
)

length-keep_failed :
    (files : List UploadFile)
    → All (λ f. is_failed f ≡ true) files
    → length (keep is_failed files) ≡ length files
length-keep_failed [] h = refl
length-keep_failed (f ∷ fs) h = let bad = h.0 in ground (arith, length-keep_failed fs h.1)

failed-IsEnded : (files : List UploadFile) → All (λ f. is_failed f ≡ true) files → All IsEnded files
failed-IsEnded [] h = tt
failed-IsEnded (f ∷ fs) h = let bad = h.0 in (ground arith, failed-IsEnded fs h.1)

-- The drawer says that the upload was successful also when the upload of every file has failed.
pub complete-counts :
    (v : UploadView)
    → v.is_uploading ≡ false
    → v.files ≢ []
    → All (λ f. is_failed f ≡ true) v.files
    → (complete v ≡ true) × ((counts v).failed ≡ (counts v).all)
unfolding counts
complete-counts v idle some_file bad = (
  (complete_iff v).1 (some_file, idle, failed-IsEnded v.files bad),
  length-keep_failed v.files bad,
)
