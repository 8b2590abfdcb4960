-- ===== src/Web/Upload/Uppy/Reports.antt =====
-- Which events a file's upload has, and the state that it leaves.
use mathlib.Core.Path.{subst}
use dropbox_go_grpc_microser.Prelude.{
  ℕ, ◌+◌, max, min, zero, suc, ltb, length, Bool-cases, sym, Option, Option-cases, true, ◌≤◌, ◌≡◌,
  ◌⊎◌, inl, inr, refl, String, false, none, some, List, [], ◌∷◌, ◌++◌, arith, All,
}
use dropbox_go_grpc_microser.Exec.{Reply, ok, err, is_ok, Reply-cases}
use dropbox_go_grpc_microser.Web.Upload.{
  Chunk, Services, Initialized, Sent, Uploaded, is_received, chunk_at, send_from, upload_file,
}
use dropbox_go_grpc_microser.Web.Upload.Chunks.{upload_file-ends}
use dropbox_go_grpc_microser.Web.Blocks.{Bytes}
use dropbox_go_grpc_microser.Web.Upload.Uppy.{
  Event, upload_progress, upload_success, upload_error, UppyFile, Report, chunk_events, report,
  percentage_of, size_of, mark_complete, acknowledged, settled,
}

-- An event on the way.
abbrev pub IsProgress : {E : Type 0} → ℕ → Event E → Type 0
IsProgress size (upload_progress p) =
    (p.percentage ≤ 100) × (p.bytes_total ≡ size) × (p.upload_complete ≡ false)
IsProgress size (upload_success upload_id) = 1 ≤ 0
IsProgress size (upload_error e) = 1 ≤ 0

module _ {E : Type 0} (s : Services E) where
  acknowledged-IsProgress :
      (size : ℕ) (reply : Reply E ℕ) (events : List (Event E))
      → All (IsProgress size) events
      → All (IsProgress size) (acknowledged s size reply events)
  unfolding percentage_of
  acknowledged-IsProgress size (err e) events rest = rest
  acknowledged-IsProgress size (ok uploaded) events rest = ((omega arith, refl, refl), rest)

  chunk_events-IsProgress :
      (size : ℕ) (chunks : List Chunk) → All (IsProgress size) (chunk_events s size chunks)
  unfolding chunk_events
  chunk_events-IsProgress size [] = tt
  chunk_events-IsProgress size (chunk ∷ chunks) =
      acknowledged-IsProgress size (s.upload_chunk chunk) (chunk_events s size chunks)
        (chunk_events-IsProgress size chunks)

  abbrev IsAcknowledged : Chunk → Type 0
  IsAcknowledged c = is_ok (s.upload_chunk c) ≡ true

  -- The chunks of a loop that succeeds are all acknowledged.
  send_from-IsAcknowledged :
      (blob : Bytes) (init : Initialized) (fuel offset uploaded n : ℕ) (sent : Sent E)
      → send_from s fuel blob init offset uploaded ≡ some sent
      → sent.result ≡ ok n
      → All IsAcknowledged sent.chunks
  unfolding send_from
  send_from-IsAcknowledged blob init zero offset uploaded n sent h fine = cc
  send_from-IsAcknowledged blob init (suc fuel) offset uploaded n sent h fine =
      elim (Bool-cases (ltb offset (length blob))) [
        | inr done ↦
            let none_sent : sent.chunks ≡ [] = ground arith in
            subst (All IsAcknowledged) (sym none_sent) tt
        | inl more ↦ elim (Bool-cases (is_received s init offset)) [
          | inl held ↦
              send_from-IsAcknowledged blob init fuel (offset + init.chunk_size_bytes)
                (max uploaded (min (offset + init.chunk_size_bytes) (length blob))) n sent
                (ground arith) fine
          | inr new ↦ elim (Reply-cases (s.upload_chunk (chunk_at s blob init offset))) [
            | inr (e, refused) ↦ absurd (ground arith)
            | inl (persisted, answered) ↦
                elim (Option-cases
                  (send_from s fuel blob init (offset + init.chunk_size_bytes) persisted)) [
                    | inl ran_out ↦ absurd (ground arith)
                    | inr (rest, made) ↦
                        let all_sent : sent.chunks ≡ chunk_at s blob init offset ∷ rest.chunks =
                          ground arith in
                        subst (All IsAcknowledged) (sym all_sent) (
                          ground arith,
                          send_from-IsAcknowledged blob init fuel (offset + init.chunk_size_bytes)
                              persisted n rest made (ground arith),
                        )
                  ]
          ]
        ]
      ]

  upload_file-IsAcknowledged :
      (blob : Option Bytes) (u : Uploaded E) (id : String)
      → upload_file s blob ≡ some u
      → u.complete ≡ ok id
      → All IsAcknowledged u.chunks
  unfolding upload_file
  upload_file-IsAcknowledged none u id h fine = absurd (ground arith)
  upload_file-IsAcknowledged (some blob) u id h fine =
      elim (Reply-cases (s.init_upload (length blob))) [
        | inr (e, refused) ↦ absurd (ground arith)
        | inl (init, begun) ↦ elim (Bool-cases init.already_complete) [
          | inl held ↦
              let none_sent : u.chunks ≡ [] = ground arith in
              subst (All IsAcknowledged) (sym none_sent) tt
          | inr new ↦ elim (Option-cases (send_from s (suc (length blob)) blob init 0 0)) [
            | inl ran_out ↦ absurd (ground arith)
            | inr (sent, made) ↦ elim (Reply-cases sent.result) [
              | inr (e, broke) ↦ absurd (ground arith)
              | inl (n, came) ↦
                  let all_sent : u.chunks ≡ sent.chunks = ground arith in
                  subst (All IsAcknowledged) (sym all_sent)
                    (send_from-IsAcknowledged blob init (suc (length blob)) 0 0 n sent made came)
            ]
          ]
        ]
      ]

  length-chunk_events :
      (size : ℕ) (chunks : List Chunk)
      → All IsAcknowledged chunks
      → length (chunk_events s size chunks) ≡ length chunks
  unfolding chunk_events
  length-chunk_events size [] fine = refl
  length-chunk_events size (chunk ∷ chunks) (first, fine) =
      elim (Reply-cases (s.upload_chunk chunk)) [
        | inl (n, answered) ↦ ground (arith, length-chunk_events size chunks fine)
        | inr (e, refused) ↦ absurd (ground arith)
      ]

  -- A file's upload ends, as `uploadFile` comes to its end, with progress events of at most 100 percent
  -- and then with one last event. Either that is the success, with the id that the upload has: then each
  -- chunk that was sent had its progress event, and the file is complete at all its bytes, with the id as
  -- its response. Or it is the error of the upload, which is also thrown: then the file has that error, and
  -- its progress and response are as they were.
  pub report-ends :
      (f : UppyFile E)
      → (u : Uploaded E) × (r : Report E) × (before : List (Event E)) × (last : Event E)
        × (upload_file s f.file_data ≡ some u)
        × (report s f ≡ some r)
        × (r.events ≡ before ++ last ∷ [])
        × All (IsProgress (size_of f.file_data)) before
        × (((upload_id : String) × (u.complete ≡ ok upload_id)
              × (last ≡ upload_success upload_id)
              × (length before ≡ length u.chunks)
              × (r.thrown ≡ none)
              × (r.file_state.progress ≡ record {
                upload_complete = true;
                bytes_uploaded = size_of f.file_data;
                bytes_total = size_of f.file_data;
                percentage = 100;
              })
              × (r.file_state.response ≡ some upload_id)
              × (r.file_state.error ≡ f.error))
            ⊎ ((e : E) × (u.complete ≡ err e)
                × (last ≡ upload_error e)
                × (r.thrown ≡ some e)
                × (r.file_state.progress ≡ f.progress)
                × (r.file_state.response ≡ f.response)
                × (r.file_state.error ≡ some e)))
  unfolding report mark_complete
  report-ends f =
      let (u, ended) = upload_file-ends s f.file_data in
      let size = size_of f.file_data in
      let before = chunk_events s size u.chunks in
      let on_the_way = chunk_events-IsProgress size u.chunks in
      elim (Reply-cases u.complete) [
        | inl (upload_id, done) ↦
            let all = upload_file-IsAcknowledged f.file_data u upload_id ended done in
            (
              u,
              settled s f before (ok upload_id),
              before,
              upload_success upload_id,
              ended,
              ground arith,
              refl,
              on_the_way,
              inl (
                upload_id,
                done,
                refl,
                length-chunk_events size u.chunks all,
                refl,
                refl,
                refl,
                refl,
              ),
            )
        | inr (e, failed) ↦ (
          u,
          settled s f before (err e),
          before,
          upload_error e,
          ended,
          ground arith,
          refl,
          on_the_way,
          inr (e, failed, refl, refl, refl, refl, refl),
        )
      ]
