-- ===== src/Web/Upload/Chunks.antt =====
-- Which chunks are sent.
use mathlib.Core.Path.{subst}
use mathlib.Core.List.{Memᴰ}
use dropbox_go_grpc_microser.Prelude.{
  ℕ, zero, suc, ◌+◌, ◌-◌, ◌<◌, ◌≡◌, ◌⊎◌, refl, sym, not, ◌||◌, max, ltb→lt, Option-cases, inl, inr,
  true, false, Option, some, List, [], ◌∷◌, arith, ltb, length, min, All, Bool-cases,
}
use dropbox_go_grpc_microser.Exec.{ok, err, Reply-cases}
use dropbox_go_grpc_microser.Web.Blocks.{Bytes}
use dropbox_go_grpc_microser.Web.Upload.{
  Initialized, Chunk, Services, Sent, chunk_at, is_received, send_from, upload_file, Uploaded,
  valid_chunk_size,
}

module _ {E : Type 0} (s : Services E) (blob : Bytes) (init : Initialized) where
  -- The rounds suffice at a positive chunk size.
  send_from-total :
      (fuel offset uploaded : ℕ)
      → 0 < init.chunk_size_bytes
      → length blob - offset < fuel
      → (sent : Sent E) × (send_from s fuel blob init offset uploaded ≡ some sent)
  unfolding send_from
  send_from-total zero offset uploaded pos h = absurd (omega arith)
  send_from-total (suc fuel) offset uploaded pos h = elim (Bool-cases (ltb offset (length blob))) [
    | inr done ↦ (record { result = ok uploaded; chunks = [] }, rw done)
    | inl more ↦ elim (Bool-cases (is_received s init offset)) [
      | inl held ↦
          let (sent, made) =
            send_from-total fuel (offset + init.chunk_size_bytes)
              (max uploaded (min (offset + init.chunk_size_bytes) (length blob))) pos
              (ground arith) in
          (sent, ground arith)
      | inr new ↦ elim (Reply-cases (s.upload_chunk (chunk_at s blob init offset))) [
        | inr (e, refused) ↦
            (record { result = err e; chunks = chunk_at s blob init offset ∷ [] }, ground arith)
        | inl (persisted, answered) ↦
            let (sent, made) =
              send_from-total fuel (offset + init.chunk_size_bytes) persisted pos (ground arith) in
            (record sent { chunks = chunk_at s blob init offset ∷ sent.chunks }, ground arith)
      ]
    ]
  ]

  -- A chunk that the service has not received, cut from the blob at its offset.
  abbrev pub IsNew : Chunk → Type 0
  IsNew c =
      (c ≡ chunk_at s blob init c.offset)
      × (c.offset < length blob)
      × (is_received s init c.offset ≡ false)

  send_from-IsNew :
      (fuel offset uploaded : ℕ) (sent : Sent E)
      → send_from s fuel blob init offset uploaded ≡ some sent
      → All IsNew sent.chunks
  unfolding send_from
  send_from-IsNew zero offset uploaded sent h = cc
  send_from-IsNew (suc fuel) offset uploaded sent h = elim (Bool-cases (ltb offset (length blob))) [
    | inr done ↦
        let none_sent : sent.chunks ≡ [] = ground arith in subst (All IsNew) (sym none_sent) tt
    | inl more ↦ elim (Bool-cases (is_received s init offset)) [
      | inl held ↦
          send_from-IsNew fuel (offset + init.chunk_size_bytes)
            (max uploaded (min (offset + init.chunk_size_bytes) (length blob))) sent (ground arith)
      | inr new ↦ elim (Reply-cases (s.upload_chunk (chunk_at s blob init offset))) [
        | inr (e, refused) ↦
            let one_sent : sent.chunks ≡ chunk_at s blob init offset ∷ [] = ground arith in
            subst (All IsNew) (sym one_sent) ((refl, ltb→lt _ _ more, new), tt)
        | inl (persisted, answered) ↦
            elim (Option-cases
              (send_from s fuel blob init (offset + init.chunk_size_bytes) persisted)) [
                | inl ran_out ↦ absurd (ground arith)
                | inr (rest, made) ↦
                    let all_sent : sent.chunks ≡ chunk_at s blob init offset ∷ rest.chunks =
                      ground arith in
                    subst (All IsNew) (sym all_sent) (
                      (refl, ltb→lt _ _ more, new),
                      send_from-IsNew fuel (offset + init.chunk_size_bytes) persisted rest made,
                    )
              ]
      ]
    ]
  ]

  -- A chunk of an offset was received by the service before, or is among those that were sent.
  abbrev pub IsSent : List Chunk → ℕ → Type 0
  IsSent chunks offset =
      (is_received s init offset ≡ true) ⊎ Memᴰ (chunk_at s blob init offset) chunks

-- An upload always comes to an end, whatever the service answers.
pub upload_file-ends :
    {E : Type 0} (s : Services E) (blob : Option Bytes)
    → (u : Uploaded E) × (upload_file s blob ≡ some u)
unfolding upload_file
upload_file-ends s blob = elim (Option-cases blob) [
  | inl nothing ↦ (record { complete = err s.unavailable; chunks = [] }, ground arith)
  | inr (bytes, given) ↦ elim (Reply-cases (s.init_upload (length bytes))) [
    | inr (e, refused) ↦ (record { complete = err e; chunks = [] }, ground arith)
    | inl (init, begun) ↦ elim (Option-cases (upload_file s (some bytes))) [
      | inr (u, ended) ↦ (u, ground arith)
      | inl runs_on ↦
          let sized : 0 < init.chunk_size_bytes = ground arith in
          let (sent, made) =
            send_from-total s bytes init (suc (length bytes)) 0 0 sized (omega arith) in
          absurd (ground arith)
    ]
  ]
]

-- No chunk is sent that the service has received before, and each one is cut from the file at its
-- offset.
pub upload_file-IsNew :
    {E : Type 0} (s : Services E) (blob : Bytes) (init : Initialized) (u : Uploaded E)
    → s.init_upload (length blob) ≡ ok init
    → upload_file s (some blob) ≡ some u
    → All (IsNew s blob init) u.chunks
unfolding upload_file
upload_file-IsNew s blob init u begun h =
    elim (Bool-cases (init.already_complete || not (valid_chunk_size init.chunk_size_bytes))) [
      | inl none_due ↦
          let none_sent : u.chunks ≡ [] = ground arith in
          subst (All (IsNew s blob init)) (sym none_sent) tt
      | inr due ↦ elim (Option-cases (send_from s (suc (length blob)) blob init 0 0)) [
        | inl ran_out ↦ absurd (ground arith)
        | inr (sent, made) ↦
            let all_sent : u.chunks ≡ sent.chunks = ground arith in
            subst (All (IsNew s blob init)) (sym all_sent)
              (send_from-IsNew s blob init (suc (length blob)) 0 0 sent made)
      ]
    ]
