-- ===== src/Web/Save/Commit.antt =====
-- What is committed, and when nothing is.
use mathlib.Core.List.{Memᴰ}
use dropbox_go_grpc_microser.Prelude.{
  ℕ, ◌<◌, ◌≡◌, ◌⊎◌, inl, inr, true, false, ◌||◌, List, [], ◌∷◌, ◌++◌, map, arith, All, length, ◌==◌,
  Bool-cases,
}
use dropbox_go_grpc_microser.Exec.{ok, err, Reply-cases}
use dropbox_go_grpc_microser.Web.Save.{
  Hash, Input, CommitRequest, Verdict, committed, Services, Indexed, Wire, index_from, has,
  total_size, hash_of, upload_task, missing, before_commit, commit_request, prepare_request,
  blocks_to_save, hash_phase, upload_phase, commit_phase, save_edited_file,
}

module _ {E : Type 0} (s : Services E) where
  hash_phase-wire : (xs : List Indexed) (w : Wire) → (hash_phase s xs w).1 ≡ w
  unfolding hash_phase
  hash_phase-wire xs w = ground arith

  -- Each block was held by the file already, or is one of those that were sent.
  abbrev pub IsCovered : List Hash → List Indexed → Indexed → Type 0
  IsCovered known sent x = (has known x.hash ≡ true) ⊎ Memᴰ x sent

  -- What the upload leaves when it succeeds: the file's own blocks were asked for, and every other
  -- block was sent.
  abbrev pub IsUploaded : Input → List Indexed → List Hash → Wire → Wire → ℕ → Type 0
  IsUploaded input indexed hashes w w' sent =
      (known : List Hash) × (s.prepare_commit (prepare_request s input hashes) ≡ ok known)
      × (w'.uploaded ≡ w.uploaded ++ missing s known indexed)
      × All (λ x. upload_task s x ≡ ok tt) (missing s known indexed)
      × All (IsCovered known (missing s known indexed)) indexed
      × (sent ≡ total_size (missing s known indexed))
      × (w'.commits ≡ w.commits)

  upload_phase-commits :
      (input : Input) (indexed : List Indexed) (hashes : List Hash) (w : Wire)
      → (upload_phase s input indexed hashes w).1.commits ≡ w.commits
  unfolding upload_phase
  upload_phase-commits input indexed hashes w = ground arith

  -- A save that commits.
  abbrev pub indexed_blocks : Input → List Indexed
  indexed_blocks input = index_from (hash_of s) 0 (blocks_to_save s input)

  abbrev pub block_hashes : Input → List Hash
  block_hashes input = map (hash_of s) (blocks_to_save s input)

  -- The commit that a save sends names every block's hash and size, in order.
  abbrev pub request : Input → CommitRequest
  request input = commit_request s input (blocks_to_save s input) (block_hashes input)

  -- What stands behind a reported version: the service's verdict on the one commit that was sent,
  -- and the blocks, of which each was held by the file or sent and acknowledged.
  pub record IsCommitted (input : Input) (w w' : Wire) (version : ℕ) : Type 0 where
    pub splits : (0 < input.block_size) × (0 < length input.bytes)
    pub commits : w'.commits ≡ w.commits ++ request input ∷ []
    pub verdict : Verdict
    pub answered : s.commit_edit (request input) ≡ ok verdict
    pub won : (verdict.committed ≡ true) × (verdict.conflict ≡ false) × (version ≡ verdict.version)
    pub known : List Hash
    pub asked : s.prepare_commit (prepare_request s input (block_hashes input)) ≡ ok known
    pub uploaded : w'.uploaded ≡ w.uploaded ++ missing s known (indexed_blocks input)
    pub acknowledged : All (λ x. upload_task s x ≡ ok tt) (missing s known (indexed_blocks input))
    pub covered :
        All (IsCovered known (missing s known (indexed_blocks input))) (indexed_blocks input)

  -- A save that is refused or aborted sends no commit, unless the commit itself is what is refused.
  pub save_edited_file-err :
      (input : Input) (w : Wire) (e : E)
      → (save_edited_file s input w).0 ≡ err e
      → ((save_edited_file s input w).1.commits ≡ w.commits)
        ⊎ ((request : CommitRequest) × (s.commit_edit request ≡ err e)
            × ((save_edited_file s input w).1.commits ≡ w.commits ++ request ∷ []))
  unfolding save_edited_file commit_phase
  save_edited_file-err input w e h = elim (Reply-cases (hash_phase s (indexed_blocks input) w).0) [
    | inr (f, failed) ↦ inl (ground (arith, hash_phase-wire (indexed_blocks input) w))
    | inl (hashes, hashed) ↦
        elim (Reply-cases (upload_phase s input (indexed_blocks input) hashes w).0) [
          | inr (f, failed) ↦ inl (
              ground (
                arith,
                hash_phase-wire (indexed_blocks input) w,
                upload_phase-commits input (indexed_blocks input) hashes w,
              ))
          | inl (size, sized) ↦
              let r : CommitRequest = commit_request s input (blocks_to_save s input) hashes in
              elim (Reply-cases (s.commit_edit r)) [
                | inl (verdict, answered) ↦ inl (
                    ground (
                      arith,
                      hash_phase-wire (indexed_blocks input) w,
                      upload_phase-commits input (indexed_blocks input) hashes w,
                    ))
                | inr (f, refused) ↦
                    elim (Bool-cases (
                      s.aborted before_commit
                      || (input.block_size == 0)
                      || (length input.bytes == 0))) [
                        | inl stopped ↦ inl (
                            ground (
                              arith,
                              hash_phase-wire (indexed_blocks input) w,
                              upload_phase-commits input (indexed_blocks input) hashes w,
                            ))
                        | inr runs ↦ inr (
                          r,
                          ground (
                            arith,
                            hash_phase-wire (indexed_blocks input) w,
                            upload_phase-commits input (indexed_blocks input) hashes w,
                          ),
                          ground (
                            arith,
                            hash_phase-wire (indexed_blocks input) w,
                            upload_phase-commits input (indexed_blocks input) hashes w,
                          ),
                        )
                      ]
              ]
        ]
  ]
