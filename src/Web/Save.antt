-- ===== src/Web/Save.antt =====
-- `saveEditedFile` of web/src/modules/files/lib/edit-commit.ts: split, hash, ask which blocks the file
-- holds, upload the rest, commit. The services, the digest and the abort signal are arguments. A
-- phase of the workers is what its tasks come to: how they are ordered is in `Web.Workers`. What
-- it reports meanwhile is in `Web.Save.Progress`. Left out: which blocks were sent by the time that an
-- upload fails.
pub mod Commit
pub mod Progress
use dropbox_go_grpc_microser.Prelude.{
  ℕ, suc, ◌+◌, String, Bool, true, false, not, ◌||◌, Option, none, some, List, [], ◌∷◌, ◌++◌, map,
  length, any, keep, ◌==◌, if◌then◌else◌,
}
use dropbox_go_grpc_microser.Exec.{Reply, ok, err, Exec, pure, raise, lift, modify, ◌>>=◌, ◌>>◌}
use dropbox_go_grpc_microser.Text.{same}
use dropbox_go_grpc_microser.Web.Blocks.{Bytes, split_blocks}
use dropbox_go_grpc_microser.Web.Hex.{to_hex}
use dropbox_go_grpc_microser.Web.Retry.{Link, Outcome, upload_block_with_retry}

-- A hash in hexadecimal, as code units.
abbrev pub Hash : Type 0
Hash = List ℕ

pub record Input : Type 0 where
  pub file_id : String
  pub base_version : ℕ
  pub block_size : ℕ
  pub filename : String
  pub editor : String
  pub bytes : Bytes

pub record PrepareRequest : Type 0 where
  pub file_id : String
  pub base_version : ℕ
  pub size_bytes : ℕ
  pub block_size : ℕ
  pub block_hashes : List Hash

pub record CommitRequest : Type 0 where
  pub file_id : String
  pub base_version : ℕ
  pub commit_id : String
  pub size_bytes : ℕ
  pub block_size : ℕ
  pub block_hashes : List Hash
  pub block_sizes : List ℕ
  pub editor : String
  pub filename : String

pub record Verdict : Type 0 where
  pub committed : Bool
  pub conflict : Bool
  pub version : ℕ
  pub content_hash : String
  pub head_version : ℕ
  pub head_content_hash : String
  pub blocks_reused : ℕ

pub data SaveResult : Type 0 where
  committed :
      (version : ℕ) (content_hash : String) (blocks_reused blocks_total bytes_uploaded : ℕ)
      → SaveResult
  conflict : (head_version : ℕ) (head_content_hash : String) → SaveResult

-- The points at which `throwIfAborted` stands in this function.
pub data Point : Type 0 where
  before_hashing after_hashing before_commit : Point

pub record Services (E : Type 0) : Type 0 where
  pub no_block_size : E
  pub nothing_to_save : E
  pub aborted_error : E
  pub aborted : Point → Bool
  pub aborted_hashing : ℕ → Bool
  -- crypto.subtle.digest("SHA-256", …)
  pub digest : Bytes → Bytes
  pub prepare_commit : PrepareRequest → Reply E (List Hash)
  pub commit_id : String
  -- The attempts to send the block of an index.
  pub link : ℕ → Link E
  pub commit_edit : CommitRequest → Reply E Verdict
  -- Which of the errors of a phase its workers throw.
  pub blame : E → List E → E

-- A block with its index and its hash.
pub record Indexed : Type 0 where
  pub index : ℕ
  pub block : Bytes
  pub hash : Hash

pub record Wire : Type 0 where
  pub prepared : List PrepareRequest
  pub uploaded : List Indexed
  pub commits : List CommitRequest

-- A phase: all tasks resolve, or one of the errors is thrown.
module _ {E A : Type 0} where
  abbrev pub errors : List (Reply E A) → List E
  errors [] = []
  errors (ok a ∷ rs) = errors rs
  errors (err e ∷ rs) = e ∷ errors rs

  abbrev pub values : List (Reply E A) → List A
  values [] = []
  values (ok a ∷ rs) = a ∷ values rs
  values (err e ∷ rs) = values rs

  unfoldable pub settle : (E → List E → E) → List (Reply E A) → Reply E (List A)
  settle blame rs = elim (errors rs) [ [] ↦ ok (values rs) | e ∷ es ↦ err (blame e es) ]

-- blocks.map((block, index) => …)
abbrev pub index_from : (Bytes → Hash) → ℕ → List Bytes → List Indexed
index_from hash i [] = []
index_from hash i (b ∷ bs) =
    record { index = i; block = b; hash = hash b } ∷ index_from hash (suc i) bs

-- known.has(hash)
abbrev pub has : List Hash → Hash → Bool
has known hash = any (λ k. same k hash) known

abbrev pub total_size : List Indexed → ℕ
total_size [] = 0
total_size (x ∷ xs) = length x.block + total_size xs

-- A loop that ran out of rounds, which the code has none of, is read as no blocks.
abbrev blocks_of : Option (List Bytes) → List Bytes
blocks_of none = []
blocks_of (some blocks) = blocks

module _ {E : Type 0} (s : Services E) where
  -- And here as an aborted upload.
  abbrev result_of : Option (Outcome E) → Reply E Unit
  result_of none = err s.aborted_error
  result_of (some o) = o.result

  abbrev throw_if_aborted : Point → Exec Wire E Unit
  throw_if_aborted point = if s.aborted point then raise s.aborted_error else pure tt

  abbrev throw_if : Bool → E → Exec Wire E Unit
  throw_if b e = if b then raise e else pure tt

  abbrev pub hash_of : Bytes → Hash
  hash_of block = to_hex (s.digest block)

  -- `hashBlocks`: its tasks fail only by the signal.
  abbrev hash_task : Indexed → Reply E Hash
  hash_task x = if s.aborted_hashing x.index then err s.aborted_error else ok x.hash

  abbrev upload_task : Indexed → Reply E Unit
  upload_task x = result_of (upload_block_with_retry (s.link x.index))

  -- `blocks.map(…).filter(({ index }) => !known.has(hashes[index]))`
  abbrev pub missing : List Hash → List Indexed → List Indexed
  missing known = keep (λ x. not (has known x.hash))

  abbrev pub commit_request : Input → List Bytes → List Hash → CommitRequest
  commit_request input blocks hashes = record {
    file_id = input.file_id;
    base_version = input.base_version;
    commit_id = s.commit_id;
    size_bytes = length input.bytes;
    block_size = input.block_size;
    block_hashes = hashes;
    block_sizes = map length blocks;
    editor = input.editor;
    filename = input.filename;
  }

  abbrev prepare_request : Input → List Hash → PrepareRequest
  prepare_request input hashes = record {
    file_id = input.file_id;
    base_version = input.base_version;
    size_bytes = length input.bytes;
    block_size = input.block_size;
    block_hashes = hashes;
  }

  abbrev pub save_result : Verdict → List Bytes → ℕ → SaveResult
  save_result v blocks bytes_uploaded =
      if v.conflict || not v.committed
      then conflict v.head_version v.head_content_hash
      else committed v.version v.content_hash v.blocks_reused (length blocks) bytes_uploaded

  -- From the first `throwIfAborted` to the end of the hashing.
  unfoldable pub hash_phase : List Indexed → Exec Wire E (List Hash)
  hash_phase indexed = do
    throw_if_aborted before_hashing
    hashes ← lift (settle s.blame (map hash_task indexed))
    throw_if_aborted after_hashing
    pure hashes

  -- The upload of the blocks that the file does not hold.
  unfoldable pub upload_phase : Input → List Indexed → List Hash → Exec Wire E ℕ
  upload_phase input indexed hashes = do
    modify (λ w. record w { prepared = w.prepared ++ prepare_request input hashes ∷ [] })
    known ← lift (s.prepare_commit (prepare_request input hashes))
    let rest = missing known indexed
    lift (settle s.blame (map upload_task rest))
    modify (λ w. record w { uploaded = w.uploaded ++ rest })
    pure (total_size rest)

  -- The commit, and its verdict.
  unfoldable pub commit_phase : Input → List Bytes → List Hash → ℕ → Exec Wire E SaveResult
  commit_phase input blocks hashes bytes_uploaded = do
    throw_if_aborted before_commit
    modify (λ w. record w { commits = w.commits ++ commit_request input blocks hashes ∷ [] })
    verdict ← lift (s.commit_edit (commit_request input blocks hashes))
    pure (save_result verdict blocks bytes_uploaded)

  abbrev pub blocks_to_save : Input → List Bytes
  blocks_to_save input = blocks_of (split_blocks input.bytes input.block_size)

  unfoldable pub save_edited_file : Input → Exec Wire E SaveResult
  save_edited_file input = do
    throw_if (input.block_size == 0) s.no_block_size
    throw_if (length input.bytes == 0) s.nothing_to_save
    let blocks = blocks_to_save input
    let indexed = index_from hash_of 0 blocks
    hashes ← hash_phase indexed
    bytes_uploaded ← upload_phase input indexed hashes
    commit_phase input blocks hashes bytes_uploaded
