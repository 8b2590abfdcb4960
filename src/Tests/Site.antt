-- ===== src/Tests/Site.antt =====
-- The web client on concrete inputs: a save of three bytes in blocks of two, an upload whose first
-- chunk the service has, a pool of two workers, and requests with and without cookies.
use dropbox_go_grpc_microser.Prelude.{
  ◌++◌, All, ℕ, zero, suc, ◌≤◌, ◌+◌, ◌*◌, String, ◌≡◌, ◌⊎◌, ◌↔◌, Bool, true, false, Option, none,
  some, List, [], ◌∷◌, arith, present, length,
}
use dropbox_go_grpc_microser.Exec.{Reply, ok, err, is_ok}
use dropbox_go_grpc_microser.Rpc.{Code}
use dropbox_go_grpc_microser.Text.{codes}
use dropbox_go_grpc_microser.Web.Blocks.{Bytes, split_blocks}
use dropbox_go_grpc_microser.Web.Blocks.Cover.{concat, AreBlocks, split_blocks-covers}
use dropbox_go_grpc_microser.Web.Hex.{to_hex}
use dropbox_go_grpc_microser.Web.Hex.Decode.{from_hex, to_hex_roundtrip}
use dropbox_go_grpc_microser.Web.Workers
use dropbox_go_grpc_microser.Web.Workers.{Pool, advance, resolve, reject}
use dropbox_go_grpc_microser.Web.Workers.Once.{count, count_failed, go_on, rejects, Run, Run-once}
use dropbox_go_grpc_microser.Web.Retry.{Link, upload_block_with_retry}
use dropbox_go_grpc_microser.Web.Retry.Bounds.{Ends, Requests, upload_block_with_retry-ends}
use dropbox_go_grpc_microser.Web.Save.{Input, Verdict, Services, Wire}
use dropbox_go_grpc_microser.Web.Edit
use dropbox_go_grpc_microser.Web.Edit.{EditSession, EditView, begin_save}
use dropbox_go_grpc_microser.Web.Edit.Request.{Handles}
use dropbox_go_grpc_microser.Web.Upload
use dropbox_go_grpc_microser.Web.Upload.{Initialized, Uploaded, upload_file, chunk_at}
use dropbox_go_grpc_microser.Web.Upload.Uppy.{
  UppyFile, Report, Event, upload_success, upload_error, report, added,
}
use dropbox_go_grpc_microser.Web.Upload.Uppy.Reports.{IsProgress, report-ends}
use dropbox_go_grpc_microser.Web.Jwks.{
  Store, CachedJwkEntry, Payload, Jose, Validation, valid, invalid, invalid_token,
}
use dropbox_go_grpc_microser.Web.Cookies.{
  Jar, set_auth_cookies, cookie_value, access_token_cookie_name, refresh_token_cookie_name,
}
use dropbox_go_grpc_microser.Web.Gate.{Pair, proxy}
use dropbox_go_grpc_microser.Web.Gate.Passes.{Passed, is_valid, proxy-passes_iff}
use dropbox_go_grpc_microser.Web.Forward.{BrowserRequest}
use dropbox_go_grpc_microser.Web.Move.{MoveItem, folder, file}

abbrev bytes : Bytes
bytes = 1 ∷ 2 ∷ 255 ∷ []

split_blocks-covers_example :
    (blocks : List Bytes) × (split_blocks bytes 2 ≡ some blocks)
    × (concat blocks ≡ bytes)
    × AreBlocks 2 blocks
split_blocks-covers_example = split_blocks-covers bytes 2 (omega arith)

to_hex_roundtrip_example : (from_hex (to_hex bytes) ≡ bytes) × (length (to_hex bytes) ≡ 2 * 3)
to_hex_roundtrip_example = to_hex_roundtrip bytes (ground arith)

-- Three items, two workers: both start, and the first item fails.
abbrev begun : Pool Code
begun = advance 3 (advance 3 (Workers.start 2 3))

abbrev failed_once : Pool Code
failed_once = reject 0 Code.internal begun

Run-once_example :
    (length failed_once.running ≤ 2)
    × (count 0 failed_once.running
          + count 0 failed_once.completed
          + count_failed 0 failed_once.failed
        ≤ 1)
Run-once_example = Run-once 2 3 0 (
    Run.next
      (Run.next (Run.next Run.here (go_on (Workers.start 2 3)))
        (go_on (advance 3 (Workers.start 2 3))))
      (rejects 0 Code.internal begun))

-- The first attempt fails, and the second is answered.
abbrev answer_second : ℕ → Reply Code Unit
answer_second zero = err Code.unavailable
answer_second (suc n) = ok tt

abbrev is_aborted_code : Code → Bool
is_aborted_code Code.canceled = true
is_aborted_code _ = false

abbrev link : Link Code
link = record {
  code_of = λ c. c;
  aborted_error = Code.canceled;
  is_aborted_error = is_aborted_code;
  aborted = λ _. false;
  aborted_asleep = λ _. false;
  write = answer_second;
  random = λ _. 500;
}

upload_block_with_retry-ends_example : Ends (upload_block_with_retry link) (Requests link)
upload_block_with_retry-ends_example = upload_block_with_retry-ends link

abbrev verdict : Verdict
verdict = record {
  committed = true;
  conflict = false;
  version = 4;
  content_hash = "c";
  head_version = 4;
  head_content_hash = "c";
  blocks_reused = 0;
}

-- A service that holds none of the blocks and commits; the digest is one byte.
abbrev services : Services Code
services = record {
  no_block_size = Code.invalid_argument;
  nothing_to_save = Code.failed_precondition;
  aborted_error = Code.canceled;
  aborted = λ _. false;
  aborted_hashing = λ _. false;
  digest = λ b. 7 ∷ [];
  prepare_commit = λ _. ok [];
  commit_id = "id";
  link = λ _. link;
  commit_edit = λ _. ok verdict;
  blame = λ e es. e;
}

abbrev input : Input
input = record {
  file_id = "f";
  base_version = 3;
  block_size = 2;
  filename = "a.txt";
  editor = "ann";
  bytes = bytes;
}

abbrev quiet : Wire
quiet = record { prepared = []; uploaded = []; commits = [] }

-- The edit page saves the bytes of a mounted editor.
abbrev edit_session : EditSession
edit_session = record {
  version = 3;
  block_size = 2;
  filename = "a.docx";
  unavailable_reason = "";
  size_bytes = 3;
  max_edit_bytes = 10;
}

abbrev handles : Handles Code
handles = record { pdf = none; docx = some (ok bytes); xlsx = none }

abbrev message_of : Code → Option String
message_of _ = none

abbrev running_save : EditView
running_save = begin_save (Edit.init (some edit_session))

-- Chunks of two bytes, of which the service has the first.
abbrev initialized : Initialized
initialized = record {
  already_complete = false;
  object_id = "o";
  upload_id = "up";
  chunk_size_bytes = 2;
  already_received_chunk_indices = 0 ∷ [];
}

abbrev store : Upload.Services Code
store = record {
  unavailable = Code.invalid_argument;
  invalid_chunk_size = Code.internal;
  ended_early = Code.data_loss;
  init_upload = λ _. ok initialized;
  upload_chunk = λ chunk. ok 3;
  digest = λ b. 7 ∷ [];
}

abbrev upload_id : String
upload_id = "up"

abbrev uploaded : Uploaded Code
uploaded = record { complete = ok "up"; chunks = chunk_at store bytes initialized 2 ∷ [] }

abbrev chosen : UppyFile Code
chosen = added (some bytes)

report-ends_example :
    (u : Uploaded Code) × (r : Report Code) × (before : List (Event Code)) × (last : Event Code)
    × (upload_file store (some bytes) ≡ some u)
    × (report store chosen ≡ some r)
    × (r.events ≡ before ++ last ∷ [])
    × All (IsProgress 3) before
    × (((id : String) × (u.complete ≡ ok id)
          × (last ≡ upload_success id)
          × (length before ≡ length u.chunks)
          × (r.thrown ≡ none)
          × (r.file_state.progress ≡ record {
            upload_complete = true;
            bytes_uploaded = 3;
            bytes_total = 3;
            percentage = 100;
          })
          × (r.file_state.response ≡ some id)
          × (r.file_state.error ≡ none))
        ⊎ ((e : Code) × (u.complete ≡ err e)
            × (last ≡ upload_error e)
            × (r.thrown ≡ some e)
            × (r.file_state.progress ≡ chosen.progress)
            × (r.file_state.response ≡ none)
            × (r.file_state.error ≡ some e)))
report-ends_example = report-ends store chosen

-- The keys of the auth service, as texts: one is cached.
abbrev entry : CachedJwkEntry String
entry = record { key = "pub"; observed_at = 900 }

abbrev keys_store : Store String
keys_store = record { cache = ("k1", entry) ∷ []; last_fetch_at = 900; fetches = 1 }

abbrev claims : Payload
claims = record { token_type = some "refresh"; sid_is_text = true; gen_is_number = true }

abbrev jose : Jose String
jose = record {
  decode_protected_header = λ _. some (record { alg = "EdDSA"; kid = "k1" });
  jwt_verify = λ _ _. some claims;
}

abbrev validate : Option String → Validation
validate none = invalid invalid_token
validate (some t) = valid claims

abbrev always_stale : Option String → Bool
always_stale _ = true

abbrev fresh_pair : Pair
fresh_pair = record { access_token = "a2"; refresh_token = "r2" }

abbrev fails : String → Reply Code Pair
fails _ = err Code.unavailable

abbrev renews : String → Reply Code Pair
renews _ = ok fresh_pair

abbrev cookies : Jar
cookies = set_auth_cookies false "a1" "r1" []

proxy-passes_iff_example :
    Passed false validate always_stale fails renews cookies
      (proxy false validate always_stale fails renews cookies).0
    ↔ ((token : String) × (present (cookie_value (refresh_token_cookie_name false) cookies)
          ≡ some token)
        × (is_valid (validate (some token)) ≡ true)
        × ((always_stale (cookie_value (access_token_cookie_name false) cookies) ≡ false)
            ⊎ (is_ok (fails token) ≡ true)
            ⊎ (is_ok (renews token) ≡ true)))
proxy-passes_iff_example = proxy-passes_iff false validate always_stale fails renews cookies

abbrev items : List MoveItem
items =
    record { item_id = "i"; item_type = file; name = some "a.txt" }
    ∷ record { item_id = "j"; item_type = folder; name = none }
    ∷ []

abbrev browser_request : BrowserRequest
browser_request = record {
  method = "POST";
  pathname = codes "/api/rpc/auth/Login";
  search = [];
  headers = ("cookie", "a=b") ∷ ("accept", "text") ∷ [];
  body = [];
}
