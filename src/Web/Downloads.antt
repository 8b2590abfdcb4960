-- ===== src/Web/Downloads.antt =====
-- `useDownloadFile` of web/src/modules/files/api/use-download.ts: the ids of the downloads that are
-- pending. A call is cut at its await; the ticket service's answer is an argument. Clicking the anchor is
-- an entry of `clicked`, newest last.
pub mod Pending
use dropbox_go_grpc_microser.Prelude.{
  String, Bool, true, false, not, List, [], ◌∷◌, ◌++◌, truthy, length, ltb, if◌then◌else◌,
}
use dropbox_go_grpc_microser.Exec.{Reply, ok, err}
use dropbox_go_grpc_microser.Web.Grid.{has, add, remove}

pub record Downloads (E : Type 0) : Type 0 where
  pub pending_ids : List String
  -- The calls that wait for their ticket.
  pub waiting : List String
  -- The URL and the name of each anchor that was clicked.
  pub clicked : List (String × String)
  -- The errors that calls rejected with.
  pub rejected : List E

abbrev filename_or : String → String
filename_or filename = if truthy filename then filename else "download"

abbrev pub without : String → List String → List String
without id [] = []
without id (k ∷ ks) = elim (has (k ∷ []) id) [ true ↦ ks | false ↦ k ∷ without id ks ]

module _ {E : Type 0} where
  abbrev pub init : Downloads E
  init = record { pending_ids = []; waiting = []; clicked = []; rejected = [] }

  -- `downloadFile`, up to its `await`.
  unfoldable pub ask_ticket : String → Downloads E → Downloads E
  unfolding add
  ask_ticket file_id d = record d {
    pending_ids = add file_id d.pending_ids;
    waiting = file_id ∷ d.waiting;
  }

  abbrev opened : E → Reply E String → String → Downloads E → Downloads E
  opened no_url (err e) filename d = record d { rejected = d.rejected ++ e ∷ [] }
  opened no_url (ok url) filename d =
      if truthy url
      then record d { clicked = d.clicked ++ (url, filename_or filename) ∷ [] }
      else record d { rejected = d.rejected ++ no_url ∷ [] }

  -- The answer to a call that waits, and its `finally`.
  unfoldable pub answer_ticket : E → Reply E String → String → String → Downloads E → Downloads E
  unfolding remove
  answer_ticket no_url ticket file_id filename d =
      if has d.waiting file_id
      then (let after = opened no_url ticket filename d in
          record after {
            pending_ids = remove file_id d.pending_ids;
            waiting = without file_id d.waiting;
          })
      else d

  -- isPending and isAnyPending
  unfoldable pub is_pending : Downloads E → String → Bool
  is_pending d file_id = has d.pending_ids file_id

  unfoldable pub is_any_pending : Downloads E → Bool
  is_any_pending d = ltb 0 (length d.pending_ids)
