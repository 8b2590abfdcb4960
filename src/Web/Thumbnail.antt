-- ===== src/Web/Thumbnail.antt =====
-- The route of web/src/app/api/thumbnails/[fileId]/route.ts: the bytes of a thumbnail, behind the
-- access token. The metadata service and the object storage are arguments.
pub mod Served
use Prim.Native.String
use dropbox_go_grpc_microser.Prelude.{
  ℕ, String, Bool, true, false, not, ◌&&◌, ◌||◌, Option, none, some, str_eq, truthy, present,
  if◌then◌else◌,
}
use dropbox_go_grpc_microser.Exec.{Reply, ok, err}
use dropbox_go_grpc_microser.Web.Blocks.{Bytes}

-- What `fetch(objectUrl)` answers; a body may be missing.
pub record Upstream : Type 0 where
  pub is_ok : Bool
  pub content_type : Option String
  pub content_length : Option String
  pub body : Option Bytes

pub data Answer : Type 0 where
  plain : (status : ℕ) (text : String) → Answer
  -- The handler itself rejects, and the framework answers.
  threw : Answer
  not_modified : (etag : String) → Answer
  served : (content_type etag : String) (content_length : Option String) (body : Bytes) → Answer

abbrev pub quoted : String → String
quoted s = String.◌++◌ "\"" (String.◌++◌ s "\"")

-- `"${version || fileId}"`
abbrev pub etag_of : String → String → String
etag_of version file_id = quoted (if truthy version then version else file_id)

abbrev pub text_or : Option String → String → String
text_or none s = s
text_or (some t) s = t

abbrev pub matches : Option String → String → Bool
matches none s = false
matches (some t) s = str_eq t s

module _ {E : Type 0} (get_thumbnail_url : String → String → Reply E String)
    (fetch : String → Reply E Upstream) where
  abbrev serve : String → Reply E Upstream → Answer
  serve etag (err e) = threw
  serve etag (ok up) = elim up.body [
    | none ↦ plain 502 "thumbnail fetch failed"
    | some body ↦
        if up.is_ok
        then served (text_or up.content_type "image/jpeg") etag (present up.content_length) body
        else plain 502 "thumbnail fetch failed"
  ]

  abbrev fetched : String → Reply E String → Answer
  fetched etag (err e) = plain 404 "thumbnail unavailable"
  fetched etag (ok url) =
      if truthy url then serve etag (fetch url) else plain 404 "thumbnail not ready"

  -- `GET`, of a file's id, the access token cookie, the query's `v` and the `if-none-match` header.
  unfoldable pub get : String → Option String → Option String → Option String → Answer
  get file_id token v if_none_match =
      if not (truthy file_id) then plain 400 "missing file id" else (elim (present token) [
        | none ↦ plain 401 "unauthenticated"
        | some t ↦
            let version = text_or v "" in
            let etag = etag_of version file_id in
            if truthy version && matches if_none_match etag
            then not_modified etag
            else fetched etag (get_thumbnail_url t file_id)
      ])
