-- ===== src/Web/Batches.antt =====
-- The query of `useThumbnailUrls` of web/src/modules/files/api/use-files.ts, and of
-- native/src/modules/files/api/use-files.ts in the same words: the ids go out in batches, and the URLs
-- that come back are collected. The ids are those of `Web.Batches.Ids`; the service is an argument.
pub mod Cover
pub mod Ids
use dropbox_go_grpc_microser.Prelude.{
  ℕ, zero, suc, ◌+◌, ◌-◌, String, Option, none, some, List, [], ◌∷◌, length, take, drop, ltb,
  truthy, if◌then◌else◌,
}
use dropbox_go_grpc_microser.Exec.{Reply, ok, err}
use dropbox_go_grpc_microser.Dict.{Dict, insert}

abbrev pub thumbnail_url_batch_size : ℕ
thumbnail_url_batch_size = 100

pub record Thumbnail : Type 0 where
  pub file_id : String
  pub url : String

abbrev pub push_batch : List String → Option (List (List String)) → Option (List (List String))
push_batch batch none = none
push_batch batch (some batches) = some (batch ∷ batches)

-- The loop, from an index on, with the rounds that are left; `none` means that they ran out.
unfoldable pub batches_from : ℕ → List String → ℕ → Option (List (List String))
batches_from zero ids i = none
batches_from (suc fuel) ids i =
    let rest = batches_from fuel ids (i + thumbnail_url_batch_size) in
    if ltb i (length ids)
    then push_batch (take (i + thumbnail_url_batch_size - i) (drop i ids)) rest
    else some []

unfoldable pub batches : List String → Option (List (List String))
unfolding batches_from
batches ids = batches_from (suc (length ids)) ids 0

-- `if (thumbnail.url) urls.set(thumbnail.fileId, thumbnail.url)`, for all thumbnails of a response.
unfoldable pub collect : List Thumbnail → Dict String → Dict String
collect [] urls = urls
collect (t ∷ ts) urls = collect ts (if truthy t.url then insert t.file_id t.url urls else urls)

module _ {E : Type 0} (get_thumbnail_urls : List String → Reply E (List Thumbnail)) where
  -- The URLs of all batches. Where several calls fail, `Promise.all` rejects with the one that failed
  -- first in time; here the first in order stands for it.
  unfoldable pub urls_of : List (List String) → Dict String → Reply E (Dict String)
  unfolding collect
  urls_of [] urls = ok urls
  urls_of (batch ∷ bs) urls = elim (get_thumbnail_urls batch) [
    | err e ↦ err e
    | ok ts ↦ urls_of bs (collect ts urls)
  ]
