-- ===== src/Web/Thumbnail/Served.antt =====
-- When bytes are served.
use dropbox_go_grpc_microser.Prelude.{
  String, ◌≡◌, true, Option, some, none, arith, present, truthy, Option-cases, inl, inr,
}
use dropbox_go_grpc_microser.Exec.{Reply, ok, err, Reply-cases}
use dropbox_go_grpc_microser.Web.Blocks.{Bytes}
use dropbox_go_grpc_microser.Web.Thumbnail.{Upstream, served, threw, etag_of, text_or, get}

-- Bytes are served only to a request with an access token for which the metadata service gave a URL:
-- they are those of that URL, under the tag of the version that was asked for, or of the file.
pub get-eq_served :
    {E : Type 0} (get_thumbnail_url : String → String → Reply E String)
    (fetch : String → Reply E Upstream) (file_id : String) (token v if_none_match : Option String)
    (content_type etag : String) (size : Option String) (body : Bytes)
    → get get_thumbnail_url fetch file_id token v if_none_match ≡ served content_type etag size body
    → (t : String) × (url : String) × (present token ≡ some t)
      × (get_thumbnail_url t file_id ≡ ok url)
      × (truthy url ≡ true)
      × (up : Upstream) × (fetch url ≡ ok up)
      × (up.is_ok ≡ true)
      × (up.body ≡ some body)
      × (etag ≡ etag_of (text_or v "") file_id)
unfolding get
get-eq_served get_thumbnail_url fetch file_id token v if_none_match content_type etag size body h =
    elim (Option-cases (present token)) [
      | inl nothing ↦ absurd (ground arith)
      | inr (t, given) ↦ elim (Reply-cases (get_thumbnail_url t file_id)) [
        | inr (e, refused) ↦ absurd (ground arith)
        | inl (url, answered) ↦ elim (Reply-cases (fetch url)) [
          | inr (e, rejected) ↦ absurd (ground arith)
          | inl (up, sent) ↦ (
            t,
            url,
            given,
            answered,
            ground arith,
            up,
            sent,
            ground arith,
            ground arith,
            ground arith,
          )
        ]
      ]
    ]

-- A `fetch` that rejects is not caught: the request fails as a whole, not with the 502 of an upstream that
-- answers badly.
pub get-threw :
    {E : Type 0} (get_thumbnail_url : String → String → Reply E String)
    (fetch : String → Reply E Upstream) (file_id t url : String) (e : E)
    → truthy file_id ≡ true
    → truthy t ≡ true
    → get_thumbnail_url t file_id ≡ ok url
    → truthy url ≡ true
    → fetch url ≡ err e
    → get get_thumbnail_url fetch file_id (some t) none none ≡ threw
unfolding get
get-threw get_thumbnail_url fetch file_id t url e named signed answered made rejected = ground arith
