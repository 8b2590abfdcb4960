-- ===== src/Web/Preview.antt =====
-- The preview of a file: web/src/modules/files/components/file-preview-drawer.tsx, with the ticket of
-- web/src/modules/files/api/use-content-url.ts. Texts are lists of code units where they are searched.
pub mod Extension
use dropbox_go_grpc_microser.Prelude.{
  ℕ, suc, ◌+◌, ◌-◌, String, Bool, true, false, not, ◌&&◌, ◌||◌, Option, none, some, List, [], ◌∷◌,
  map, any, length, drop, min, max, ltb, leb, ◌==◌, truthy, if◌then◌else◌,
}
use dropbox_go_grpc_microser.Exec.{Reply, ok, err}
use dropbox_go_grpc_microser.Text.{codes, lower, starts_with, ends_with, same}

-- `toUpperCase` on ASCII.
abbrev pub upper : ℕ → ℕ
upper c = if leb b'a' c && leb c b'z' then c - 32 else c

abbrev pub is_dot : ℕ → Bool
is_dot c = c == b'.'

-- filename.lastIndexOf("."); `none` stands for -1.
unfoldable pub last_dot : List ℕ → Option ℕ
last_dot [] = none
last_dot (c ∷ s) =
    let rest = last_dot s in
    elim rest [ some n ↦ some (suc n) | none ↦ if is_dot c then some 0 else none ]

unfoldable pub file_extension : List ℕ → List ℕ
unfolding last_dot
file_extension filename = elim (last_dot filename) [
  | none ↦ codes "FILE"
  | some dot ↦
      if ltb 0 dot && ltb (dot + 1) (length filename)
      then map upper (drop (dot + 1) filename)
      else codes "FILE"
]

pub data PreviewKind : Type 0 where
  image video audio pdf docx xlsx doc other_kind : PreviewKind

abbrev docx_content_type : String
docx_content_type = "application/vnd.openxmlformats-officedocument.wordprocessingml.document"

abbrev xlsx_content_type : String
xlsx_content_type = "application/vnd.openxmlformats-officedocument.spreadsheetml.sheet"

-- A text that is missing starts, ends and equals like the empty one, since no pattern is empty.
abbrev text_of : Option String → List ℕ
text_of none = []
text_of (some s) = codes s

unfoldable pub preview_kind : Option String → Option String → PreviewKind
preview_kind content_type filename =
    let type = text_of content_type in
    let name = map lower (text_of filename) in
    if ends_with name (codes ".xlsx") || same type (codes xlsx_content_type)
    then xlsx
    else if ends_with name (codes ".docx") || same type (codes docx_content_type)
    then docx
    else if starts_with type (codes "image/")
    then image
    else if starts_with type (codes "video/")
    then video
    else if starts_with type (codes "audio/")
    then audio
    else if same type (codes "application/pdf")
    then pdf
    else if starts_with type (codes "text/")
    then doc
    else other_kind

unfoldable pub is_document : PreviewKind → Bool
is_document pdf = true
is_document docx = true
is_document _ = false

unfoldable pub is_editable : PreviewKind → Bool
is_editable pdf = true
is_editable docx = true
is_editable xlsx = true
is_editable _ = false

-- Whether the ticket's query is enabled, for the id of the item or "".
unfoldable pub is_content_enabled : Bool → PreviewKind → String → Bool
is_content_enabled is_open kind file_id = truthy file_id && (is_open && is_document kind)

pub record ContentUrl : Type 0 where
  pub url : String
  pub filename : String
  pub content_type : String
  pub size_bytes : ℕ

-- `queryFn` of `useContentUrl`.
unfoldable pub content_url : {E : Type 0} → E → Reply E ContentUrl → Reply E ContentUrl
content_url no_url (err e) = err e
content_url no_url (ok response) = if truthy response.url then ok response else err no_url

-- `showUrl`
unfoldable pub shows_url : Bool → PreviewKind → Bool
shows_url is_open image = is_open
shows_url is_open video = is_open
shows_url is_open _ = false

-- The URL that the drawer hands to its buttons.
unfoldable pub preview_url : Bool → PreviewKind → Option String → Option String → Option String
preview_url is_open kind thumbnail_url content =
    if shows_url is_open kind then thumbnail_url else content

pub data Effect : Type 0 where
  opens_tab : String → Effect
  edits : Effect
  unavailable : (action : String) → Effect

abbrev open_url : Option String → Effect
open_url none = unavailable "Open in"
open_url (some url) = if truthy url then opens_tab url else unavailable "Open in"

-- The buttons "Open in" and "Edit" of `ActionBar`.
unfoldable pub open_in_tab : Bool → PreviewKind → Option String → Option String → Effect
unfolding preview_url
open_in_tab is_open kind thumbnail_url content =
    open_url (preview_url is_open kind thumbnail_url content)

unfoldable pub edit : PreviewKind → Effect
edit kind = if is_editable kind then edits else unavailable "Edit"

pub data Surface : Type 0 where
  loading : Surface
  not_available_yet : Surface
  pictured : String → Surface
  no_preview : Surface

abbrev pictured_if : Bool → Option String → Surface
pictured_if failed none = not_available_yet
pictured_if failed (some url) =
    if failed || not (truthy url) then not_available_yet else pictured url

-- `PreviewSurface`
unfoldable pub preview_surface : PreviewKind → Option String → (failed is_loading : Bool) → Surface
preview_surface image url failed is_loading = if is_loading then loading else pictured_if failed url
preview_surface video url failed is_loading = if is_loading then loading else pictured_if failed url
preview_surface _ url failed is_loading = no_preview

-- The zoom in percent: it starts at 100 whenever the drawer opens or shows another item.
unfoldable pub zoom_out : ℕ → ℕ
zoom_out z = max 25 (z - 25)

unfoldable pub zoom_in : ℕ → ℕ
zoom_in z = min 200 (z + 25)

abbrev pub reset_zoom : ℕ
reset_zoom = 100
