-- ===== src/Native/Display.antt =====
-- native/src/modules/files/lib/file-display.ts: sizes, ages and kinds of files. A text made of a number
-- and a word is the record of the two; sizes are not negative. `formatBytes` stands in
-- web/src/lib/utils.ts in the same words.
pub mod Rounding
use dropbox_go_grpc_microser.Prelude.{
  ℕ, zero, suc, ◌+◌, ◌-◌, ◌*◌, ◌/◌, String, Bool, true, false, ◌||◌, Option, none, some, List, [],
  ◌∷◌, map, ltb, leb, max, if◌then◌else◌,
}
use dropbox_go_grpc_microser.Text.{codes, lower, starts_with, ends_with, same}

-- `number / 10 ^ digits`, as `toFixed(digits)` prints it, and the unit as its place among B, KB, MB, GB
-- and TB.
pub record Size : Type 0 where
  pub number : ℕ
  pub digits : ℕ
  pub exponent : ℕ

-- Math.min(Math.floor(Math.log2(value) / 10), units.length - 1)
unfoldable pub exponent_of : ℕ → ℕ
exponent_of value =
    if ltb value 1024
    then 0
    else if ltb value 1048576
    then 1
    else if ltb value 1073741824
    then 2
    else if ltb value 1099511627776
    then 3
    else 4

-- 1024 ** exponent, of the five exponents.
unfoldable pub unit_of : ℕ → ℕ
unit_of zero = 1
unit_of (suc zero) = 1024
unit_of (suc (suc zero)) = 1048576
unit_of (suc (suc (suc zero))) = 1073741824
unit_of (suc (suc (suc (suc n)))) = 1099511627776

-- `toFixed` of a quotient, times a power of ten: the nearest number, the larger one of two.
abbrev pub to_fixed : ℕ → ℕ → ℕ → ℕ
to_fixed scale value unit = (2 * (scale * value) + unit) / (2 * unit)

abbrev pub digits_of : ℕ → ℕ → ℕ
digits_of value exponent =
    if leb (100 * unit_of exponent) value then 0 else elim exponent [ zero ↦ 0 | suc n ↦ 1 ]

abbrev pub power_of_ten : ℕ → ℕ
power_of_ten zero = 1
power_of_ten (suc n) = 10 * power_of_ten n

-- `formatBytes`; "0 B" is nothing of the first unit.
unfoldable pub format_bytes : Option ℕ → Size
unfolding exponent_of unit_of
format_bytes none = record { number = 0; digits = 0; exponent = 0 }
format_bytes (some zero) = record { number = 0; digits = 0; exponent = 0 }
format_bytes (some (suc n)) =
    let e = exponent_of (suc n) in
    record {
      number = to_fixed (power_of_ten (digits_of (suc n) e)) (suc n) (unit_of e);
      digits = digits_of (suc n) e;
      exponent = e;
    }

pub data TimeUnit : Type 0 where
  minute hour day month year : TimeUnit

pub data Age : Type 0 where
  unknown : Age
  just_now : Age
  ago : ℕ → TimeUnit → Age

-- Math.abs(Math.round((ms - Date.now()) / 1000)): a half is rounded towards the future.
unfoldable pub seconds_apart : ℕ → ℕ → ℕ
seconds_apart now ms = if ltb ms now then (now - ms + 499) / 1000 else (ms - now + 500) / 1000

-- Math.round(value / unit)
abbrev pub rounded : ℕ → ℕ → ℕ
rounded value unit = (value + unit / 2) / unit

unfoldable pub age_of : ℕ → Age
age_of seconds =
    if ltb seconds 45
    then just_now
    else if ltb seconds 3600
    then ago (max 1 (rounded seconds 60)) minute
    else if ltb seconds 86400
    then ago (rounded seconds 3600) hour
    else if ltb seconds 2592000
    then ago (rounded seconds 86400) day
    else if ltb seconds 31536000
    then ago (rounded seconds 2592000) month
    else ago (rounded seconds 31536000) year

-- `formatRelativeTime`, of what `Date.parse` gives; `none` where there is no text or no date.
unfoldable pub format_relative_time : ℕ → Option ℕ → Age
format_relative_time now none = unknown
format_relative_time now (some ms) = age_of (seconds_apart now ms)

pub data FileKind : Type 0 where
  image video pdf document sheet archive other_kind : FileKind

abbrev text_of : Option String → List ℕ
text_of none = []
text_of (some s) = map lower (codes s)

-- `fileKind`, of a file's content type and name; neither where there is no file.
unfoldable pub file_kind : Option String → Option String → FileKind
file_kind content_type filename =
    let type = text_of content_type in
    let name = text_of filename in
    if starts_with type (codes "image/")
    then image
    else if starts_with type (codes "video/")
    then video
    else if same type (codes "application/pdf") || ends_with name (codes ".pdf")
    then pdf
    else if ends_with name (codes ".doc") || ends_with name (codes ".docx")
    then document
    else if ends_with name (codes ".xls")
        || ends_with name (codes ".xlsx")
        || ends_with name (codes ".csv")
    then sheet
    else if ends_with name (codes ".zip")
        || ends_with name (codes ".tar")
        || ends_with name (codes ".gz")
    then archive
    else other_kind

pub record Icon : Type 0 where
  pub name : String
  pub color : String

unfoldable pub file_kind_icon : FileKind → Icon
file_kind_icon image = record { name = "image-outline"; color = "#6B7280" }
file_kind_icon video = record { name = "play-circle-outline"; color = "#6B7280" }
file_kind_icon pdf = record { name = "file-pdf-box"; color = "#DC2626" }
file_kind_icon document = record { name = "file-word-outline"; color = "#2563EB" }
file_kind_icon sheet = record { name = "file-excel-outline"; color = "#15803D" }
file_kind_icon archive = record { name = "folder-zip-outline"; color = "#6B7280" }
file_kind_icon other_kind = record { name = "file-document-outline"; color = "#6B7280" }

pub data Part : Type 0 where
  size_part : Size → Part
  age_part : Age → Part

-- `.filter(Boolean)`: the size is never empty, the age is where it is unknown.
abbrev age_parts : Age → List Part
age_parts unknown = []
age_parts age = age_part age ∷ []

-- `describeFile`, of a file's size and of the time that `createdAt` gives.
unfoldable pub describe_file : ℕ → Option (ℕ × Option ℕ) → List Part
describe_file now none = []
describe_file now (some (size, created_at)) =
    size_part (format_bytes (some size)) ∷ age_parts (format_relative_time now created_at)
