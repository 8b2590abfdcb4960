-- ===== src/Web/Names/Sent.antt =====
-- Which names are sent.
use dropbox_go_grpc_microser.Prelude.{◌≤◌, String, ◌≡◌, ◌≢◌, false, length}
use dropbox_go_grpc_microser.Text.{codes, trim}
use dropbox_go_grpc_microser.Web.Names.{has_separator}

-- The rules of the dialog for a name, in code units; the service counts 255 bytes.
abbrev pub IsFileName : String → Type 0
IsFileName name =
    (trim name ≡ name)
    × (1 ≤ length (codes name))
    × (length (codes name) ≤ 100)
    × (has_separator (codes name) ≡ false)
    × (name ≢ ".")
    × (name ≢ "..")
