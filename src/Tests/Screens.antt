-- ===== src/Tests/Screens.antt =====
-- The screens of the mobile app on concrete inputs: a sign-up, a size, and a note of the sheet.
use dropbox_go_grpc_microser.Prelude.{
  ℕ, ◌*◌, ◌≤◌, ◌<◌, ◌≡◌, ◌⊎◌, refl, none, some, [], ◌∷◌, ◌==◌, if◌then◌else◌,
}
use dropbox_go_grpc_microser.Item.{Item, file}
use dropbox_go_grpc_microser.Native.Display.{Size, format_bytes, unit_of, power_of_ten}
use dropbox_go_grpc_microser.Native.Display.Rounding.{IsNear, format_bytes-IsNear}
use dropbox_go_grpc_microser.Native.Sheet
use dropbox_go_grpc_microser.Native.Sheet.{Sheet, show_notice, fire}
use dropbox_go_grpc_microser.Native.Sheet.Notices
use dropbox_go_grpc_microser.Native.Sheet.Notices.{notice-ends}

-- 1,536 bytes are 1.5 KB.
abbrev printed : Size
printed = record { number = 15; digits = 1; exponent = 1 }

format_bytes-IsNear_example :
    IsNear
      (printed.number * unit_of printed.exponent)
      (power_of_ten printed.digits * 1536)
      (unit_of printed.exponent)
    × (unit_of printed.exponent ≤ 1536)
    × ((1536 < 1024 * unit_of printed.exponent) ⊎ (printed.exponent ≡ 4))
    × (((printed.digits ≡ 1) × (1 ≤ printed.exponent) × (1536 < 100 * unit_of printed.exponent))
        ⊎ ((printed.digits ≡ 0)
            × ((printed.exponent ≡ 0) ⊎ (100 * unit_of printed.exponent ≤ 1536))))
unfolding format_bytes unit_of
format_bytes-IsNear_example = format_bytes-IsNear 1535

-- A note is shown while another one is.
abbrev noted : Sheet
noted = show_notice "second" (show_notice "first" Sheet.init)

notice-ends_example :
    (t : ℕ) × (noted.timers ≡ t ∷ [])
    × ((fire t noted).notice ≡ none)
    × ((k : ℕ) → (fire k noted).notice ≡ (if k == t then none else some "second"))
unfolding show_notice
notice-ends_example =
    notice-ends {s = noted} "second"
      (Notices.next (Notices.next Notices.here (Notices.shows "first" Sheet.init))
        (Notices.shows "second" (show_notice "first" Sheet.init)))
      refl

abbrev note : Item
note = record {
  item_type = "file";
  item_id = "n";
  folder_id = "r";
  details = file (record { file_id = "n"; filename = "n.txt" });
}
