-- ===== src/Web/Trash/Reports.antt =====
-- Which items are deleted for good, and which failures are reported.
use dropbox_go_grpc_microser.Prelude.{
  ◌≡◌, ◌↔◌, refl, Bool, true, false, not, List, [], ◌∷◌, ◌++◌, arith, All, map, keep, length,
  length-map, length-append, Bool-cases, inl, inr, ap, sym, ◌∙◌, String,
}
use dropbox_go_grpc_microser.Web.Trash.{
  DeletedItem, is_file, fails, Outcome, Call, call_of, targets_of, selected_items,
  permanently_delete_selected,
}

module _ (p : DeletedItem → Bool) where
  length-partition :
      (xs : List DeletedItem) → length (keep p xs ++ keep (λ x. not (p x)) xs) ≡ length xs
  length-partition [] = refl
  length-partition (x ∷ xs) = ground (
    arith,
    length-partition xs,
    length-append (keep p xs) (keep (λ x. not (p x)) xs),
    length-append (keep p xs) (x ∷ keep (λ x. not (p x)) xs),
  )

  -- A Boolean property of all items is one of those that pass a test and of those that do not.
  module _ (q : DeletedItem → Bool) where
    abbrev AllFalse : List DeletedItem → Type 0
    AllFalse xs = All (λ x. q x ≡ false) xs

    AllFalse-append : (xs ys : List DeletedItem) → AllFalse (xs ++ ys) ↔ (AllFalse xs × AllFalse ys)
    AllFalse-append [] ys = ((λ h. (tt, h)), (λ h. h.1))
    AllFalse-append (x ∷ xs) ys = (
      (λ h. let (a, b) = (AllFalse-append xs ys).0 h.1 in ((h.0, a), b)),
      (λ h. (h.0.0, (AllFalse-append xs ys).1 (h.0.1, h.1))),
    )

    AllFalse-keep :
        (xs : List DeletedItem)
        → (AllFalse (keep p xs) × AllFalse (keep (λ x. not (p x)) xs)) ↔ AllFalse xs
    AllFalse-keep [] = ((λ h. tt), (λ h. (tt, tt)))
    AllFalse-keep (x ∷ xs) = elim (Bool-cases (p x)) [
      | inl yes_p ↦
          rw (keep, yes_p)
            (
              (λ h. (h.0.0, (AllFalse-keep xs).0 (h.0.1, h.1))),
              (λ h. let (a, b) = (AllFalse-keep xs).1 h.1 in ((h.0, a), b)),
            )
      | inr no_p ↦
          rw (keep, no_p)
            (
              (λ h. (h.1.0, (AllFalse-keep xs).0 (h.0, h.1.1))),
              (λ h. let (a, b) = (AllFalse-keep xs).1 h.1 in (a, (h.0, b))),
            )
    ]

keep-nil :
    (q : DeletedItem → Bool) (xs : List DeletedItem)
    → (map (λ x. x.name) (keep q xs) ≡ []) ↔ All (λ x. q x ≡ false) xs
keep-nil q [] = ((λ h. tt), (λ h. refl))
keep-nil q (x ∷ xs) = elim (Bool-cases (q x)) [
  | inl bad ↦ ((λ h. absurd (ground arith)), (λ h. absurd (ground arith)))
  | inr fine ↦ rw (keep, fine) ((λ h. (refl, (keep-nil q xs).0 h)), (λ h. (keep-nil q xs).1 h.1))
]

-- A confirmed deletion for good sends one call for each selected item, whatever the others come to, and
-- ends the selection; the user is told of nothing exactly if every file was deleted and every folder
-- with all of its files.
pub permanently_delete_selected-reports :
    {E : Type 0} (answer : Call → Outcome E) (items : List DeletedItem) (keys : List String)
    → (length (permanently_delete_selected answer true items keys).calls
        ≡ length (selected_items items keys))
      × (((permanently_delete_selected answer true items keys).alert ≡ [])
          ↔ All (λ item. fails (answer (call_of item)) ≡ false) (selected_items items keys))
unfolding permanently_delete_selected
permanently_delete_selected-reports answer items keys =
    let selected = selected_items items keys in
    let bad : DeletedItem → Bool = λ item. fails (answer (call_of item)) in
    let sent : (permanently_delete_selected answer true items keys).calls
        ≡ map call_of (targets_of selected) =
      ground arith in
    let told : (permanently_delete_selected answer true items keys).alert
        ≡ map (λ item. item.name) (keep bad (targets_of selected)) =
      ground arith in
    (
      ap length sent ∙ length-map call_of (targets_of selected) ∙ length-partition is_file selected,
      (
        (λ quiet. (AllFalse-keep is_file bad selected).0 (
            (AllFalse-append is_file bad (keep is_file selected) _).0
              ((keep-nil bad (targets_of selected)).0 (sym told ∙ quiet)))),
        (λ fine.
            told
            ∙ (keep-nil bad (targets_of selected)).1 (
                (AllFalse-append is_file bad (keep is_file selected) _).1
                  ((AllFalse-keep is_file bad selected).1 fine))),
      ),
    )
