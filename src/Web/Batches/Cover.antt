-- ===== src/Web/Batches/Cover.antt =====
-- How the batches cover the ids.
use dropbox_go_grpc_microser.Prelude.{
  ℕ, zero, suc, ◌+◌, ◌-◌, ◌≤◌, ◌<◌, String, ◌≡◌, refl, ap, sym, ◌∙◌, some, List, [], ◌∷◌, ◌++◌,
  arith, All, length, take, drop, ltb, Bool-cases, inl, inr, length-drop, length-take,
  take-append-drop,
}
use dropbox_go_grpc_microser.Web.Blocks.Cover.{drop-drop}
use dropbox_go_grpc_microser.Web.Batches.{thumbnail_url_batch_size, batches_from, batches}

abbrev pub concat : List (List String) → List String
concat [] = []
concat (b ∷ bs) = b ++ concat bs

-- What the service takes as one batch.
abbrev pub IsBatch : List String → Type 0
IsBatch b = (0 < length b) × (length b ≤ thumbnail_url_batch_size)

drop-length_le : (i : ℕ) (ids : List String) → length ids ≤ i → drop i ids ≡ []
drop-length_le zero [] h = refl
drop-length_le (suc i) [] h = refl
drop-length_le zero (x ∷ ids) h = absurd (ground arith)
drop-length_le (suc i) (x ∷ ids) h = drop-length_le i ids (ground arith)

batches_from-cover :
    (fuel : ℕ) (ids : List String) (i : ℕ)
    → length ids - i < fuel
    → (bs : List (List String)) × (batches_from fuel ids i ≡ some bs)
      × (concat bs ≡ drop i ids)
      × All IsBatch bs
unfolding batches_from
batches_from-cover zero ids i h = absurd (omega arith)
batches_from-cover (suc fuel) ids i h = elim (Bool-cases (ltb i (length ids))) [
  | inr done ↦ ([], rw done, sym (drop-length_le i ids (ground arith)), tt)
  | inl more ↦
      let (bs, made, joined, sized) = batches_from-cover fuel ids (i + 100) (ground arith) in
      let whole : i + 100 - i ≡ 100 = omega arith in
      (
        take (i + 100 - i) (drop i ids) ∷ bs,
        rw (more, made),
        rw whole (
            ap (λ r. take 100 (drop i ids) ++ r) (joined ∙ drop-drop i 100 ids)
            ∙ take-append-drop 100 (drop i ids)),
        (ground (arith, length-take (i + 100 - i) (drop i ids), length-drop i ids), sized),
      )
]

-- The loop over the ids ends, the batches joined are the ids, in order, and each batch holds between one
-- id and the hundred that the service takes.
pub batches-cover :
    (ids : List String)
    → (bs : List (List String)) × (batches ids ≡ some bs) × (concat bs ≡ ids) × All IsBatch bs
unfolding batches
batches-cover ids = batches_from-cover (suc (length ids)) ids 0 (omega arith)
