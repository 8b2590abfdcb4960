-- ===== src/Web/Batches/Ids.antt =====
-- The ids that `useThumbnailUrls` asks for, and in native/src/modules/files/api/use-files.ts
-- `useFolderLabels` too: `Array.from(new Set(fileIds.filter(Boolean))).sort()`. A `Set` keeps the first of
-- equal texts; `sort` compares code units, and is an insertion sort here: texts that are different have
-- one order only.
pub mod Order
pub mod Canonical
use dropbox_go_grpc_microser.Prelude.{
  ℕ, String, Bool, true, false, not, List, [], ◌∷◌, any, keep, ltb, ◌==◌, str_eq, truthy,
  if◌then◌else◌,
}
use dropbox_go_grpc_microser.Text.{codes}

-- Whether a text comes before another one.
unfoldable pub comes_before : List ℕ → List ℕ → Bool
comes_before [] [] = false
comes_before [] (d ∷ t) = true
comes_before (c ∷ s) [] = false
comes_before (c ∷ s) (d ∷ t) = let rest = comes_before s t in if c == d then rest else ltb c d

abbrev pub before : String → String → Bool
before a b = comes_before (codes a) (codes b)

abbrev pub has : String → List String → Bool
has id ids = any (λ k. str_eq k id) ids

-- `new Set`, of the texts from an index on, with those that came before it.
unfoldable pub unique_from : List String → List String → List String
unique_from seen [] = []
unique_from seen (id ∷ ids) =
    let known = unique_from seen ids in
    let rest = unique_from (id ∷ seen) ids in if has id seen then known else id ∷ rest

unfoldable pub sort_in : String → List String → List String
sort_in id [] = id ∷ []
sort_in id (k ∷ ids) = let rest = sort_in id ids in if before k id then k ∷ rest else id ∷ k ∷ ids

unfoldable pub sort : List String → List String
sort [] = []
sort (id ∷ ids) = sort_in id (sort ids)

-- `ids` of the hook.
unfoldable pub ids_of : List String → List String
unfolding unique_from sort sort_in
ids_of file_ids = sort (unique_from [] (keep truthy file_ids))
