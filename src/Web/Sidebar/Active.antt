-- ===== src/Web/Sidebar/Active.antt =====
-- What is marked.
use Prim.Native.Char.{code}
use Prim.Native.String
use text.Mathlib.TextLemmas.{nil-append, cons-append}
use dropbox_go_grpc_microser.Prelude.{
  ℕ, ◌≤◌, String, ◌≡◌, ◌≢◌, refl, truthy, Option, none, some, ap, sym, ◌∙◌, false, List, [], ◌∷◌,
  arith, length, str_eq, eq_iff, ◌⊎◌, ◌++◌, Bool-cases, inl, inr,
}
use mathlib.Core.Path.{subst}
use dropbox_go_grpc_microser.Exec.{Reply, ok, err}
use dropbox_go_grpc_microser.Text.{codes}
use dropbox_go_grpc_microser.Web.UrlPreview.{in_folder}
use dropbox_go_grpc_microser.Web.Sidebar.{
  is_item_active, marked, dashboard_navigation_items, files_index_page,
}

one_of : (p a b : String) → str_eq a b ≡ false → (str_eq p a ≡ false) ⊎ (str_eq p b ≡ false)
one_of p a b differ = elim (Bool-cases (str_eq p a)) [
  | inl is_a ↦ inr (ground (arith, (eq_iff p a).0 is_a))
  | inr not_a ↦ inl not_a
]

codes-append : (s t : String) → codes (String.◌++◌ s t) ≡ codes s ++ codes t
unfolding codes
codes-append String.[] t = ap codes (nil-append t)
codes-append (String.◌∷◌ c s) t =
    ap codes (cons-append c s t) ∙ ap (λ r. code c ∷ r) (codes-append s t)

not_url :
    (url folder_id : String)
    → ((rest : List ℕ) → codes "/files/" ++ rest ≢ codes url)
    → str_eq (in_folder folder_id "") url ≡ false
not_url url folder_id differ = elim (Bool-cases (str_eq (in_folder folder_id "") url)) [
  | inr other ↦ other
  | inl same ↦
      let e = (eq_iff (in_folder folder_id "") url).0 same in
      let folder = String.◌++◌ folder_id "" in
      absurd (differ (codes folder) (sym (codes-append "/files/" folder) ∙ ap codes e))
]

marked-in_folder :
    (folder_id : String) → marked (in_folder folder_id "") dashboard_navigation_items ≡ []
unfolding is_item_active codes
marked-in_folder folder_id =
    let g = not_url "/home" folder_id (λ rest h. ground arith) in
    let h = not_url "/files" folder_id (λ rest h. ground arith) in
    let i = not_url "/shared-files" folder_id (λ rest h. ground arith) in
    let j = not_url "/deleted-files" folder_id (λ rest h. ground arith) in ground arith

-- No address marks more than one entry of the dashboard.
pub marked-one : (pathname : String) → length (marked pathname dashboard_navigation_items) ≤ 1
unfolding is_item_active
marked-one pathname =
    let a = one_of pathname "/home" "/files" refl in
    let b = one_of pathname "/home" "/shared-files" refl in
    let c = one_of pathname "/home" "/deleted-files" refl in
    let d = one_of pathname "/files" "/shared-files" refl in
    let e = one_of pathname "/files" "/deleted-files" refl in
    let f = one_of pathname "/shared-files" "/deleted-files" refl in ground arith

-- The entry "All files" leads to an address at which no entry of the dashboard is marked, that one as
-- little as another: its own address redirects to that of the root folder.
pub marked-files_index_page :
    {E : Type 0} (no_root : E) (answer : Reply E (Option String)) (path : String)
    → files_index_page no_root answer ≡ ok path
    → marked path dashboard_navigation_items ≡ []
unfolding files_index_page
marked-files_index_page no_root (err e) path h = cc
marked-files_index_page no_root (ok none) path h = cc
marked-files_index_page no_root (ok (some id)) path h = elim (Bool-cases (truthy id)) [
  | inl named ↦
      let there : path ≡ in_folder id "" = ground arith in
      subst (λ p. marked p dashboard_navigation_items ≡ []) (sym there) (marked-in_folder id)
  | inr empty ↦ absurd (ground arith)
]
