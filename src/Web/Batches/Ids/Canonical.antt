-- ===== src/Web/Batches/Ids/Canonical.antt =====
-- The ids of a query as a list, by which of them there are.
use mathlib.Core.Path.{ap₂, subst}
use dropbox_go_grpc_microser.Prelude.{
  String, ◌≡◌, ◌≢◌, ◌⊎◌, inl, inr, refl, sym, ◌∙◌, true, false, not, ◌&&◌, ◌||◌, List, [], ◌∷◌,
  arith, keep, str_eq, eq_iff, eq_refl, truthy, All, Bool-cases,
}
use dropbox_go_grpc_microser.Text.{codes}
use dropbox_go_grpc_microser.Web.Batches.Ids.Order.{
  comes_before_irrefl, comes_before_trans, before_total,
}
use dropbox_go_grpc_microser.Web.Batches.Ids.{before, has, unique_from, sort_in, sort, ids_of}

-- Each text comes before those after it.
abbrev pub IsAscending : List String → Type 0
IsAscending [] = Unit
IsAscending (id ∷ ids) = All (λ k. before id k ≡ true) ids × IsAscending ids

All-sort_in :
    (id a : String) (ids : List String)
    → before a id ≡ true
    → All (λ k. before a k ≡ true) ids
    → All (λ k. before a k ≡ true) (sort_in id ids)
unfolding sort_in
All-sort_in id a [] p q = (p, tt)
All-sort_in id a (k ∷ ids) p (first, q) = elim (Bool-cases (before k id)) [
  | inl comes ↦ rw comes (first, All-sort_in id a ids p q)
  | inr goes ↦ rw goes (p, (first, q))
]

All_trans :
    (a b : String) (ids : List String)
    → before a b ≡ true
    → All (λ k. before b k ≡ true) ids
    → All (λ k. before a k ≡ true) ids
All_trans a b [] p q = tt
All_trans a b (k ∷ ids) p (first, q) =
    (comes_before_trans (codes a) (codes b) (codes k) p first, All_trans a b ids p q)

sort_in-IsAscending :
    (id : String) (ids : List String)
    → has id ids ≡ false
    → IsAscending ids
    → IsAscending (sort_in id ids)
unfolding sort_in
sort_in-IsAscending id [] new up = (tt, tt)
sort_in-IsAscending id (k ∷ ids) new (above, up) = elim (Bool-cases (before k id)) [
  | inl comes ↦
      let rest = sort_in-IsAscending id ids (ground arith) up in
      rw comes (All-sort_in id k ids comes above, rest)
  | inr goes ↦
      let other : k ≢ id = λ e. ground (arith, eq_iff k id) in
      let ahead = before_total k id other goes in
      rw goes ((ahead, All_trans id k ids ahead above), (above, up))
]

has-sort_in :
    (a id : String) (ids : List String) → has a (sort_in id ids) ≡ (str_eq id a || has a ids)
unfolding sort_in
has-sort_in a id [] = ground arith
has-sort_in a id (k ∷ ids) = ground (arith, has-sort_in a id ids)

has-sort : (a : String) (ids : List String) → has a (sort ids) ≡ has a ids
unfolding sort
has-sort a [] = refl
has-sort a (id ∷ ids) = ground (arith, has-sort a ids, has-sort_in a id (sort ids))

-- No text stands twice.
abbrev IsUnique : List String → Type 0
IsUnique [] = Unit
IsUnique (id ∷ ids) = (has id ids ≡ false) × IsUnique ids

sort-IsAscending : (ids : List String) → IsUnique ids → IsAscending (sort ids)
unfolding sort
sort-IsAscending [] once = tt
sort-IsAscending (id ∷ ids) (new, once) =
    sort_in-IsAscending id (sort ids) (has-sort id ids ∙ new) (sort-IsAscending ids once)

has-unique_from :
    (a : String) (seen ids : List String)
    → has a (unique_from seen ids) ≡ (not (has a seen) && has a ids)
unfolding unique_from
has-unique_from a seen [] = ground arith
has-unique_from a seen (id ∷ ids) = elim (Bool-cases (str_eq id a)) [
  | inl same ↦
      let e : id ≡ a = (eq_iff id a).0 same in
      ground (arith, e, has-unique_from a seen ids, has-unique_from a (id ∷ seen) ids)
  | inr other ↦ ground (arith, has-unique_from a seen ids, has-unique_from a (id ∷ seen) ids)
]

unique_from-IsUnique : (seen ids : List String) → IsUnique (unique_from seen ids)
unfolding unique_from
unique_from-IsUnique seen [] = tt
unique_from-IsUnique seen (id ∷ ids) = elim (Bool-cases (has id seen)) [
  | inl known ↦ rw known (unique_from-IsUnique seen ids)
  | inr new ↦ rw new (
    ground (arith, has-unique_from id (id ∷ seen) ids, eq_refl id),
    unique_from-IsUnique (id ∷ seen) ids,
  )
]

has-keep : (a : String) (ids : List String) → has a (keep truthy ids) ≡ (truthy a && has a ids)
has-keep a [] = ground arith
has-keep a (id ∷ ids) = ground (arith, has-keep a ids, eq_iff id a)

absent : (id : String) (ids : List String) → All (λ k. before id k ≡ true) ids → has id ids ≡ false
absent id [] above = refl
absent id (k ∷ ids) (first, above) = elim (Bool-cases (str_eq k id)) [
  | inl same ↦
      let e : k ≡ id = (eq_iff k id).0 same in
      let own : before id id ≡ true = subst (λ x. before id x ≡ true) e first in
      absurd (ground (arith, comes_before_irrefl (codes id)))
  | inr other ↦ ground (arith, absent id ids above)
]

-- What is in an ascending list is its first text, or comes after it.
first_or_after :
    (id k : String) (ids : List String)
    → All (λ x. before k x ≡ true) ids
    → has id (k ∷ ids) ≡ true
    → (k ≡ id) ⊎ (before k id ≡ true)
first_or_after id k [] above h = inl ((eq_iff k id).0 (ground arith))
first_or_after id k (x ∷ ids) (first, above) h = elim (Bool-cases (str_eq k id)) [
  | inl same ↦ inl ((eq_iff k id).0 same)
  | inr other ↦ elim (Bool-cases (str_eq x id)) [
    | inl same ↦ inr (subst (λ y. before k y ≡ true) ((eq_iff x id).0 same) first)
    | inr different ↦ first_or_after id k ids above (ground arith)
  ]
]

first-eq :
    (a b : String) (xs ys : List String)
    → All (λ x. before a x ≡ true) xs
    → All (λ y. before b y ≡ true) ys
    → ((id : String) → has id (a ∷ xs) ≡ has id (b ∷ ys))
    → a ≡ b
first-eq a b xs ys above_a above_b same =
    elim (first_or_after a b ys above_b (ground (arith, same a, eq_refl a))) [
      | inl e ↦ sym e
      | inr b_first ↦ elim (first_or_after b a xs above_a (ground (arith, same b, eq_refl b))) [
        | inl e ↦ e
        | inr a_first ↦
            let loop = comes_before_trans (codes a) (codes b) (codes a) a_first b_first in
            absurd (ground (arith, comes_before_irrefl (codes a)))
      ]
    ]

-- Ascending lists of the same texts are one list.
IsAscending-eq :
    (xs ys : List String)
    → IsAscending xs
    → IsAscending ys
    → ((id : String) → has id xs ≡ has id ys)
    → xs ≡ ys
IsAscending-eq [] [] p q same = refl
IsAscending-eq [] (b ∷ ys) p q same = absurd (ground (arith, same b, eq_refl b))
IsAscending-eq (a ∷ xs) [] p q same = absurd (ground (arith, same a, eq_refl a))
IsAscending-eq (a ∷ xs) (b ∷ ys) (above_a, p) (above_b, q) same =
    let heads = first-eq a b xs ys above_a above_b same in
    ap₂ ◌∷◌ heads (
      IsAscending-eq xs ys p q (λ id. elim (Bool-cases (str_eq a id)) [
        | inl here ↦
            let gone : has a ys ≡ false =
              subst (λ k. has k ys ≡ false) (sym heads) (absent b ys above_b) in
            subst (λ k. has k xs ≡ has k ys) ((eq_iff a id).0 here) (absent a xs above_a ∙ sym gone)
        | inr other ↦
            let other_b : str_eq b id ≡ false = subst (λ k. str_eq k id ≡ false) heads other in
            ground (arith, same id)
      ]))

pub has-ids_of : (id : String) (ids : List String) → has id (ids_of ids) ≡ (truthy id && has id ids)
unfolding ids_of
has-ids_of id ids = ground (
  arith,
  has-sort id (unique_from [] (keep truthy ids)),
  has-unique_from id [] (keep truthy ids),
  has-keep id ids,
)

pub ids_of-IsAscending : (ids : List String) → IsAscending (ids_of ids)
unfolding ids_of
ids_of-IsAscending ids =
    sort-IsAscending (unique_from [] (keep truthy ids)) (unique_from-IsUnique [] (keep truthy ids))

-- Two lists in which the same ids stand, in whatever order and however often, have one query: the ids that
-- it asks for, which are its key, are the same; they are the ids that are not empty, each once, ascending.
pub ids_of-eq :
    (xs ys : List String)
    → ((id : String) → has id xs ≡ has id ys)
    → (ids_of xs ≡ ids_of ys)
      × IsAscending (ids_of xs)
      × ((id : String) → has id (ids_of xs) ≡ (truthy id && has id xs))
ids_of-eq xs ys same = (
  IsAscending-eq (ids_of xs) (ids_of ys) (ids_of-IsAscending xs) (ids_of-IsAscending ys)
      (λ id. ground (arith, same id, has-ids_of id xs, has-ids_of id ys)),
  ids_of-IsAscending xs,
  λ id. has-ids_of id xs,
)
