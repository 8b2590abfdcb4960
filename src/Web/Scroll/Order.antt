-- ===== src/Web/Scroll/Order.antt =====
-- What is listed, and that it grows.
use mathlib.Core.Path.{subst}
use dropbox_go_grpc_microser.Prelude.{
  ℕ, suc, String, ◌≡◌, ◌⊎◌, inl, inr, refl, Bool, true, Option, none, some, List, [], ◌∷◌, ◌++◌,
  arith, append-nil, append_assoc, Option-cases, sym, length, ◌≤◌, length-append,
}
use dropbox_go_grpc_microser.Exec.{Reply, ok}
use dropbox_go_grpc_microser.Item.{Item}
use dropbox_go_grpc_microser.Paging.{ItemsPage, items_of, next_page_param, Serves, last, more}
use dropbox_go_grpc_microser.Web.Scroll.{Scroll, mount, commit, intersect, answer, arrived}

items_of-append : (ps qs : List ItemsPage) → items_of (ps ++ qs) ≡ items_of ps ++ items_of qs
items_of-append [] qs = refl
items_of-append (p ∷ ps) qs =
    ground (arith, items_of-append ps qs, append_assoc p.items (items_of ps) (items_of qs))

module _ {E : Type 0} (list : String → Reply E ItemsPage) where
  -- Renderings, calls of the observer and answers, in any order.
  pub data Step : Scroll E → Scroll E → Type 0 where
    commits : (s : Scroll E) → Step s (commit s)
    intersects : (is_intersecting : Bool) (s : Scroll E) → Step s (intersect is_intersecting s)
    answers : (s : Scroll E) → Step s (answer list s)

  pub data Reach : Scroll E → Type 0 where
    here : Reach mount
    next : {s t : Scroll E} → Reach s → Step s t → Reach t

  -- What is still to come: from the next token on, the rest of the listing.
  pub data Rest : Option String → List Item → Type 0 where
    done : Rest none []
    from :
        {token : String} {pages : ℕ} {items : List Item}
        → Serves list token pages items
        → Rest (some token) items

  pub record IsInOrder (items : List Item) (s : Scroll E) : Type 0 where
    pub rest : List Item
    pub split : items_of s.pages ++ rest ≡ items
    pub follows : Rest s.next rest
    pub awaited : (s.fetching ≡ none) ⊎ (s.fetching ≡ s.next)

  -- What leaves the pages and the next token as they are, and awaits nothing new.
  carry :
      {items : List Item} {s t : Scroll E}
      → t.pages ≡ s.pages
      → t.next ≡ s.next
      → (t.fetching ≡ s.fetching) ⊎ (t.fetching ≡ s.next)
      → IsInOrder items s
      → IsInOrder items t
  carry {s = s} {t = t} same_pages same_next fetches o = record {
    rest = o.rest;
    split = ground (arith, o.split, same_pages);
    follows = subst (λ n. Rest n o.rest) (sym same_next) o.follows;
    awaited = ground (arith, o.awaited, fetches, same_next);
  }

  commit-IsInOrder :
      {items : List Item} (s : Scroll E) → IsInOrder items s → IsInOrder items (commit s)
  unfolding commit
  commit-IsInOrder s o = carry (ground arith) (ground arith) (ground arith) o

  intersect-IsInOrder :
      {items : List Item} (near : Bool) (s : Scroll E)
      → IsInOrder items s
      → IsInOrder items (intersect near s)
  unfolding intersect
  intersect-IsInOrder near s o = carry (ground arith) (ground arith) (ground arith) o

  -- The page of the next token is the first of the rest.
  Rest-answer :
      {next : Option String} {token : String} {rest : List Item}
      → Rest next rest
      → next ≡ some token
      → (page : ItemsPage) × (after : List Item) × (list token ≡ ok page)
        × (page.items ++ after ≡ rest)
        × Rest (next_page_param page.next_page_token) after
  unfolding next_page_param
  Rest-answer done e = cc
  Rest-answer (from (last t items answered)) e =
      (record { items = items; next_page_token = "" }, [], ground arith, append-nil items, done)
  Rest-answer (from (more t nx pages items rest answered named s)) e =
      let onward : next_page_param nx ≡ some nx = ground arith in
      (
        record { items = items; next_page_token = nx },
        rest,
        ground arith,
        refl,
        subst (λ n. Rest n rest) (sym onward) (from s),
      )

  answer-IsInOrder :
      {items : List Item} (s : Scroll E) → IsInOrder items s → IsInOrder items (answer list s)
  unfolding answer
  answer-IsInOrder s o = elim (Option-cases s.fetching) [
    | inl idle ↦ carry (ground arith) (ground arith) (ground arith) o
    | inr (token, runs) ↦
        let awaits : s.next ≡ some token = ground (arith, o.awaited) in
        let (page, after, answered, first, onward) = Rest-answer o.follows awaits in
        let comes : answer list s ≡ arrived (ok page) s = ground arith in
        subst (IsInOrder _) (sym comes) (record {
          rest = after;
          split = ground (
            arith,
            o.split,
            first,
            items_of-append s.pages (page ∷ []),
            append-nil page.items,
            append_assoc (items_of s.pages) page.items after,
          );
          follows = onward;
          awaited = inl refl;
        })
  ]

  Reach-IsInOrder :
      {n : ℕ} {items : List Item} {s : Scroll E}
      → Serves list "" n items
      → Reach s
      → IsInOrder items s
  Reach-IsInOrder v here = record { rest = _; split = refl; follows = from v; awaited = inr refl }
  Reach-IsInOrder v (next r (commits s)) = commit-IsInOrder s (Reach-IsInOrder v r)
  Reach-IsInOrder v (next r (intersects near s)) = intersect-IsInOrder near s (Reach-IsInOrder v r)
  Reach-IsInOrder v (next r (answers s)) = answer-IsInOrder s (Reach-IsInOrder v r)

  Rest-none : {next : Option String} {rest : List Item} → Rest next rest → next ≡ none → rest ≡ []
  Rest-none done e = refl
  Rest-none (from v) e = cc

  grows :
      (s : Scroll E) (page : ItemsPage) (token : String)
      → s.fetching ≡ none
      → 1 ≤ length s.pages
      → s.next ≡ some token
      → list token ≡ ok page
      → length (answer list (intersect true (commit s))).pages ≡ suc (length s.pages)
  unfolding commit intersect answer
  grows s page token idle some_pages goes_on answered =
      ground (arith, length-append s.pages (page ∷ []))

  -- However renderings, calls of the observer and answers follow each other, what is listed is a beginning
  -- of the service's listing, with no item left out or listed twice; and where no page is awaited it is
  -- the whole listing, or the next rendering with the sentinel in view brings one more page.
  pub Reach-grows :
      {n : ℕ} {items : List Item} {s : Scroll E}
      → Serves list "" n items
      → Reach s
      → s.fetching ≡ none
      → 1 ≤ length s.pages
      → (rest : List Item) × (items_of s.pages ++ rest ≡ items)
        × ((rest ≡ [])
            ⊎ (length (answer list (intersect true (commit s))).pages ≡ suc (length s.pages)))
  Reach-grows {s = s} v r idle some_pages =
      let o = Reach-IsInOrder v r in
      (
        o.rest,
        o.split,
        elim (Option-cases s.next) [
          | inl ends ↦ inl (Rest-none o.follows ends)
          | inr (token, goes_on) ↦
              let (page, after, answered, first, onward) = Rest-answer o.follows goes_on in
              inr (grows s page token idle some_pages goes_on answered)
        ],
      )
