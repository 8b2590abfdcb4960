-- ===== src/Web/Scroll.antt =====
-- The listing that grows as it is scrolled: web/src/modules/files/components/infinite-scroll-sentinel.tsx
-- over the infinite query of `useFolderItems` of web/src/modules/files/api/use-files.ts. The sentinel's
-- observer keeps the `isFetchingNextPage` of the rendering that made it. A fetch that is asked for while
-- one runs replaces it.
pub mod Order
use dropbox_go_grpc_microser.Prelude.{
  ℕ, suc, String, Bool, true, false, not, ◌&&◌, Option, none, some, List, [], ◌∷◌, ◌++◌,
  if◌then◌else◌,
}
use dropbox_go_grpc_microser.Exec.{Reply, ok, err}
use dropbox_go_grpc_microser.Paging.{ItemsPage, next_page_param}

pub record Scroll (E : Type 0) : Type 0 where
  pub pages : List ItemsPage
  -- The token of the next page, if there is one.
  pub next : Option String
  -- The token whose page is awaited.
  pub fetching : Option String
  -- The observer, with what it keeps.
  pub observer : Option Bool
  pub error : Option E
  pub calls : ℕ

-- The query is mounted, and its first page awaited.
abbrev pub mount : {E : Type 0} → Scroll E
mount = record {
  pages = [];
  next = some "";
  fetching = some "";
  observer = none;
  error = none;
  calls = 0;
}

abbrev pub is_some : Option String → Bool
is_some none = false
is_some (some token) = true

-- `hasNextPage`, which holds of no query without a page.
abbrev pub has_next_page : {E : Type 0} → Scroll E → Bool
has_next_page s = elim s.pages [ [] ↦ false | page ∷ pages ↦ is_some s.next ]

-- A rendering, and the sentinel's effect.
unfoldable pub commit : {E : Type 0} → Scroll E → Scroll E
commit s =
    if has_next_page s
    then record s { observer = some (is_some s.fetching) }
    else record s { observer = none }

-- fetchNextPage
abbrev pub fetch_next_page : {E : Type 0} → Scroll E → Scroll E
fetch_next_page s = record s { fetching = s.next; calls = suc s.calls }

-- The observer is called, with whether the sentinel is near the viewport.
unfoldable pub intersect : {E : Type 0} → Bool → Scroll E → Scroll E
intersect is_intersecting s = elim s.observer [
  | none ↦ s
  | some was_fetching ↦ if is_intersecting && not was_fetching then fetch_next_page s else s
]

abbrev pub arrived : {E : Type 0} → Reply E ItemsPage → Scroll E → Scroll E
arrived (err e) s = record s { fetching = none; error = some e }
arrived (ok page) s = record s {
  pages = s.pages ++ page ∷ [];
  next = next_page_param page.next_page_token;
  fetching = none;
}

-- The service answers the fetch that runs.
unfoldable pub answer : {E : Type 0} → (String → Reply E ItemsPage) → Scroll E → Scroll E
unfolding next_page_param
answer list s = elim s.fetching [ none ↦ s | some token ↦ arrived (list token) s ]
