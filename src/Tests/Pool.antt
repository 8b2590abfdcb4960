-- ===== src/Tests/Pool.antt =====
-- A pool of two workers over three tasks, and the ids of a query, on concrete inputs.
use dropbox_go_grpc_microser.Prelude.{
  ℕ, String, ◌≡◌, ◌⊎◌, ◌&&◌, refl, none, some, List, [], ◌∷◌, arith, get_elem?, truthy,
}
use dropbox_go_grpc_microser.Exec.{Reply, ok, err}
use dropbox_go_grpc_microser.Web.Save.{values, settle}
use dropbox_go_grpc_microser.Web.Workers.{Pool, start, advance, resolve, reject}
use dropbox_go_grpc_microser.Web.Workers.Settled
use dropbox_go_grpc_microser.Web.Workers.Settled.{Reach, go_on, resolves, rejects, Reach-settle}
use dropbox_go_grpc_microser.Web.Workers.Ends.{Ends, Reach-Ends}
use dropbox_go_grpc_microser.Web.Batches.Ids.{has, ids_of}
use dropbox_go_grpc_microser.Web.Batches.Ids.Canonical.{IsAscending, ids_of-eq}

-- The second task fails.
abbrev replies : List (Reply String ℕ)
replies = ok 7 ∷ err "down" ∷ ok 9 ∷ []

abbrev begun : Pool String
begun = advance 3 (advance 3 (start 2 3))

abbrev both_run : Reach replies 2 begun
both_run =
    Settled.next (Settled.next Settled.here (go_on (start 2 3))) (go_on (advance 3 (start 2 3)))

abbrev ended : Pool String
ended = advance 3 (resolve 0 (reject 1 "down" begun))

abbrev ends : Reach replies 2 ended
ends =
    Settled.next
      (Settled.next (Settled.next both_run (rejects 1 "down" begun refl))
        (resolves 0 7 (reject 1 "down" begun) refl))
      (go_on (resolve 0 (reject 1 "down" begun)))

Reach-settle_example :
    ((ended.failure ≡ none) × (settle (λ e es. e) replies ≡ ok (values replies)))
    ⊎ ((e : String) × (i : ℕ) × (ended.failure ≡ some e)
        × (get_elem? replies i ≡ some (err e))
        × (settle (λ x xs. e) replies ≡ err e))
unfolding advance resolve reject start
Reach-settle_example = Reach-settle replies 2 (λ e es. e) ends (omega arith) refl refl

Reach-Ends_example : Ends replies 2 begun
Reach-Ends_example = Reach-Ends replies 2 begun both_run

-- The same ids, in another order, one of them twice, and one that is empty.
abbrev shown_first : List String
shown_first = "b" ∷ "" ∷ "a" ∷ []

abbrev shown_then : List String
shown_then = "a" ∷ "b" ∷ "" ∷ "b" ∷ []

same_ids : (id : String) → has id shown_first ≡ has id shown_then
same_ids id = ground arith

ids_of-eq_example :
    (ids_of shown_first ≡ ids_of shown_then)
    × IsAscending (ids_of shown_first)
    × ((id : String) → has id (ids_of shown_first) ≡ (truthy id && has id shown_first))
ids_of-eq_example = ids_of-eq shown_first shown_then same_ids
