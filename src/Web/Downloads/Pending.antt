-- ===== src/Web/Downloads/Pending.antt =====
-- Which downloads are pending.
use dropbox_go_grpc_microser.Prelude.{
  String, ◌≡◌, refl, true, false, List, [], ◌∷◌, arith, str_eq, eq_iff, Bool-cases, inl, inr,
}
use dropbox_go_grpc_microser.Exec.{Reply}
use dropbox_go_grpc_microser.Web.Grid.{has}
use dropbox_go_grpc_microser.Web.Grid.Selection.{has-add, has-remove}
use dropbox_go_grpc_microser.Web.Downloads.{
  Downloads, init, ask_ticket, answer_ticket, without, is_pending,
}

has-without :
    (k id : String) (ids : List String) → str_eq k id ≡ false → has (without k ids) id ≡ has ids id
has-without k id [] other = refl
has-without k id (j ∷ ids) other =
    ground (arith, has-without k id ids other, eq_iff j k, eq_iff j id, eq_iff k id)

module _ {E : Type 0} where
  pub data Step : Downloads E → Downloads E → Type 0 where
    asks : (id : String) (d : Downloads E) → Step d (ask_ticket id d)
    answers :
        (no_url : E) (ticket : Reply E String) (id filename : String) (d : Downloads E)
        → Step d (answer_ticket no_url ticket id filename d)

  pub data Reach : Downloads E → Type 0 where
    here : Reach init
    next : {c d : Downloads E} → Reach c → Step c d → Reach d

  -- An id that is pending is one of a call that waits.
  abbrev pub IsHonest : Downloads E → Type 0
  IsHonest d = (id : String) → has d.pending_ids id ≡ true → has d.waiting id ≡ true

  ask_ticket-IsHonest : (k : String) (d : Downloads E) → IsHonest d → IsHonest (ask_ticket k d)
  unfolding ask_ticket
  ask_ticket-IsHonest k d h id there = ground (arith, has-add k id d.pending_ids, h id)

  answer_ticket-IsHonest :
      (no_url : E) (ticket : Reply E String) (k filename : String) (d : Downloads E)
      → IsHonest d
      → IsHonest (answer_ticket no_url ticket k filename d)
  unfolding answer_ticket
  answer_ticket-IsHonest no_url ticket k filename d h id there = elim (Bool-cases (str_eq k id)) [
    | inl same ↦ ground (arith, has-remove k id d.pending_ids, h id)
    | inr other ↦
        ground (arith, has-remove k id d.pending_ids, has-without k id d.waiting other, h id)
  ]

  Step-IsHonest : {c d : Downloads E} → Step c d → IsHonest c → IsHonest d
  Step-IsHonest (asks id d) h = ask_ticket-IsHonest id d h
  Step-IsHonest (answers no_url ticket id filename d) h =
      answer_ticket-IsHonest no_url ticket id filename d h

  Reach-IsHonest : {d : Downloads E} → Reach d → IsHonest d
  Reach-IsHonest here = λ id there. there
  Reach-IsHonest (next r st) = Step-IsHonest st (Reach-IsHonest r)

  -- However downloads overlap and fail, a file is shown as pending only while a call for it waits for
  -- its ticket.
  pub is_pending-waits :
      {d : Downloads E} (id : String) → Reach d → is_pending d id ≡ true → has d.waiting id ≡ true
  unfolding is_pending
  is_pending-waits id r shown = Reach-IsHonest r id shown
