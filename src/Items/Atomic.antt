-- ===== src/Items/Atomic.antt =====
-- The failing calls of the changing methods of repositories/item/item.go.
use boilerplate_go_be.Runtime.{panic, exit, ◌>>=◌, pure}
use boilerplate_go_be.Base.{
  ap, ◌∙◌, ℤ, pos, String, true, Option, none, some, ◌≡◌, refl, ◌⊎◌, inl, inr, arith,
}
use boilerplate_go_be.Runtime.{panic, Result-cases, Error, ok, ret, Prog, Outcome}
use boilerplate_go_be.Dto.{Item}
use boilerplate_go_be.Platform.{
  Platform, SqlResult, Statement, insert_name, set_name_where_id, delete_where_id,
}
use boilerplate_go_be.World.{World, log_f}
use boilerplate_go_be.World.Ctx.{Ctx}
use boilerplate_go_be.Database.{with_transaction}
use boilerplate_go_be.Database.Transactions.{tx_ctx, begun, with_transaction-failed}
use boilerplate_go_be.Aggregators.{ItemRepository}
use boilerplate_go_be.Items.Store.{SqlStore}
use boilerplate_go_be.Items.Repo.{create_in_tx, create, change_in_tx, update, delete}
use boilerplate_go_be.Items.Refinement.{
  create_in_tx-ok, change_in_tx-ok, create_in_tx-outside, change_in_tx-outside,
}

pub data Change : Type 0 where
  creating updating : Item → Change
  deleting : ℤ → Change

-- The statement of a change.
abbrev pub statement_of : Change → Statement
statement_of (creating it) = insert_name it.name
statement_of (updating it) = set_name_where_id it.name it.id
statement_of (deleting id) = delete_where_id id

unit_only : (u : Unit {0}) → u ≡ tt
unit_only tt = refl

module _ (P : Platform) (r : ItemRepository) (ctx : Ctx P) where
  -- One call of a changing method, with its error.
  unfoldable pub run_change : Change → Prog (World P) (Option Error)
  run_change (creating it) = do (_, e) ← create P r ctx it; pure e
  run_change (updating it) = update P r ctx it
  run_change (deleting id) = delete P r ctx id

module _ (P : Platform) (c : SqlStore P) (r : ItemRepository) (ctx : Ctx P) (w : World P)
    (open_db : w.db.connected ≡ true) where
  -- In the call's transaction the statement of the change succeeded, and the commit that followed it, in the
  -- state that it left, failed with this very error.
  abbrev pub CommitFailed : Change → Error → Type 0
  CommitFailed ch e =
      (tx : P.Tx) × ((P.begin_tx w.outside).0 ≡ ok tx)
      × (q : P.Query) × (P.to_sql (statement_of ch) ≡ ok q)
      × (res : SqlResult) × ((P.tx_exec tx q (P.begin_tx w.outside).1).0 ≡ ok res)
      × ((P.commit tx (P.tx_exec tx q (P.begin_tx w.outside).1).1).0 ≡ some e)

  -- The table is as before, or the commit of the call's transaction failed with this very error.
  abbrev pub Unchanged : Change → Error → Type 0
  Unchanged ch e =
      (c.table (run_change P r ctx ch w).1.outside ≡ c.table w.outside) ⊎ CommitFailed ch e

  abbrev unit_change : String → P.Query → Outcome (Option Error) × World P
  unit_change what q = (do (_, e) ← with_transaction P tt ctx (change_in_tx P r what q); pure e) w

  -- A transaction that fails, for whatever reason but its commit, leaves the table as it was.
  failed-table :
      {A : Type 0} (a b : A) (fn : Ctx P → Prog (World P) (A × Option Error)) (e : Error)
      → ((tx : P.Tx) (w' : World P)
          → c.table (fn (tx_ctx P ctx tx) w').1.outside ≡ c.table w'.outside)
      → (with_transaction P a ctx fn w).0 ≡ ret (b, some e)
      → (c.table (with_transaction P a ctx fn w).1.outside ≡ c.table w.outside)
        ⊎ ((tx : P.Tx) × ((P.begin_tx w.outside).0 ≡ ok tx)
            × ((fn (tx_ctx P ctx tx) (begun P w)).0 ≡ ret (b, none))
            × ((P.commit tx (fn (tx_ctx P ctx tx) (begun P w)).1.outside).0 ≡ some e))
  failed-table a b fn e keep failed =
      elim (with_transaction-failed P a ctx fn w open_db b e failed) [
        | inl (no_tx, final) ↦ inl (ground (arith, c.begin_table w.outside))
        | inr (tx, began, inr (done, lost)) ↦ inr (tx, began, done, lost)
        | inr (tx, began, inl final) ↦ inl (
            ground (
              arith,
              c.begin_table w.outside,
              keep tx (begun P w),
              c.rollback_table tx (fn (tx_ctx P ctx tx) (begun P w)).1.outside,
            ))
      ]

  create-failed :
      (it : Item) (e : Error)
      → (run_change P r ctx (creating it) w).0 ≡ ret (some e)
      → Unchanged (creating it) e
  unfolding run_change create
  create-failed it e h = elim (Result-cases (P.to_sql (insert_name it.name))) [
    | inr (x, refused) ↦ inl (unfold log_f in ground arith)
    | inl (q, built) ↦ go q built (with_transaction P (pos 0) ctx (create_in_tx P r q) w).0 refl
  ]
    where
      go :
          (q : P.Query)
          → P.to_sql (insert_name it.name) ≡ ok q
          → (o : Outcome (ℤ × Option Error))
          → (with_transaction P (pos 0) ctx (create_in_tx P r q) w).0 ≡ o
          → Unchanged (creating it) e
      go q built (ret (id, none)) ran = absurd (ground arith)
      go q built (panic p) ran = absurd (ground arith)
      go q built exit ran = absurd (ground arith)
      go q built (ret (id, some x)) ran =
          elim (failed-table (pos 0) id (create_in_tx P r q) x
            (λ tx w'.
              ground (arith, create_in_tx-outside P r ctx tx q w', c.exec_table tx q w'.outside))
            ran) [
              | inl same ↦ inl (ground arith)
              | inr (tx, began, done, lost) ↦
                  let (res, executed, _, after) =
                    create_in_tx-ok P r ctx tx q (begun P w) id done in
                  inr (tx, began, q, built, res, executed, ground arith)
            ]

  change_failed :
      (ch : Change) (what : String) (q : P.Query) (e : Error)
      → P.to_sql (statement_of ch) ≡ ok q
      → (run_change P r ctx ch w ≡ unit_change what q)
      → (run_change P r ctx ch w).0 ≡ ret (some e)
      → Unchanged ch e
  change_failed ch what q e built is_change h =
      go (with_transaction P tt ctx (change_in_tx P r what q) w).0 refl
    where
      go :
          (o : Outcome (Unit {0} × Option Error))
          → (with_transaction P tt ctx (change_in_tx P r what q) w).0 ≡ o
          → Unchanged ch e
      go (ret (u, none)) ran = absurd (ground arith)
      go (panic p) ran = absurd (ground arith)
      go exit ran = absurd (ground arith)
      go (ret (u, some x)) ran =
          elim (failed-table tt u (change_in_tx P r what q) x
            (λ tx w'.
              ground
                (arith, change_in_tx-outside P r ctx tx q w' what, c.exec_table tx q w'.outside))
            ran) [
              | inl same ↦ inl (ground arith)
              | inr (tx, began, done, lost) ↦
                  let (res, executed) =
                    change_in_tx-ok P r ctx tx q (begun P w) what
                      (done ∙ ap (λ v. ret (v, none)) (unit_only u)) in
                  let after = change_in_tx-outside P r ctx tx q (begun P w) what in
                  inr (tx, began, q, built, res, executed, ground arith)
            ]

  -- Over an open handle, a `Create`, `Update` or `Delete` that returns an error leaves the committed table
  -- as it was, unless its statement succeeded in the transaction that the call began and the error is that of
  -- the commit in the state that the statement left.
  pub changes_atomic :
      (ch : Change) (e : Error) → (run_change P r ctx ch w).0 ≡ ret (some e) → Unchanged ch e
  unfolding run_change update delete
  changes_atomic (creating it) e h = create-failed it e h
  changes_atomic (updating it) e h =
      elim (Result-cases (P.to_sql (set_name_where_id it.name it.id))) [
        | inr (x, refused) ↦ inl (unfold log_f in ground arith)
        | inl (q, built) ↦
            change_failed (updating it) "Failed to execute update: %v" q e built
              (rw (built, run_change, update)) h
      ]
  changes_atomic (deleting id) e h = elim (Result-cases (P.to_sql (delete_where_id id))) [
    | inr (x, refused) ↦ inl (unfold log_f in ground arith)
    | inl (q, built) ↦
        change_failed (deleting id) "Failed to execute delete: %v" q e built
          (rw (built, run_change, delete)) h
  ]
