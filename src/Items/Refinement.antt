-- ===== src/Items/Refinement.antt =====
-- The changing methods of repositories/item/item.go against the table of Items/Store.
use boilerplate_go_be.Base.{ℤ, pos, String, true, none, [], ◌∷◌, ◌++◌, ◌≡◌, inl, inr, arith}
use boilerplate_go_be.Runtime.{Result-cases, ok, ret}
use boilerplate_go_be.Dto.{Item}
use boilerplate_go_be.Platform.{
  Platform, insert_name, set_name_where_id, delete_where_id, SqlResult,
}
use boilerplate_go_be.World.{World, log_f}
use boilerplate_go_be.World.Ctx.{Ctx, get_tx_ctx, set_tx_ctx}
use boilerplate_go_be.Database.{with_transaction, exec_context}
use boilerplate_go_be.Database.Transactions.{tx_ctx, begun, with_transaction-committed}
use boilerplate_go_be.Aggregators.{ItemRepository}
use boilerplate_go_be.Items.Store.{Table, find, rename, remove, SqlStore}
use boilerplate_go_be.Items.Repo.{create_in_tx, create, change_in_tx, update, delete}

module _ (P : Platform) (r : ItemRepository) (ctx : Ctx P) (tx : P.Tx) (q : P.Query)
    (w : World P) where
  -- What a successful insert transaction has done.
  pub create_in_tx-ok :
      (id : ℤ)
      → (create_in_tx P r q (tx_ctx P ctx tx) w).0 ≡ ret (id, none)
      → (res : SqlResult) × ((P.tx_exec tx q w.outside).0 ≡ ok res)
        × (res.last_insert_id ≡ ok id)
        × ((create_in_tx P r q (tx_ctx P ctx tx) w).1.outside ≡ (P.tx_exec tx q w.outside).1)
  unfolding create_in_tx exec_context get_tx_ctx set_tx_ctx log_f
  create_in_tx-ok id h = elim (Result-cases (P.tx_exec tx q w.outside).0) [
    | inr (e, failed) ↦ absurd (ground arith)
    | inl (res, ran) ↦ (res, ran, ground arith, ground arith)
  ]

  pub create_in_tx-outside :
      (create_in_tx P r q (tx_ctx P ctx tx) w).1.outside ≡ (P.tx_exec tx q w.outside).1
  unfolding create_in_tx exec_context get_tx_ctx set_tx_ctx log_f
  create_in_tx-outside = ground arith

  pub change_in_tx-outside :
      (what : String)
      → (change_in_tx P r what q (tx_ctx P ctx tx) w).1.outside ≡ (P.tx_exec tx q w.outside).1
  unfolding change_in_tx exec_context get_tx_ctx set_tx_ctx log_f
  change_in_tx-outside what = ground arith

  pub change_in_tx-ok :
      (what : String)
      → (change_in_tx P r what q (tx_ctx P ctx tx) w).0 ≡ ret (tt, none)
      → (res : SqlResult) × ((P.tx_exec tx q w.outside).0 ≡ ok res)
  unfolding change_in_tx exec_context get_tx_ctx set_tx_ctx log_f
  change_in_tx-ok what h = elim (Result-cases (P.tx_exec tx q w.outside).0) [
    | inr (e, failed) ↦ absurd (ground arith)
    | inl (res, ran) ↦ (res, ran)
  ]

module _ (P : Platform) (c : SqlStore P) (r : ItemRepository) (ctx : Ctx P) (w : World P)
    (open_db : w.db.connected ≡ true) where
  create-inv :
      (it it' : Item) (q : P.Query)
      → P.to_sql (insert_name it.name) ≡ ok q
      → (create P r ctx it w).0 ≡ ret (it', none)
      → let run = with_transaction P (pos 0) ctx (create_in_tx P r q) w in
        (run.0 ≡ ret (it'.id, none)) × (it'.name ≡ it.name) × ((create P r ctx it w).1 ≡ run.1)
  unfolding create
  create-inv it it' q built h = ground arith

  -- Over an open handle, a `Create` that returns no error has committed one new row at the end of the
  -- table, the item that it returns: with the name that was asked for and an id that no row had.
  pub create-refines :
      (it it' : Item)
      → (create P r ctx it w).0 ≡ ret (it', none)
      → (find it'.id (c.table w.outside) ≡ none)
        × (it'.name ≡ it.name)
        × (c.table (create P r ctx it w).1.outside ≡ c.table w.outside ++ it' ∷ [])
  create-refines it it' h = elim (Result-cases (P.to_sql (insert_name it.name))) [
    | inr (e, refused) ↦ absurd (unfold create in ground arith)
    | inl (q, built) ↦
        let (ran, same_name, same) = create-inv it it' q built h in
        let (tx, began, done, committed, final) =
          with_transaction-committed P (pos 0) ctx (create_in_tx P r q) w open_db it'.id ran in
        let (res, executed, last, after) = create_in_tx-ok P r ctx tx q (begun P w) it'.id done in
        let (fresh, seen) =
          c.insert_seen tx it.name q (begun P w).outside res it'.id built executed last in
        let s' = (create_in_tx P r q (tx_ctx P ctx tx) (begun P w)).1.outside in
        let started = c.begin_seen w.outside tx began in
        let published = c.commit_table tx s' committed in (ground arith, same_name, ground arith)
  ]

  -- A committed one-statement transaction has done to the table what its statement does.
  change_committed :
      (what : String) (q : P.Query) (f : Table → Table)
      → ((tx : P.Tx) (s : P.State) (res : SqlResult)
          → (P.tx_exec tx q s).0 ≡ ok res
          → c.seen tx (P.tx_exec tx q s).1 ≡ f (c.seen tx s))
      → (with_transaction P tt ctx (change_in_tx P r what q) w).0 ≡ ret (tt, none)
      → c.table (with_transaction P tt ctx (change_in_tx P r what q) w).1.outside
        ≡ f (c.table w.outside)
  change_committed what q f law ran =
      let (tx, began, done, committed, final) =
        with_transaction-committed P tt ctx (change_in_tx P r what q) w open_db tt ran in
      let (res, executed) = change_in_tx-ok P r ctx tx q (begun P w) what done in
      let changed = law tx (begun P w).outside res executed in
      let after = change_in_tx-outside P r ctx tx q (begun P w) what in
      let s' = (change_in_tx P r what q (tx_ctx P ctx tx) (begun P w)).1.outside in
      let started = c.begin_seen w.outside tx began in
      let published = c.commit_table tx s' committed in ground arith

  -- Over an open handle, an `Update` that returns no error has renamed the rows of the item's id and left
  -- every other row alone. It succeeds too where no row has that id, and then changes nothing.
  pub update-refines :
      (it : Item)
      → (update P r ctx it w).0 ≡ ret none
      → c.table (update P r ctx it w).1.outside ≡ rename it.name it.id (c.table w.outside)
  unfolding update
  update-refines it h = elim (Result-cases (P.to_sql (set_name_where_id it.name it.id))) [
    | inr (e, refused) ↦ absurd (ground arith)
    | inl (q, built) ↦
        let done =
          change_committed "Failed to execute update: %v" q (rename it.name it.id)
            (λ tx s res. c.update_seen tx it.name it.id q s res built) in
        ground (arith, done)
  ]

  -- Over an open handle, a `Delete` that returns no error has removed the rows of the id and left every
  -- other row alone.
  pub delete-refines :
      (id : ℤ)
      → (delete P r ctx id w).0 ≡ ret none
      → c.table (delete P r ctx id w).1.outside ≡ remove id (c.table w.outside)
  unfolding delete
  delete-refines id h = elim (Result-cases (P.to_sql (delete_where_id id))) [
    | inr (e, refused) ↦ absurd (ground arith)
    | inl (q, built) ↦
        let done =
          change_committed "Failed to execute delete: %v" q (remove id)
            (λ tx s res. c.delete_seen tx id q s res built) in
        ground (arith, done)
  ]
