-- ===== src/Items/Repo.antt =====
-- repositories/item/item.go: the SQL repository of items. `Create` sets the generated id on the item that
-- it is given, so it returns that item with its error.
use boilerplate_go_be.Base.{String, ℤ, pos, Option, none, some, List, [], ◌∷◌, ◌++◌, if◌then◌else◌}
use boilerplate_go_be.Runtime.{
  Error, code_error, is_no_rows, Result, ok, err, Prog, pure, raise, ◌>>=◌, ◌>>◌,
}
use boilerplate_go_be.Code.{err_item_not_found}
use boilerplate_go_be.Dto.{Item}
use boilerplate_go_be.Logger.{warn, error}
use boilerplate_go_be.Platform.{
  Platform, insert_name, select_all, select_where_id, set_name_where_id, delete_where_id, SqlResult,
}
use boilerplate_go_be.World.{World, call, log_f}
use boilerplate_go_be.World.Ctx.{Ctx}
use boilerplate_go_be.Database.{get_db, exec_context, with_transaction}
use boilerplate_go_be.Aggregators.{ItemRepository}

module _ (P : Platform) (r : ItemRepository) where
  -- The two steps of `Create`'s transaction; the captured `id` is 0 before it is assigned.
  unfoldable pub create_id : SqlResult → Prog (World P) (ℤ × Option Error)
  create_id res = elim res.last_insert_id [
    | err e ↦ do log_f r.log error "Failed to get last insert ID: %v"; pure (pos 0, some e)
    | ok last_id ↦ pure (last_id, none)
  ]

  unfoldable pub create_in_tx : P.Query → Ctx P → Prog (World P) (ℤ × Option Error)
  unfolding create_id exec_context
  create_in_tx q tx_ctx = do
    res ← exec_context P tx_ctx q
    elim res [
      | err e ↦ do log_f r.log error "Failed to execute insert: %v"; pure (pos 0, some e)
      | ok sql_res ↦ create_id sql_res
    ]

  unfoldable pub created_item : Item → ℤ × Option Error → Item × Option Error
  created_item it (id, none) = (record it { id = id }, none)
  created_item it (id, some e) = (it, some e)

  unfoldable pub create : Ctx P → Item → Prog (World P) (Item × Option Error)
  unfolding created_item
  create ctx it = elim (P.to_sql (insert_name it.name)) [
    | err e ↦ do log_f r.log error "Failed to build insert SQL: %v"; pure (it, some e)
    | ok q ↦ do done ← with_transaction P (pos 0) ctx (create_in_tx q); pure (created_item it done)
  ]

  -- The loop over `rows.Next()`.
  unfoldable pub scan_rows : List Item → List (Result Item) → Prog (World P) (Result (List Item))
  scan_rows items [] = pure (ok items)
  scan_rows items (ok itm ∷ rest) = scan_rows (items ++ itm ∷ []) rest
  scan_rows items (err e ∷ rest) = do log_f r.log error "Failed to scan row: %v"; pure (err e)

  -- `rows.Err()`, where the loop ran to its end.
  unfoldable pub after_scan :
      Option Error → Result (List Item) → Prog (World P) (Result (List Item))
  after_scan rows_err (err e) = pure (err e)
  after_scan none (ok items) = pure (ok items)
  after_scan (some e) (ok items) = do log_f r.log error "Row iteration error: %v"; pure (err e)

  -- The deferred `rows.Close()`.
  unfoldable pub close_rows :
      Option Error → Result (List Item) → Prog (World P) (Result (List Item))
  close_rows none res = pure res
  close_rows (some e) res = do log_f r.log warn "Failed to close rows: %v"; pure res

  -- A call through the database handle.
  abbrev ask_db : {A : Type 0} → (P.State → A × P.State) → Prog (World P) A
  ask_db f = do conn ← get_db P; if conn then call P f else raise "nil pointer dereference"

  unfoldable pub list : Ctx P → Prog (World P) (Result (List Item))
  unfolding after_scan close_rows get_db
  list ctx = elim (P.to_sql select_all) [
    | err e ↦ do log_f r.log error "Failed to build select SQL: %v"; pure (err e)
    | ok q ↦ do
      queried ← ask_db (P.query q)
      elim queried [
        | err e ↦ do log_f r.log error "Failed to query rows: %v"; pure (err e)
        | ok rows ↦ do
          scanned ← scan_rows [] rows.scans
          res ← after_scan rows.rows_err scanned
          close_rows rows.close_err res
      ]
  ]

  unfoldable pub get : Ctx P → ℤ → Prog (World P) (Result Item)
  unfolding get_db is_no_rows
  get ctx id = elim (P.to_sql (select_where_id id)) [
    | err e ↦ do log_f r.log error "Failed to build select by ID SQL: %v"; pure (err e)
    | ok q ↦ do
      scanned ← ask_db (P.query_row q)
      elim scanned [
        | ok itm ↦ pure (ok itm)
        | err e ↦
            if is_no_rows e
            then (do
              log_f r.log error "Item not found: %v"
              pure (err (code_error err_item_not_found)))
            else (do log_f r.log error "Failed to scan row: %v"; pure (err e))
      ]
  ]

  -- The transactions of `Update` and `Delete`: one statement, whose error is logged and returned.
  unfoldable pub change_in_tx : String → P.Query → Ctx P → Prog (World P) (Unit {0} × Option Error)
  unfolding exec_context
  change_in_tx what q tx_ctx = do
    res ← exec_context P tx_ctx q
    elim res [ err e ↦ do log_f r.log error what; pure (tt, some e) | ok _ ↦ pure (tt, none) ]

  abbrev pub err_of : Unit {0} × Option Error → Option Error
  err_of (_, e) = e

  unfoldable pub update : Ctx P → Item → Prog (World P) (Option Error)
  update ctx it = elim (P.to_sql (set_name_where_id it.name it.id)) [
    | err e ↦ do log_f r.log error "Failed to build update SQL: %v"; pure (some e)
    | ok q ↦ do
      done ← with_transaction P tt ctx (change_in_tx "Failed to execute update: %v" q)
      pure (err_of done)
  ]

  unfoldable pub delete : Ctx P → ℤ → Prog (World P) (Option Error)
  delete ctx id = elim (P.to_sql (delete_where_id id)) [
    | err e ↦ do log_f r.log error "Failed to build delete SQL: %v"; pure (some e)
    | ok q ↦ do
      done ← with_transaction P tt ctx (change_in_tx "Failed to execute delete: %v" q)
      pure (err_of done)
  ]
