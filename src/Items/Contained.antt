-- ===== src/Items/Contained.antt =====
-- The item repository and service of a request: over an open handle no call ends the process or changes the
-- handle, whatever the driver answers.
use boilerplate_go_be.Base.{ℤ, pos, String, List, [], ◌∷◌, Option, none, some, ◌++◌}
use boilerplate_go_be.Runtime.{Error, is_no_rows, Result, ok, err, pure, ◌>>=◌, code_error}
use boilerplate_go_be.Code.{err_item_not_found}
use boilerplate_go_be.Dto.{Item}
use boilerplate_go_be.Logger.{Level, warn, error, info}
use boilerplate_go_be.Platform.{
  Platform, SqlResult, insert_name, select_all, select_where_id, set_name_where_id, delete_where_id,
}
use boilerplate_go_be.World.{log_f}
use boilerplate_go_be.World.Ctx.{Ctx}
use boilerplate_go_be.Database.Contained.{
  through_db-InWorld, exec_context-InWorld, with_transaction-InWorld,
}
use boilerplate_go_be.Database.{exec_context, with_transaction}
use boilerplate_go_be.Aggregators.{ItemRepository}
use boilerplate_go_be.Items.Repo
use boilerplate_go_be.Items.Service
use boilerplate_go_be.Outbound.Example.{fetch_item_by_id}
use boilerplate_go_be.Outbound.Contained.{fetch_item_by_id-InWorld}
use boilerplate_go_be.Items.Repo.{
  created_item, err_of, create_id, create_in_tx, change_in_tx, scan_rows, after_scan, close_rows,
}
use boilerplate_go_be.Contained.{
  InWorld, Contained-pure, Contained-if, Contained-result, Contained-bind, Contained-log_f,
}

module _ (P : Platform) (r : ItemRepository) where
  -- A line, then an answer.
  logged :
      {A : Type 0} (lvl : Level) (msg : String) (a : A)
      → InWorld (log_f {P = P} r.log lvl msg >>= λ _. pure a)
  logged lvl msg a =
      Contained-bind _ (log_f r.log lvl msg) _ (Contained-log_f r.log lvl msg)
        (λ _. Contained-pure _ a)

  create_id-InWorld : (res : SqlResult) → InWorld (create_id P r res)
  unfolding create_id
  create_id-InWorld res =
      Contained-result _ res.last_insert_id _ _ (λ last_id. Contained-pure _ (last_id, none))
        (λ e. logged error "Failed to get last insert ID: %v" (pos 0, some e))

  create_in_tx-InWorld : (q : P.Query) (ctx : Ctx P) → InWorld (create_in_tx P r q ctx)
  unfolding create_in_tx
  create_in_tx-InWorld q ctx =
      Contained-bind _ (exec_context P ctx q) _ (exec_context-InWorld P ctx q) (λ res.
        Contained-result _ res _ _ create_id-InWorld
          (λ e. logged error "Failed to execute insert: %v" (pos 0, some e)))

  pub create-InWorld : (ctx : Ctx P) (it : Item) → InWorld (Repo.create P r ctx it)
  unfolding Repo.create
  create-InWorld ctx it =
      Contained-result _ (P.to_sql (insert_name it.name)) _ _
        (λ q.
          Contained-bind _ (with_transaction P (pos 0) ctx (create_in_tx P r q)) _
            (with_transaction-InWorld P (pos 0) ctx (create_in_tx P r q) (create_in_tx-InWorld q))
            (λ done. Contained-pure _ (created_item P r it done)))
        (λ e. logged error "Failed to build insert SQL: %v" (it, some e))

  scan_rows-InWorld :
      (items : List Item) (scans : List (Result Item)) → InWorld (scan_rows P r items scans)
  unfolding scan_rows
  scan_rows-InWorld items [] = Contained-pure _ (ok items)
  scan_rows-InWorld items (ok itm ∷ rest) = scan_rows-InWorld (items ++ itm ∷ []) rest
  scan_rows-InWorld items (err e ∷ rest) = logged error "Failed to scan row: %v" (err e)

  after_scan-InWorld :
      (rows_err : Option Error) (scanned : Result (List Item))
      → InWorld (after_scan P r rows_err scanned)
  unfolding after_scan
  after_scan-InWorld rows_err (err e) = Contained-pure _ (err e)
  after_scan-InWorld none (ok items) = Contained-pure _ (ok items)
  after_scan-InWorld (some e) (ok items) = logged error "Row iteration error: %v" (err e)

  close_rows-InWorld :
      (close_err : Option Error) (res : Result (List Item)) → InWorld (close_rows P r close_err res)
  unfolding close_rows
  close_rows-InWorld none res = Contained-pure _ res
  close_rows-InWorld (some e) res = logged warn "Failed to close rows: %v" res

  pub list-InWorld : (ctx : Ctx P) → InWorld (Repo.list P r ctx)
  unfolding Repo.list
  list-InWorld ctx =
      Contained-result _ (P.to_sql select_all) _ _
        (λ q. Contained-bind _ _ _ (through_db-InWorld P (P.query q)) (λ queried.
          Contained-result _ queried _ _
            (λ rows.
              Contained-bind _ (scan_rows P r [] rows.scans) _ (scan_rows-InWorld [] rows.scans)
                (λ scanned.
                  Contained-bind _ (after_scan P r rows.rows_err scanned) _
                    (after_scan-InWorld rows.rows_err scanned)
                    (λ res. close_rows-InWorld rows.close_err res)))
            (λ e. logged error "Failed to query rows: %v" (err e))))
        (λ e. logged error "Failed to build select SQL: %v" (err e))

  pub get-InWorld : (ctx : Ctx P) (id : ℤ) → InWorld (Repo.get P r ctx id)
  unfolding Repo.get
  get-InWorld ctx id =
      Contained-result _ (P.to_sql (select_where_id id)) _ _
        (λ q. Contained-bind _ _ _ (through_db-InWorld P (P.query_row q)) (λ scanned.
          Contained-result _ scanned _ _ (λ itm. Contained-pure _ (ok itm))
            (λ e.
              Contained-if _ (is_no_rows e)
                (logged error "Item not found: %v" (err (code_error err_item_not_found)))
                (logged error "Failed to scan row: %v" (err e)))))
        (λ e. logged error "Failed to build select by ID SQL: %v" (err e))

  change_in_tx-InWorld :
      (what : String) (q : P.Query) (ctx : Ctx P) → InWorld (change_in_tx P r what q ctx)
  unfolding change_in_tx
  change_in_tx-InWorld what q ctx =
      Contained-bind _ (exec_context P ctx q) _ (exec_context-InWorld P ctx q) (λ res.
        Contained-result _ res _ _ (λ _. Contained-pure _ (tt, none))
          (λ e. logged error what (tt, some e)))

  -- The transaction of `Update` or `Delete`.
  changed :
      (what : String) (q : P.Query) (ctx : Ctx P)
      → InWorld
          (with_transaction P tt ctx (change_in_tx P r what q) >>= λ done. pure (err_of P r done))
  changed what q ctx =
      Contained-bind _ (with_transaction P tt ctx (change_in_tx P r what q)) _
        (with_transaction-InWorld P tt ctx (change_in_tx P r what q) (change_in_tx-InWorld what q))
        (λ done. Contained-pure _ (err_of P r done))

  pub update-InWorld : (ctx : Ctx P) (it : Item) → InWorld (Repo.update P r ctx it)
  unfolding Repo.update
  update-InWorld ctx it =
      Contained-result _ (P.to_sql (set_name_where_id it.name it.id)) _ _
        (λ q. changed "Failed to execute update: %v" q ctx)
        (λ e. logged error "Failed to build update SQL: %v" (some e))

  pub delete-InWorld : (ctx : Ctx P) (id : ℤ) → InWorld (Repo.delete P r ctx id)
  unfolding Repo.delete
  delete-InWorld ctx id =
      Contained-result _ (P.to_sql (delete_where_id id)) _ _
        (λ q. changed "Failed to execute delete: %v" q ctx)
        (λ e. logged error "Failed to build delete SQL: %v" (some e))

module _ (P : Platform) (s : Service.Service) where
  log_fetched-InWorld : (f : Result Item) → InWorld (Service.log_fetched P s f)
  unfolding Service.log_fetched
  log_fetched-InWorld (ok it) = Contained-log_f s.log info "Fetched item from external service: %+v"
  log_fetched-InWorld (err e) =
      Contained-log_f s.log warn "Failed to fetch item from external service: %v"

  pub create_item-InWorld : (ctx : Ctx P) (it : Item) → InWorld (Service.create_item P s ctx it)
  unfolding Service.create_item
  create_item-InWorld ctx it =
      Contained-bind _ (Repo.create P s.item_repo ctx it) _ (create-InWorld P s.item_repo ctx it)
        (λ created. Contained-pure _ (Service.after_create P s created))

  pub list_items-InWorld : (ctx : Ctx P) → InWorld (Service.list_items P s ctx)
  unfolding Service.list_items
  list_items-InWorld ctx =
      Contained-bind _ (Repo.list P s.item_repo ctx) _ (list-InWorld P s.item_repo ctx)
        (λ listed. Contained-pure _ (Service.after_list P s listed))

  pub get_item-InWorld : (ctx : Ctx P) (id : ℤ) → InWorld (Service.get_item P s ctx id)
  unfolding Service.get_item
  get_item-InWorld ctx id =
      Contained-bind _ (Repo.get P s.item_repo ctx id) _ (get-InWorld P s.item_repo ctx id)
        (λ got. Contained-pure _ (Service.after_get P s got))

  pub update_item-InWorld : (ctx : Ctx P) (it : Item) → InWorld (Service.update_item P s ctx it)
  unfolding Service.update_item
  update_item-InWorld ctx it =
      Contained-bind _ (fetch_item_by_id P s.external ctx it.id) _
        (fetch_item_by_id-InWorld P s.external ctx it.id)
        (λ f. Contained-bind _ (Service.log_fetched P s f) _ (log_fetched-InWorld f) (λ _.
          Contained-bind _ (Repo.update P s.item_repo ctx it) _
            (update-InWorld P s.item_repo ctx it)
            (λ updated. Contained-pure _ (Service.after_update P s it updated))))

  pub delete_item-InWorld : (ctx : Ctx P) (id : ℤ) → InWorld (Service.delete_item P s ctx id)
  unfolding Service.delete_item
  delete_item-InWorld ctx id =
      Contained-bind _ (Repo.delete P s.item_repo ctx id) _ (delete-InWorld P s.item_repo ctx id)
        (λ deleted. Contained-pure _ (Service.after_delete P s deleted))
