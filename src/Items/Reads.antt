-- ===== src/Items/Reads.antt =====
-- The reading methods of repositories/item/item.go against the table of Items/Store.
use boilerplate_go_be.Base.{
  Option-cases, sym, ℤ, true, none, some, List, [], ◌∷◌, ◌++◌, map, ◌≡◌, ◌∙◌, ap, inl, inr, arith,
  Bool-cases,
}
use mathlib.Core.List.{append_assoc, append-nil}
use boilerplate_go_be.Code.{err_item_not_found}
use boilerplate_go_be.Runtime.{Error, code_error, is_no_rows, ok, err, ret, Result-cases}
use boilerplate_go_be.Dto.{Item}
use boilerplate_go_be.Platform.{Platform, select_all, select_where_id, Rows}
use boilerplate_go_be.World.{World, log_f}
use boilerplate_go_be.World.Ctx.{Ctx}
use boilerplate_go_be.Aggregators.{ItemRepository}
use boilerplate_go_be.Items.Store.{find, SqlStore}
use boilerplate_go_be.Items.Repo.{scan_rows, list, get}

module _ (P : Platform) (r : ItemRepository) where
  -- The scanning loop collects the rows in order.
  scan_rows_all :
      (acc its : List Item) (w : World P)
      → scan_rows P r acc (map ok its) w ≡ (ret (ok (acc ++ its)), w)
  unfolding scan_rows
  scan_rows_all acc [] w = ap (λ l. (ret (ok l), w)) (sym (append-nil acc))
  scan_rows_all acc (it ∷ its) w =
      scan_rows_all (acc ++ it ∷ []) its w
      ∙ ap (λ l. (ret (ok l), w)) (append_assoc acc (it ∷ []) its)

module _ (P : Platform) (c : SqlStore P) (r : ItemRepository) (ctx : Ctx P) (w : World P)
    (open_db : w.db.connected ≡ true) where
  -- Over an open handle, `Get` leaves the table alone; an item that it returns is the row of that id; and
  -- it answers "Item not found" only where no row has the id.
  pub get-found :
      (id : ℤ) (it : Item)
      → (get P r ctx id w).0 ≡ ret (ok it)
      → (find id (c.table w.outside) ≡ some it)
        × (c.table (get P r ctx id w).1.outside ≡ c.table w.outside)
  unfolding get log_f
  get-found id it h = elim (Result-cases (P.to_sql (select_where_id id))) [
    | inr (e, refused) ↦ absurd (ground arith)
    | inl (q, built) ↦ elim (Result-cases (P.query_row q w.outside).0) [
      | inl (found, ran) ↦ (
        ground (arith, c.query_row_found id q w.outside found built ran),
        ground (arith, c.query_row_table q w.outside),
      )
      | inr (e, failed) ↦ absurd (ground (arith, Bool-cases (is_no_rows e)))
    ]
  ]

  -- Over an open handle, where the driver reports that no row was found, `Get` answers "Item not found",
  -- and no row of the table has the id.
  pub get-missing :
      (id : ℤ) (q : P.Query) (e : Error)
      → P.to_sql (select_where_id id) ≡ ok q
      → (P.query_row q w.outside).0 ≡ err e
      → is_no_rows e ≡ true
      → ((get P r ctx id w).0 ≡ ret (err (code_error err_item_not_found)))
        × (find id (c.table w.outside) ≡ none)
  unfolding get log_f
  get-missing id q e built failed absent =
      (ground arith, c.query_row_none id q w.outside e built failed absent)

  list_scanned :
      (q : P.Query) (rows : Rows) (its : List Item)
      → P.to_sql select_all ≡ ok q
      → (P.query q w.outside).0 ≡ ok rows
      → (list P r ctx w).0 ≡ ret (ok its)
      → rows.rows_err ≡ none
  unfolding list log_f
  list_scanned q rows its built ran h = elim (Option-cases rows.rows_err) [
    | inl clean ↦ clean
    | inr (x, broken) ↦ absurd (ground arith)
  ]

  -- Over an open handle, a list that `List` returns holds exactly the committed rows in their order, and
  -- the table is left alone.
  pub list-refines :
      (its : List Item)
      → (list P r ctx w).0 ≡ ret (ok its)
      → (its ≡ c.table w.outside) × (c.table (list P r ctx w).1.outside ≡ c.table w.outside)
  list-refines its h = elim (Result-cases (P.to_sql select_all)) [
    | inr (e, refused) ↦ absurd (unfold list log_f in ground arith)
    | inl (q, built) ↦ elim (Result-cases (P.query q w.outside).0) [
      | inr (e, failed) ↦ absurd (unfold list log_f in ground arith)
      | inl (rows, ran) ↦
          let clean = list_scanned q rows its built ran h in
          let rows_of_table = c.query_rows q w.outside rows built ran clean in
          let w' : World P = record w { outside = (P.query q w.outside).1 } in
          let scanned : scan_rows P r [] rows.scans w' ≡ (ret (ok (c.table w.outside)), w') =
            rw rows_of_table (scan_rows_all P r [] (c.table w.outside) w') in
          (
            unfold list log_f in ground arith,
            unfold list log_f in ground (arith, c.query_table q w.outside),
          )
    ]
  ]
