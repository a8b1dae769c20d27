-- ===== src/Items/Kept.antt =====
-- The reading methods of repositories/item/item.go leave the table alone, whatever they end with.
use boilerplate_go_be.Base.{
  ℤ, true, Option, none, some, List, [], ◌∷◌, ◌++◌, ◌≡◌, refl, inl, inr, arith,
}
use boilerplate_go_be.Runtime.{
  Result-cases, Error, Result, ok, err, Outcome, ret, panic, exit, Prog, ◌>>=◌,
}
use boilerplate_go_be.Dto.{Item}
use boilerplate_go_be.Platform.{Platform, select_all, Rows, select_where_id}
use boilerplate_go_be.World.{World, log_f}
use boilerplate_go_be.World.Ctx.{Ctx}
use boilerplate_go_be.Aggregators.{ItemRepository}
use boilerplate_go_be.Items.Store.{SqlStore}
use boilerplate_go_be.Items.Repo.{list, get, scan_rows, after_scan, close_rows}

module _ {P : Platform} (c : SqlStore P) (r : ItemRepository) (ctx : Ctx P) (w : World P)
    (open_db : w.db.connected ≡ true) where
  bind-outside :
      {A B : Type 0} (m : Prog (World P) A) (k : A → Prog (World P) B)
      → ((w' : World P) → (m w').1.outside ≡ w'.outside)
      → ((a : A) (w' : World P) → (k a w').1.outside ≡ w'.outside)
      → (w' : World P) → ((m >>= k) w').1.outside ≡ w'.outside
  bind-outside m k hm hk w' = go (m w').0 refl
    where
      go : (o : Outcome _) → (m w').0 ≡ o → ((m >>= k) w').1.outside ≡ w'.outside
      go (ret a) e = ground (arith, hm w', hk a (m w').1)
      go (panic p) e = ground (arith, hm w')
      go exit e = ground (arith, hm w')

  pub get-table : (id : ℤ) → c.table (get P r ctx id w).1.outside ≡ c.table w.outside
  unfolding get log_f
  get-table id = elim (Result-cases (P.to_sql (select_where_id id))) [
    | inr (e, refused) ↦ ground arith
    | inl (q, built) ↦ ground (arith, c.query_row_table q w.outside)
  ]

  scan_rows-outside :
      (items : List Item) (scans : List (Result Item)) (w' : World P)
      → (scan_rows P r items scans w').1.outside ≡ w'.outside
  unfolding scan_rows log_f
  scan_rows-outside items [] w' = refl
  scan_rows-outside items (ok itm ∷ rest) w' = scan_rows-outside (items ++ itm ∷ []) rest w'
  scan_rows-outside items (err e ∷ rest) w' = refl

  after_scan-outside :
      (rows_err : Option Error) (scanned : Result (List Item)) (w' : World P)
      → (after_scan P r rows_err scanned w').1.outside ≡ w'.outside
  unfolding after_scan log_f
  after_scan-outside rows_err (err e) w' = refl
  after_scan-outside none (ok items) w' = refl
  after_scan-outside (some e) (ok items) w' = refl

  close_rows-outside :
      (close_err : Option Error) (res : Result (List Item)) (w' : World P)
      → (close_rows P r close_err res w').1.outside ≡ w'.outside
  unfolding close_rows log_f
  close_rows-outside none res w' = refl
  close_rows-outside (some e) res w' = refl

  -- What `List` does with the rows that it has.
  abbrev scanned_rows : Rows → Result (List Item) → Prog (World P) (Result (List Item))
  scanned_rows rows scanned = do
    res ← after_scan P r rows.rows_err scanned
    close_rows P r rows.close_err res

  reading-outside :
      (rows : Rows) (w' : World P)
      → ((scan_rows P r [] rows.scans >>= scanned_rows rows) w').1.outside ≡ w'.outside
  reading-outside rows =
      bind-outside (scan_rows P r [] rows.scans) (scanned_rows rows)
        (scan_rows-outside [] rows.scans)
        (λ scanned.
          bind-outside (after_scan P r rows.rows_err scanned) (close_rows P r rows.close_err)
            (after_scan-outside rows.rows_err scanned) (close_rows-outside rows.close_err))

  pub list-table : c.table (list P r ctx w).1.outside ≡ c.table w.outside
  unfolding list log_f
  list-table = elim (Result-cases (P.to_sql select_all)) [
    | inr (e, refused) ↦ ground arith
    | inl (q, built) ↦ elim (Result-cases (P.query q w.outside).0) [
      | inr (e, failed) ↦ ground (arith, c.query_table q w.outside)
      | inl (rows, ran) ↦
          let w' : World P = record w { outside = (P.query q w.outside).1 } in
          let read = reading-outside rows w' in ground (arith, c.query_table q w.outside)
    ]
  ]
