-- ===== src/Items/Store.antt =====
-- The specification of the repository: a table of items with generated ids. The laws say what the SQL
-- builder and MySQL do for the statements that repositories/item/item.go builds.
use boilerplate_go_be.Base.{
  ℤ, String, true, Option, none, some, List, [], ◌∷◌, ◌++◌, map, ◌≡◌, int_eq, if◌then◌else◌,
}
use boilerplate_go_be.Runtime.{is_no_rows, Error, ok, err}
use boilerplate_go_be.Dto.{Item}
use boilerplate_go_be.Platform.{
  Platform, insert_name, select_all, select_where_id, set_name_where_id, delete_where_id, SqlResult,
  Rows,
}

abbrev pub Table : Type 0
Table = List Item

-- The specification: the row of an id, the table with a row renamed, and without a row.
unfoldable pub find : ℤ → Table → Option Item
find id [] = none
find id (it ∷ t) = if int_eq it.id id then some it else find id t

unfoldable pub rename : String → ℤ → Table → Table
rename name id [] = []
rename name id (it ∷ t) =
    (if int_eq it.id id then record it { name = name } else it) ∷ rename name id t

unfoldable pub remove : ℤ → Table → Table
remove id [] = []
remove id (it ∷ t) = if int_eq it.id id then remove id t else it ∷ remove id t

abbrev pub named : ℤ → String → Item
named id name = record { id = id; name = name }

-- `table` is what is committed, `seen` what a transaction reads.
pub record SqlStore (P : Platform) : Type 0 where
  pub table : P.State → Table
  pub seen : P.Tx → P.State → Table
  -- a transaction begins with the committed rows, changes what it sees and nothing else, and
  -- publishes or drops that
  pub begin_table : (s : P.State) → table (P.begin_tx s).1 ≡ table s
  pub begin_seen :
      (s : P.State) (tx : P.Tx) → (P.begin_tx s).0 ≡ ok tx → seen tx (P.begin_tx s).1 ≡ table s
  pub exec_table : (tx : P.Tx) (q : P.Query) (s : P.State) → table (P.tx_exec tx q s).1 ≡ table s
  pub commit_table :
      (tx : P.Tx) (s : P.State) → (P.commit tx s).0 ≡ none → table (P.commit tx s).1 ≡ seen tx s
  pub rollback_table : (tx : P.Tx) (s : P.State) → table (P.rollback tx s).1 ≡ table s
  -- INSERT appends a row under an id that no row has, which is the last insert id if there is one
  pub insert_seen :
      (tx : P.Tx) (name : String) (q : P.Query) (s : P.State) (r : SqlResult) (id : ℤ)
      → P.to_sql (insert_name name) ≡ ok q
      → (P.tx_exec tx q s).0 ≡ ok r
      → r.last_insert_id ≡ ok id
      → (find id (seen tx s) ≡ none)
        × (seen tx (P.tx_exec tx q s).1 ≡ seen tx s ++ named id name ∷ [])
  pub update_seen :
      (tx : P.Tx) (name : String) (id : ℤ) (q : P.Query) (s : P.State) (r : SqlResult)
      → P.to_sql (set_name_where_id name id) ≡ ok q
      → (P.tx_exec tx q s).0 ≡ ok r
      → seen tx (P.tx_exec tx q s).1 ≡ rename name id (seen tx s)
  pub delete_seen :
      (tx : P.Tx) (id : ℤ) (q : P.Query) (s : P.State) (r : SqlResult)
      → P.to_sql (delete_where_id id) ≡ ok q
      → (P.tx_exec tx q s).0 ≡ ok r
      → seen tx (P.tx_exec tx q s).1 ≡ remove id (seen tx s)
  -- SELECT reads the committed rows, and `QueryRow` with no row is `sql.ErrNoRows`
  pub query_table : (q : P.Query) (s : P.State) → table (P.query q s).1 ≡ table s
  pub query_rows :
      (q : P.Query) (s : P.State) (rows : Rows)
      → P.to_sql select_all ≡ ok q
      → (P.query q s).0 ≡ ok rows
      → rows.rows_err ≡ none
      → rows.scans ≡ map ok (table s)
  pub query_row_table : (q : P.Query) (s : P.State) → table (P.query_row q s).1 ≡ table s
  pub query_row_found :
      (id : ℤ) (q : P.Query) (s : P.State) (it : Item)
      → P.to_sql (select_where_id id) ≡ ok q
      → (P.query_row q s).0 ≡ ok it
      → find id (table s) ≡ some it
  pub query_row_none :
      (id : ℤ) (q : P.Query) (s : P.State) (e : Error)
      → P.to_sql (select_where_id id) ≡ ok q
      → (P.query_row q s).0 ≡ err e
      → is_no_rows e ≡ true
      → find id (table s) ≡ none
