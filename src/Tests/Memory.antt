-- ===== src/Tests/Memory.antt =====
-- A platform in memory: a table with its transaction's copy, a token that is accepted, and everything else
-- fixed.
use boilerplate_go_be.Base.{
  ltb, str_append, sym, ap, subst, ℕ, ℤ, pos, suc, ◌-◌, refl, arith, ◌≡◌, String, Bool, true, false,
  Option, none, some, List, [], ◌∷◌, ◌++◌, map, str_eq, if◌then◌else◌,
}
use boilerplate_go_be.Runtime.{Error, no_rows, validation, foreign, Result, ok, err}
use boilerplate_go_be.Config.{Config}
use boilerplate_go_be.Dto.{Item, JwtUser}
use boilerplate_go_be.Json.{json, obj, field, end, str}
use boilerplate_go_be.Jwt.{zero_user}
use boilerplate_go_be.Logger.{Log}
use boilerplate_go_be.Aggregators.{ItemRepository}
use boilerplate_go_be.World.Ctx.{Ctx, background}
use boilerplate_go_be.World.{World}
use boilerplate_go_be.Database.Transactions.{TxCount}
use boilerplate_go_be.Items.Distinct.{DistinctIds}
use boilerplate_go_be.Items.Store.{find, rename, remove, named, SqlStore}
use boilerplate_go_be.Platform.{
  Platform, Statement, insert_name, select_all, select_where_id, set_name_where_id, delete_where_id,
  SqlResult, HttpReply, up_ok,
}

pub record Store : Type 0 where
  pub next : ℕ
  pub rows : List Item
  pub work : List Item
  pub opened : ℕ

abbrev no_id : SqlResult
no_id = record { last_insert_id = err (foreign 1) }

abbrev pub begin_store : Store → Result (Unit {0}) × Store
begin_store s = (ok tt, record s { work = s.rows; opened = suc s.opened })

abbrev insert_store : String → Store → Option Item → Result SqlResult × Store
insert_store name s (some _) = (err (foreign 2), s)
insert_store name s none = (
  ok (record { last_insert_id = ok (pos s.next) }),
  record s { next = suc s.next; work = s.work ++ named (pos s.next) name ∷ [] },
)

-- An insert fails where its id is taken.
abbrev pub exec_store : Unit {0} → Statement → Store → Result SqlResult × Store
exec_store _ (insert_name name) s = insert_store name s (find (pos s.next) s.work)
exec_store _ (set_name_where_id name id) s = (ok no_id, record s { work = rename name id s.work })
exec_store _ (delete_where_id id) s = (ok no_id, record s { work = remove id s.work })
exec_store _ _ s = (ok no_id, s)

abbrev row_or : Option Item → Result Item
row_or (some it) = ok it
row_or none = err no_rows

abbrev pub query_row_store : Statement → Store → Result Item × Store
query_row_store (select_where_id id) s = (row_or (find id s.rows), s)
query_row_store _ s = (err no_rows, s)

abbrev pub empty_config : Config
empty_config = record {
  app_name = "shop";
  version = "1";
  service = record { example = record { host = "http://example" } };
  server = record {
    host = "";
    port = "";
    environment = "";
    skip_tls_verify = false;
    timeout = record { server = pos 30; read = pos 0; write = pos 0; idle = pos 0 };
    duration = pos 0;
    endpoint = record { based = "" };
    jwt = record { private_key = "priv.pem"; public_key = "pub.pem" };
  };
  rest = record { host = ""; port = "" };
  grpc = record { host = ""; port = "" };
  kafka = record { brokers = []; group_id = ""; topic = "items" };
  database = record {
    host = "";
    port = "";
    user = "";
    password = "";
    db_name = "";
    migration_path = "";
    dirty_strategy = "";
  };
  log_target = record {
    path = "";
    file_name = "app.log";
    per_level_files = [];
    verbose_level = "INFO";
    also_log_to_stdout = false;
  };
  open_api = record {
    version = "";
    output_dir = "";
    docs = record {
      public_docs = record { url = ""; schema = "" };
      internal_docs = record { url = ""; schema = "" };
      renderer = "";
    };
    servers = record { public_url = ""; internal_url = "" };
  };
}

abbrev pub refusal : HttpReply
refusal = record {
  status_code = 403;
  content_type = "application/json";
  body = ok (json (obj (field "detail" (str "Forbidden") end)));
  dump_err = none;
  close_err = none;
}

abbrev key_result : Result (Unit {0}) → JwtUser × Result Bool
key_result (ok _) = (zero_user, ok true)
key_result (err e) = (zero_user, err e)

abbrev pub Memory : Platform
Memory = record {
  State = Store;
  Tx = Unit {0};
  Query = Statement;
  File = Unit {0};
  Watcher = Unit {0};
  PrivateKey = Unit {0};
  PublicKey = Unit {0};
  to_sql = λ st. ok st;
  begin_tx = begin_store;
  tx_exec = exec_store;
  db_exec = exec_store tt;
  commit = λ _ s. (none, record s { rows = s.work; opened = s.opened - 1 });
  rollback = λ _ s. (none, record s { opened = s.opened - 1 });
  query = λ _ s. (ok (record { scans = map ok s.rows; rows_err = none; close_err = none }), s);
  query_row = query_row_store;
  rand_hex = λ s. (ok "00ff", s);
  remarshal = λ j. j;
  same_file = λ _ _. true;
  parse_with_claims = λ token key s.
      if str_eq token "good"
      then key_result (key true "RS256")
      else (zero_user, err (validation false));
  read_file = λ _ s. (ok "pem", s);
  parse_private_key = λ _. ok tt;
  parse_public_key = λ _. ok tt;
  new_request = λ _ _. none;
  http_do = λ _ s. (ok refusal, s);
  kafka_write = λ _ _ s. (none, s);
  kafka_close = λ _ s. (none, s);
  open_config = λ _ s. (none, s);
  decode_config = λ s. (empty_config, none);
  close_config = λ s. (none, s);
  mkdir_all = λ _ s. (none, s);
  path_join = λ dir name. str_append dir (str_append "/" name);
  path_clean = λ path. path;
  path_dir = λ path. path;
  open_append = λ _ s. (ok tt, s);
  new_watcher = λ s. (ok tt, s);
  watch_dir = λ _ _ s. (none, s);
  close_watcher = λ _ s. (none, s);
  sleep = λ _ s. s;
  std_log = λ _ s. s;
  close_file = λ _ s. (none, s);
  sql_open = λ _ s. (none, s);
  ping = λ s. (none, s);
  close_db = λ s. (none, s);
  migrate_driver = λ s. (none, s);
  migrate_new = λ _ s. (none, s);
  migrate_up = λ s. (up_ok, s);
  migrate_force = λ _ s. (none, s);
  migrate_steps = λ _ s. (none, s);
  getenv = λ _. "";
  dial_and_write = λ _ _ s. (none, s);
  systemd = false;
}

abbrev pub log : Log
log = record { level = pos 0; parent_id = "p"; child_id = "c" }

abbrev pub repository : ItemRepository
repository = record { log = log }

abbrev pub context : Ctx Memory
context = background

abbrev pub two_items : List Item
two_items = named (pos 1) "pen" ∷ named (pos 2) "cup" ∷ []

abbrev pub running : Store → World Memory
running s = record {
  outside = s;
  lines = [];
  cfg = some empty_config;
  jwt = record {
    once_done = true;
    instance_ = some (record { private_key = none; public_key = some tt });
  };
  db = record { connected = true; once_done = true; logger = some log };
  core = none;
}

-- The next id is free in one, taken in the other.
abbrev pub world : World Memory
world = running (record { next = 3; rows = two_items; work = []; opened = 0 })

abbrev pub world_taken : World Memory
world_taken = running (record { next = 2; rows = two_items; work = []; opened = 0 })

pub memory_count : TxCount Memory
memory_count = record {
  active = λ s. s.opened;
  is_open = λ tx s. ltb 0 s.opened;
  begin_ok = λ s tx h. (refl, ground arith);
  begin_err = λ s e h. absurd (ground arith);
  commit_ends = λ tx s h. refl;
  rollback_ends = λ tx s h. refl;
}

inserted :
    (name : String) (s : Store) (o : Option Item) (r : SqlResult) (id : ℤ)
    → find (pos s.next) s.work ≡ o
    → (insert_store name s o).0 ≡ ok r
    → r.last_insert_id ≡ ok id
    → (find id s.work ≡ none) × ((insert_store name s o).1.work ≡ s.work ++ named id name ∷ [])
inserted name s none r id e h k = ground arith
inserted name s (some it) r id e h k = absurd (ground arith)

insert_store-rows :
    (name : String) (s : Store) (o : Option Item) → (insert_store name s o).1.rows ≡ s.rows
insert_store-rows name s none = refl
insert_store-rows name s (some it) = refl

exec_store-rows : (q : Statement) (s : Store) → (exec_store tt q s).1.rows ≡ s.rows
exec_store-rows (insert_name name) s = insert_store-rows name s (find (pos s.next) s.work)
exec_store-rows select_all s = refl
exec_store-rows (select_where_id id) s = refl
exec_store-rows (set_name_where_id name id) s = refl
exec_store-rows (delete_where_id id) s = refl

query_row_store-same : (q : Statement) (s : Store) → (query_row_store q s).1 ≡ s
query_row_store-same (insert_name name) s = refl
query_row_store-same select_all s = refl
query_row_store-same (select_where_id id) s = refl
query_row_store-same (set_name_where_id name id) s = refl
query_row_store-same (delete_where_id id) s = refl

row_or-found : (o : Option Item) (it : Item) → row_or o ≡ ok it → o ≡ some it
row_or-found none it h = absurd (ground arith)
row_or-found (some x) it h = ground arith

row_or-none : (o : Option Item) (e : Error) → row_or o ≡ err e → o ≡ none
row_or-none none e h = refl
row_or-none (some x) e h = absurd (ground arith)

ok-inj : {A : Type 0} (a b : A) → ok a ≡ ok b → a ≡ b
ok-inj a b h = ground arith

pub memory_store : SqlStore Memory
memory_store = record {
  table = λ s. s.rows;
  seen = λ _ s. s.work;
  begin_table = λ s. refl;
  begin_seen = λ s tx h. refl;
  exec_table = λ tx q s. exec_store-rows q s;
  commit_table = λ tx s h. refl;
  rollback_table = λ tx s. refl;
  insert_seen = λ tx name q s r id built.
      subst
        (λ st.
          (exec_store tt st s).0 ≡ ok r
          → r.last_insert_id ≡ ok id
          → (find id s.work ≡ none) × ((exec_store tt st s).1.work ≡ s.work ++ named id name ∷ []))
        (ok-inj (insert_name name) q built) (inserted name s (find (pos s.next) s.work) r id refl);
  update_seen = λ tx name id q s r built h.
      ap (λ st. (exec_store tt st s).1.work) (sym (ok-inj (set_name_where_id name id) q built));
  delete_seen = λ tx id q s r built h.
      ap (λ st. (exec_store tt st s).1.work) (sym (ok-inj (delete_where_id id) q built));
  query_table = λ q s. refl;
  query_rows = λ q s rows built h clean.
      ap (λ r. r.scans)
        (sym (ok-inj (record { scans = map ok s.rows; rows_err = none; close_err = none }) rows h));
  query_row_table = λ q s. ap (λ s. s.rows) (query_row_store-same q s);
  query_row_found = λ id q s it built.
      subst (λ st. (query_row_store st s).0 ≡ ok it → find id s.rows ≡ some it)
        (ok-inj (select_where_id id) q built) (row_or-found (find id s.rows) it);
  query_row_none = λ id q s e built failed absent.
      subst (λ st. (query_row_store st s).0 ≡ err e → find id s.rows ≡ none)
        (ok-inj (select_where_id id) q built) (row_or-none (find id s.rows) e) failed;
}

-- The rows of the first world have two ids.
pub memory_store-DistinctIds : DistinctIds (memory_store.table world.outside)
unfolding memory_store DistinctIds find
memory_store-DistinctIds = (refl, (refl, tt))
