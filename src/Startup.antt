-- ===== src/Startup.antt =====
-- What `Start` does before it builds a server: configuration, logger, database, migrations and the JWT
-- service (infrastructure/config's `LoadConfig`, infrastructure/db's `New` and `RunMigrations`, and
-- `initDependencies` of cmd/cmd.init.go).
pub mod Keyless
use boilerplate_go_be.Base.{
  ℤ, negsuc, String, str_append, Bool, true, false, Option, none, some, str_eq, if◌then◌else◌,
}
use boilerplate_go_be.Runtime.{
  Error, new, wrap, join, Result, ok, err, Prog, pure, raise, modify, gets, ◌>>=◌, ◌>>◌,
}
use boilerplate_go_be.Config.{DatabaseConfig, dirty_strategy_retry}
use boilerplate_go_be.Logger.{Log}
use boilerplate_go_be.Platform.{Platform, up_ok, no_change, dirty, up_failed}
use boilerplate_go_be.World.{log_f, World, call, the_cfg}
use boilerplate_go_be.Logging.{new_logger}
use boilerplate_go_be.Database.{get_db, log_fatal, log_info}
use boilerplate_go_be.Jwt.{initialize_jwt_service}

module _ (P : Platform) where
  load_error : Option Error → Option Error → Option Error
  load_error (some d) (some c) =
      some (join (wrap "error decoding config file" d) (wrap "error closing file" c))
  load_error (some d) none = some (wrap "error decoding config file" d)
  load_error none (some c) = some (wrap "error closing config file" c)
  load_error none none = none

  -- `Cfg` is replaced as soon as the file is open, also where decoding fails.
  unfoldable pub load_config : String → Prog (World P) (Option Error)
  unfolding load_error
  load_config path = do
    opened ← call P (P.open_config path)
    elim opened [
      | some e ↦ pure (some (wrap "error opening config file" e))
      | none ↦ do
        decoded ← gets (λ w. P.decode_config w.outside)
        modify (λ w. record w { cfg = some decoded.0 })
        closed ← call P P.close_config
        pure (load_error decoded.1 closed)
    ]

  unfoldable pub set_logger : Log → Prog (World P) (Unit {0})
  set_logger l = modify (λ w. record w { db = record (w.db) { logger = some l } })

  abbrev data_source : DatabaseConfig → String
  data_source d = str_append d.user (
      str_append ":" (
        str_append d.password (
          str_append "@tcp(" (
            str_append d.host (
              str_append ":" (
                str_append d.port (
                  str_append ")/"
                    (str_append d.db_name "?parseTime=true&multiStatements=true"))))))))

  abbrev set_connected : Bool → Prog (World P) (Unit {0})
  set_connected b = modify (λ w. record w { db = record (w.db) { connected = b } })

  -- The body of `once.Do` in `New`. After a failed `sql.Open` the handle is nil; with a logger
  -- `logFatal` returns, and the settings on the nil handle panic. The settings of the pool are left out.
  connect : Prog (World P) (Unit {0})
  unfolding log_fatal log_info the_cfg
  connect = do
    cfg ← the_cfg
    opened ← call P (P.sql_open (data_source cfg.database))
    elim opened [
      | some e ↦ do
        set_connected false
        log_fatal P "Error connecting to database: %v"
        raise "nil pointer dereference"
      | none ↦ do
        set_connected true
        pinged ← call P P.ping
        elim pinged [
          | none ↦ log_info P "Successfully connected to database"
          | some e ↦ do
            closed ← call P P.close_db
            elim closed [
              | some _ ↦ log_fatal P "Error closing the database connection: %v"
              | none ↦ pure tt
            ]
            set_connected false
            log_fatal P "Lost connection to database: %v"
            log_info P "Successfully connected to database"
        ]
    ]

  unfoldable pub new_db : Prog (World P) (Option Error)
  unfolding connect
  new_db = do
    spent ← gets (λ w. w.db.once_done)
    (if spent
        then pure tt
        else (do modify (λ w. record w { db = record (w.db) { once_done = true } }); connect))
    conn ← gets (λ w. w.db.connected)
    pure (if conn then none else some (new "failed to initialize the database connection"))

  -- The second `Up`, after a dirty version was forced.
  up_again : Prog (World P) (Option Error)
  up_again = do
    again ← call P P.migrate_up
    pure (elim again [
      | up_ok ↦ none
      | no_change ↦ none
      | dirty v ↦ some (wrap "migrate up after force" (new "Dirty database version"))
      | up_failed e ↦ some (wrap "migrate up after force" e)
    ])

  roll_back_dirty : Prog (World P) (Option Error)
  unfolding up_again
  roll_back_dirty = do
    stepped ← call P (P.migrate_steps (negsuc 0))
    elim stepped [ some e ↦ pure (some (wrap "rollback dirty" e)) | none ↦ up_again ]

  -- Any strategy but "retry", an unknown one too, goes on without the roll back.
  recover_dirty : String → ℤ → Prog (World P) (Option Error)
  unfolding roll_back_dirty
  recover_dirty strategy version = do
    forced ← call P (P.migrate_force version)
    elim forced [
      | some e ↦ pure (some (wrap "force dirty" e))
      | none ↦ if str_eq strategy dirty_strategy_retry then roll_back_dirty else up_again
    ]

  unfoldable pub run_migrations : String → Prog (World P) (Option Error)
  unfolding recover_dirty get_db the_cfg
  run_migrations path = do
    conn ← get_db P
    (if conn then pure tt else raise "nil pointer dereference")
    driver ← call P P.migrate_driver
    elim driver [
      | some e ↦ pure (some (wrap "driver" e))
      | none ↦ do
        made ← call P (P.migrate_new path)
        elim made [
          | some e ↦ pure (some (wrap "migrate init" e))
          | none ↦ do
            cfg ← the_cfg
            let strategy =
                if str_eq cfg.database.dirty_strategy ""
                then dirty_strategy_retry
                else cfg.database.dirty_strategy
            upped ← call P P.migrate_up
            elim upped [
              | up_ok ↦ pure none
              | no_change ↦ pure none
              | dirty v ↦ recover_dirty strategy v
              | up_failed e ↦ pure (some (wrap "migrate up" e))
            ]
        ]
    ]

  abbrev or_fail :
      {A : Type 0} → String → Option Error → Prog (World P) (Result A) → Prog (World P) (Result A)
  or_fail what (some e) rest = pure (err (wrap what e))
  or_fail what none rest = rest

  -- The steps of `initDependencies` after the migrations.
  unfoldable pub with_migrated : Log → Option Error → Prog (World P) (Result Log)
  with_migrated l migrated =
      or_fail "db migrate" migrated
        (do jwt ← initialize_jwt_service P false false; or_fail "init jwt" jwt (pure (ok l)))

  -- The steps after the connection.
  unfoldable pub with_connected : Log → Option Error → Prog (World P) (Result Log)
  unfolding with_migrated
  with_connected l connected = or_fail "db connect" connected (do
    cfg ← the_cfg
    migrated ← run_migrations cfg.database.migration_path
    with_migrated l migrated)

  -- The steps after the logger is there.
  unfoldable pub with_logger : Log → Prog (World P) (Result Log)
  unfolding set_logger with_connected
  with_logger l = do set_logger l; connected ← new_db; with_connected l connected

  unfoldable pub init_dependencies : String → Prog (World P) (Result Log)
  unfolding with_logger
  init_dependencies path = do
    loaded ← load_config path
    or_fail "load config" loaded (do
      cfg ← the_cfg
      made ← new_logger P cfg.log_target "-1" "-1"
      elim made [ err e ↦ pure (err (wrap "init logger" e)) | ok l ↦ with_logger l ])
