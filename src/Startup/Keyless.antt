-- ===== src/Startup/Keyless.antt =====
-- The JWT service after initDependencies of cmd/cmd.init.go.
use boilerplate_go_be.Base.{
  ◌≡◌, refl, ap, ◌∙◌, sym, subst, arith, String, false, Option, none, some,
}
use boilerplate_go_be.Runtime.{Error, ok, ret, ◌>>=◌}
use boilerplate_go_be.Returns.{bind-ret}
use boilerplate_go_be.Logger.{Log}
use boilerplate_go_be.Platform.{Platform}
use boilerplate_go_be.Config.{Config}
use boilerplate_go_be.World.{World, the_cfg, log_f}
use boilerplate_go_be.Database.{log_fatal, log_info}
use boilerplate_go_be.Jwt.{initialize_jwt_service, new_jwt_service}
use boilerplate_go_be.Startup.{new_db, run_migrations, with_migrated, with_connected, with_logger}

module _ (P : Platform) where
  -- Neither the connection nor the migrations touch the JWT service.
  pub new_db-jwt : (w : World P) → (new_db P w).1.jwt ≡ w.jwt
  unfolding new_db log_fatal log_info log_f
  new_db-jwt w = ground arith

  pub run_migrations-jwt : (path : String) (w : World P) → (run_migrations P path w).1.jwt ≡ w.jwt
  unfolding run_migrations log_fatal log_info log_f
  run_migrations-jwt path w = ground arith

  abbrev pub Keyless : World P → Type 0
  Keyless w = w.jwt.instance_ ≡ some (record { private_key = none; public_key = none })

  with_migrated-Keyless :
      (l ready : Log) (migrated : Option Error) (w : World P)
      → w.jwt.once_done ≡ false
      → (with_migrated P l migrated w).0 ≡ ret (ok ready)
      → Keyless (with_migrated P l migrated w).1
  unfolding with_migrated initialize_jwt_service new_jwt_service
  with_migrated-Keyless l ready (some e) w unspent made = absurd (ground arith)
  with_migrated-Keyless l ready none w unspent made = rw unspent refl

  the_cfg-jwt : (w : World P) → (the_cfg {P = P} w).1.jwt ≡ w.jwt
  unfolding the_cfg
  the_cfg-jwt w = ground arith

  with_connected-Keyless :
      (l ready : Log) (connected : Option Error) (w : World P)
      → w.jwt.once_done ≡ false
      → (with_connected P l connected w).0 ≡ ret (ok ready)
      → Keyless (with_connected P l connected w).1
  unfolding with_connected the_cfg
  with_connected-Keyless l ready (some e) w unspent made = absurd (ground arith)
  with_connected-Keyless l ready none w unspent made =
      let path : Config → String = λ cfg. cfg.database.migration_path in
      let (cfg, _, first) =
        bind-ret (the_cfg {P = P}) (λ cfg. run_migrations P (path cfg) >>= with_migrated P l) w
          (ok ready) made in
      let w1 = (the_cfg {P = P} w).1 in
      let (migrated, _, second) =
        bind-ret (run_migrations P (path cfg)) (with_migrated P l) w1 (ok ready)
          (sym (ap (λ r. r.0) first) ∙ made) in
      let same = first ∙ second in
      subst (λ r. Keyless r.1) (sym same)
        (with_migrated-Keyless l ready migrated (run_migrations P (path cfg) w1).1
          (ap (λ j. j.once_done) (run_migrations-jwt (path cfg) w1 ∙ the_cfg-jwt w) ∙ unspent)
          (sym (ap (λ r. r.0) same) ∙ made))

  -- Where the steps after the logger succeed and the JWT service was not initialised before, it has no keys.
  pub with_logger-Keyless :
      (l ready : Log) (w : World P)
      → w.jwt.once_done ≡ false
      → (with_logger P l w).0 ≡ ret (ok ready)
      → Keyless (with_logger P l w).1
  unfolding with_logger
  with_logger-Keyless l ready w unspent made =
      let w0 : World P = record w { db = record (w.db) { logger = some l } } in
      let (connected, _, same) = bind-ret (new_db P) (with_connected P l) w0 (ok ready) made in
      subst (λ r. Keyless r.1) (sym same)
        (with_connected-Keyless l ready connected (new_db P w0).1
          (ap (λ j. j.once_done) (new_db-jwt w0) ∙ unspent) (sym (ap (λ r. r.0) same) ∙ made))
