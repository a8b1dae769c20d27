-- ===== src/Logging/Closing.antt =====
-- `CloseLogFile` of pkg/logger/log.init.go.
use boilerplate_go_be.Base.{◌≡◌, refl, arith, Option-cases, inl, inr, none, List, [], ◌∷◌}
use boilerplate_go_be.Runtime.{ret}
use boilerplate_go_be.Logger.{Level}
use boilerplate_go_be.Platform.{Platform}
use boilerplate_go_be.World.{World}
use boilerplate_go_be.Logging.{close_log_file, close_watchers, close_level_files}

module _ (P : Platform) where
  close_watchers_lem : (ws : List P.Watcher) (w : World P) → (close_watchers P ws w).0 ≡ ret tt
  unfolding close_watchers
  close_watchers_lem [] w = refl
  close_watchers_lem (x ∷ ws) w = close_watchers_lem ws _

  close_level_files_lem :
      (fs : List (Level × P.File)) (w : World P) → (close_level_files P fs w).0 ≡ ret tt
  unfolding close_level_files
  close_level_files_lem [] w = refl
  close_level_files_lem ((l, f) ∷ fs) w = close_level_files_lem fs _

  -- `CloseLogFile` returns, whatever the files and watchers answer.
  pub close_log_file_lem : (w : World P) → (close_log_file P w).0 ≡ ret tt
  unfolding close_log_file
  close_log_file_lem w = elim (Option-cases w.core) [
    | inl e ↦ ground (arith, e)
    | inr (c, e) ↦
        let w1 : World P = record w {
          core = none;
          outside = (P.close_file c.log_file w.outside).1;
        } in
        ground (
          arith,
          e,
          close_watchers_lem c.watchers w1,
          close_level_files_lem c.level_file (close_watchers P c.watchers w1).1,
        )
  ]
