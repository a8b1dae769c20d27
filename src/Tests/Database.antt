-- ===== src/Tests/Database.antt =====
-- Witnesses for the transactions and the JWT singleton.
use boilerplate_go_be.Base.{
  false, Bool, refl, ◌≡◌, arith, ◌⊎◌, String, true, Option, none, some, str_append,
}
use boilerplate_go_be.Runtime.{
  Result, Error, new, foreign, Within, Outcome, ret, Prog, pure, raise, ok, err,
}
use boilerplate_go_be.Config.{Config}
use boilerplate_go_be.World.{World, JwtService}
use boilerplate_go_be.World.Ctx.{Ctx}
use boilerplate_go_be.Jwt.{zero_user, key_func, parse_jwt}
use boilerplate_go_be.Jwt.Singleton.{parse_jwt-accepts}
use boilerplate_go_be.Database.{with_transaction, run_tx}
use boilerplate_go_be.Database.Transactions.{
  tx_ctx, begun, with_transaction-active, with_transaction-committed, with_transaction-rolled_back,
  with_transaction-recovered, with_transaction-failed,
}
use boilerplate_go_be.Tests.Memory.{Memory, world, context, memory_count}

-- Functions for a transaction: one that returns 7, one that fails, one that panics.
abbrev seven : Ctx Memory → Prog (World Memory) (String × Option Error)
seven _ = pure ("seven", none)

abbrev failing : Ctx Memory → Prog (World Memory) (String × Option Error)
failing _ = pure ("", some (foreign 7))

abbrev panicking : Ctx Memory → Prog (World Memory) (String × Option Error)
panicking _ = raise "boom"

abbrev run :
    (Ctx Memory → Prog (World Memory) (String × Option Error))
    → Outcome (String × Option Error) × World Memory
run fn = with_transaction Memory "" context fn world

with_transaction-active_example :
    memory_count.active (run panicking).1.outside ≡ memory_count.active world.outside
unfolding with_transaction run_tx
with_transaction-active_example =
    with_transaction-active Memory "" context panicking world refl memory_count (λ ctx w. refl)
      (λ tx w h. h) (λ h. absurd (ground arith))

with_transaction-committed_example :
    (tx : Unit {0}) × ((Memory.begin_tx world.outside).0 ≡ ok tx)
    × ((seven (tx_ctx Memory context tx) (begun Memory world)).0 ≡ ret ("seven", none))
    × ((Memory.commit tx (seven (tx_ctx Memory context tx) (begun Memory world)).1.outside).0
        ≡ none)
    × ((run seven).1.outside
        ≡ (Memory.commit tx (seven (tx_ctx Memory context tx) (begun Memory world)).1.outside).1)
unfolding with_transaction run_tx
with_transaction-committed_example =
    with_transaction-committed Memory "" context seven world refl "seven" refl

with_transaction-rolled_back_example :
    (e' : Error) × ((run failing).0 ≡ ret ("", some e'))
    × Within (foreign 7) e'
    × ((run failing).1.outside
        ≡ (Memory.rollback tt
            (failing (tx_ctx Memory context tt) (begun Memory world)).1.outside).1)
with_transaction-rolled_back_example =
    with_transaction-rolled_back Memory "" context failing world refl tt "" (foreign 7) refl refl

with_transaction-recovered_example :
    ((run panicking).0 ≡ ret ("", some (new (str_append "panic in transaction: " "boom"))))
    × ((run panicking).1.outside
        ≡ (Memory.rollback tt
            (panicking (tx_ctx Memory context tt) (begun Memory world)).1.outside).1)
with_transaction-recovered_example =
    with_transaction-recovered Memory "" context panicking world refl tt "boom" refl refl

with_transaction-failed_example :
    (((Memory.begin_tx world.outside).0 ≡ err (foreign 7))
      × ((run failing).1.outside ≡ (Memory.begin_tx world.outside).1))
    ⊎ ((tx : Unit {0}) × ((Memory.begin_tx world.outside).0 ≡ ok tx)
        × (((run failing).1.outside
              ≡ (Memory.rollback tx
                  (failing (tx_ctx Memory context tx) (begun Memory world)).1.outside).1)
            ⊎ (((failing (tx_ctx Memory context tx) (begun Memory world)).0 ≡ ret ("", none))
                × ((Memory.commit tx
                      (failing (tx_ctx Memory context tx) (begun Memory world)).1.outside).0
                    ≡ some (foreign 7)))))
unfolding with_transaction run_tx
with_transaction-failed_example =
    with_transaction-failed Memory "" context failing world refl "" (foreign 7) refl

abbrev with_key : JwtService Memory
with_key = record { private_key = none; public_key = some tt }

parse_jwt-accepts_example :
    (k : Unit {0}) × (with_key.public_key ≡ some k)
    × (find_key : Bool → String → Result (Unit {0})) × ((alg : String) → find_key true alg ≡ ok k)
    × ((alg : String) → (e : Error) × (find_key false alg ≡ err e))
    × (Memory.parse_with_claims "good" find_key world.outside ≡ (zero_user, ok true))
    × (cfg : Config) × (world.cfg ≡ some cfg)
    × (zero_user.environment ≡ cfg.server.environment)
unfolding parse_jwt key_func
parse_jwt-accepts_example = parse_jwt-accepts Memory world with_key "good" zero_user refl
