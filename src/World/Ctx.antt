-- ===== src/World/Ctx.antt =====
-- infrastructure/utils/context.go: the values that a request carries. A `context.Context` is the chain of
-- its `WithValue` and `WithCancel` layers; the keys are distinct pointers. Cancellation itself is not
-- modelled.
use boilerplate_go_be.Base.{String, Bool, true, false, Option, none, some, ◌≡◌, refl}
use boilerplate_go_be.Logger.{Log}
use boilerplate_go_be.Dto.{JwtUser}
use boilerplate_go_be.Aggregators.{Repository, Outbound}
use boilerplate_go_be.Platform.{Platform}

pub data CtxKey : Type 0 where
  tx_key user_key logger_ctx_key repo_key outbound_key token_key : CtxKey

-- A stored value with its dynamic type. A nil interface stored as a logger is no value.
pub data Value (P : Platform) : Type 0 where
  user_value : JwtUser → Value P
  tx_value : P.Tx → Value P
  logger_value : Log → Value P
  repo_value : Repository → Value P
  outbound_value : Outbound → Value P
  token_value : String → Value P

pub data Ctx (P : Platform) : Type 0 where
  background : Ctx P
  with_value : CtxKey → Value P → Ctx P → Ctx P
  with_cancel : Ctx P → Ctx P

-- All that a request's context tells the program.
pub record View (P : Platform) : Type 0 where
  pub user : Option JwtUser
  pub tx : Option P.Tx
  pub logger : Option Log
  pub repo : Option Repository
  pub outbound : Option Outbound
  pub token : Option String

abbrev key_eq : CtxKey → CtxKey → Bool
key_eq tx_key tx_key = true
key_eq user_key user_key = true
key_eq logger_ctx_key logger_ctx_key = true
key_eq repo_key repo_key = true
key_eq outbound_key outbound_key = true
key_eq token_key token_key = true
key_eq _ _ = false

unfoldable pub set_tx_ctx : (P : Platform) → Ctx P → P.Tx → Ctx P
set_tx_ctx P ctx tx = with_value tx_key (tx_value tx) ctx

module _ {P : Platform} where
  -- `ctx.Value(key)`.
  value : CtxKey → Ctx P → Option (Value P)
  value k background = none
  value k (with_value j v ctx) = elim (key_eq j k) [ true ↦ some v | false ↦ value k ctx ]
  value k (with_cancel ctx) = value k ctx

  abbrev as_user : Option (Value P) → Option JwtUser
  as_user (some (user_value u)) = some u
  as_user _ = none

  abbrev as_tx : Option (Value P) → Option P.Tx
  as_tx (some (tx_value t)) = some t
  as_tx _ = none

  abbrev as_logger : Option (Value P) → Option Log
  as_logger (some (logger_value l)) = some l
  as_logger _ = none

  -- The type assertions are made by the handlers.
  abbrev as_repo : Option (Value P) → Option Repository
  as_repo (some (repo_value r)) = some r
  as_repo _ = none

  abbrev as_outbound : Option (Value P) → Option Outbound
  as_outbound (some (outbound_value o)) = some o
  as_outbound _ = none

  abbrev as_token : Option (Value P) → Option String
  as_token (some (token_value t)) = some t
  as_token _ = none

  unfoldable pub set_user_ctx : Ctx P → JwtUser → Ctx P
  set_user_ctx ctx u = with_value user_key (user_value u) ctx

  unfoldable pub get_user_ctx : Ctx P → Option JwtUser
  unfolding value
  get_user_ctx ctx = as_user (value user_key ctx)

  unfoldable pub get_tx_ctx : Ctx P → Option P.Tx
  unfolding value
  get_tx_ctx ctx = as_tx (value tx_key ctx)

  unfoldable pub set_logger_to_context : Ctx P → Log → Ctx P
  set_logger_to_context ctx l = with_value logger_ctx_key (logger_value l) ctx

  unfoldable pub get_logger_from_context : Ctx P → Option Log
  unfolding value
  get_logger_from_context ctx = as_logger (value logger_ctx_key ctx)

  unfoldable pub set_repo_ctx : Ctx P → Repository → Ctx P
  set_repo_ctx ctx r = with_value repo_key (repo_value r) ctx

  unfoldable pub get_repo_ctx : Ctx P → Option Repository
  unfolding value
  get_repo_ctx ctx = as_repo (value repo_key ctx)

  unfoldable pub set_outbound_ctx : Ctx P → Outbound → Ctx P
  set_outbound_ctx ctx o = with_value outbound_key (outbound_value o) ctx

  unfoldable pub get_outbound_ctx : Ctx P → Option Outbound
  unfolding value
  get_outbound_ctx ctx = as_outbound (value outbound_key ctx)

  unfoldable pub set_token_ctx : Ctx P → String → Ctx P
  set_token_ctx ctx t = with_value token_key (token_value t) ctx

  unfoldable pub get_token_ctx : Ctx P → Option String
  unfolding value
  get_token_ctx ctx = as_token (value token_key ctx)

  pub view : Ctx P → View P
  view ctx = record {
    user = get_user_ctx ctx;
    tx = get_tx_ctx ctx;
    logger = get_logger_from_context ctx;
    repo = get_repo_ctx ctx;
    outbound = get_outbound_ctx ctx;
    token = get_token_ctx ctx;
  }

  -- Each setter changes exactly what its own getter reads, to the value that it stores: all five others
  -- read as before. A cancellation layer changes none of the six.
  pub set_get :
      (ctx : Ctx P) (u : JwtUser) (t : P.Tx) (l : Log) (r : Repository) (o : Outbound)
      (tok : String)
      → let v = view ctx in
        (view (set_user_ctx ctx u) ≡ record v { user = some u })
        × (view (set_tx_ctx P ctx t) ≡ record v { tx = some t })
        × (view (set_logger_to_context ctx l) ≡ record v { logger = some l })
        × (view (set_repo_ctx ctx r) ≡ record v { repo = some r })
        × (view (set_outbound_ctx ctx o) ≡ record v { outbound = some o })
        × (view (set_token_ctx ctx tok) ≡ record v { token = some tok })
        × (view (with_cancel ctx) ≡ v)
  unfolding view set_user_ctx get_user_ctx set_tx_ctx get_tx_ctx set_logger_to_context
      get_logger_from_context set_repo_ctx get_repo_ctx set_outbound_ctx get_outbound_ctx
      set_token_ctx get_token_ctx
  set_get ctx u t l r o tok = (refl, refl, refl, refl, refl, refl, refl)
