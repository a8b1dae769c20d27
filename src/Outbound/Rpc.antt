-- ===== src/Outbound/Rpc.antt =====
-- outbound/transport/grpc.go and outbound/service/example/grpc.go: the gRPC client of the Example service.
-- The one request that the program makes is an `ItemID`, and the one response an `Item`.
use boilerplate_go_be.Base.{
  ℤ, String, str_append, Option, none, some, List, [], ◌∷◌, Dict, insert_all, int32,
}
use boilerplate_go_be.Runtime.{Error, wrap, Result, ok, err, Prog, pure, ◌>>=◌, ◌>>◌}
use boilerplate_go_be.Dto.{Item}
use boilerplate_go_be.Logger.{Log, warn}
use boilerplate_go_be.Platform.{Platform}
use boilerplate_go_be.World.{World, call, log_f, the_cfg}
use boilerplate_go_be.World.Ctx.{Ctx}
use boilerplate_go_be.Outbound.Example.{token_of}

-- The gRPC library's client: `grpc.NewClient`'s verdict on a host, `Invoke` with the metadata as
-- `metadata.New` makes them, and `Close`; `lower` is `strings.ToLower`.
pub record Client (P : Platform) : Type 0 where
  pub new_client : String → Option Error
  pub invoke : String → String → Option ℤ → List (String × String) → P.State → Result Item × P.State
  pub close : P.State → Option Error × P.State
  pub lower : String → String

pub record GrpcOutbound : Type 0 where
  pub host : String
  pub method : String
  pub request : Option ℤ
  pub metadata : Option (Dict String)

unfoldable pub with_rpc_method : String → GrpcOutbound → GrpcOutbound
with_rpc_method method o = record o { method = method }

unfoldable pub with_request : ℤ → GrpcOutbound → GrpcOutbound
with_request id o = record o { request = some id }

abbrev pub or_empty : Option (Dict String) → Dict String
or_empty none = []
or_empty (some m) = m

unfoldable pub with_metadata : Dict String → GrpcOutbound → GrpcOutbound
with_metadata [] o = o
with_metadata (h ∷ hs) o = record o { metadata = some (insert_all (h ∷ hs) (or_empty o.metadata)) }

unfoldable pub replace_metadata : Dict String → GrpcOutbound → GrpcOutbound
replace_metadata [] o = record o { metadata = none }
replace_metadata (h ∷ hs) o = record o { metadata = some (insert_all (h ∷ hs) []) }

module _ {P : Platform} (C : Client P) where
  -- `metadata.New`.
  unfoldable pub metadata_new : Dict String → List (String × String)
  metadata_new [] = []
  metadata_new ((k, v) ∷ m) = (C.lower k, v) ∷ metadata_new m

  unfoldable pub close_conn : Log → Prog (World P) (Unit {0})
  close_conn log = do
    closed ← call P C.close
    elim closed [ some e ↦ log_f log warn "failed to close gRPC connection: %v" | none ↦ pure tt ]

  unfoldable pub invoke : Log → GrpcOutbound → Prog (World P) (Result Item)
  unfolding metadata_new close_conn
  invoke log o = elim (C.new_client o.host) [
    | some e ↦ pure (err e)
    | none ↦ (do
      answered ← call P (C.invoke o.host o.method o.request (metadata_new (or_empty o.metadata)))
      close_conn log
      pure answered)
  ]

  unfoldable pub rpc_headers : Log → Ctx P → Dict String
  unfolding token_of
  rpc_headers log ctx =
      ("Authorization", str_append "Bearer " (token_of ctx)) ∷ ("Parent-Id", log.parent_id) ∷ []

  unfoldable pub rpc_transport : Log → Ctx P → Prog (World P) GrpcOutbound
  unfolding rpc_headers
  rpc_transport log ctx = do
    cfg ← the_cfg
    pure (record {
      host = cfg.service.example.host;
      method = "";
      request = none;
      metadata = some (rpc_headers log ctx);
    })

  unfoldable pub call_error : Result Item → Result Item
  call_error (ok it) = ok it
  call_error (err e) = err (wrap "grpc call failed" e)

  unfoldable pub rpc_get_item : Log → Ctx P → ℤ → Prog (World P) (Result Item)
  unfolding call_error rpc_transport with_rpc_method with_request
  rpc_get_item log ctx id = do
    transport ← rpc_transport log ctx
    answered ←
        invoke log (with_request (int32 id) (with_rpc_method "/pb.ItemService/GetItem" transport))
    pure (call_error answered)
