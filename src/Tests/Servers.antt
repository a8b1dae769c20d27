-- ===== src/Tests/Servers.antt =====
-- Witnesses for the REST, gRPC and Kafka servers.
use boilerplate_go_be.Base.{pos, refl, ◌≡◌, false, none, some, [], ◌∷◌}
use boilerplate_go_be.Runtime.{raise, Prog, pure}
use boilerplate_go_be.Dto.{Item, zero_item}
use boilerplate_go_be.Json.{json, marshal_item, obj, field, end, str}
use boilerplate_go_be.Logger.{info}
use boilerplate_go_be.Platform.{KafkaMessage}
use boilerplate_go_be.World.{World, JwtService, log_f}
use boilerplate_go_be.World.Ctx.{Ctx, set_logger_to_context}
use boilerplate_go_be.Items.Service
use boilerplate_go_be.Items.Store.{named}
use boilerplate_go_be.Rest.{Reply}
use boilerplate_go_be.Rest.Middleware.{Exchange, Request, Handler, recover_middleware}
use boilerplate_go_be.Startup.{with_logger}
use boilerplate_go_be.Rest.Auth.{all_open, Guarded, auth_middleware-guards}
use boilerplate_go_be.Rest.Recovery.{Answered, recover_middleware-answers}
use boilerplate_go_be.Grpc.{Answer, answer, Incoming, served}
use boilerplate_go_be.Grpc.Calls.{shielded, served-shielded}
use boilerplate_go_be.Kafka.{ItemEvent, decode_message, handle_body, handle_message}
use boilerplate_go_be.Kafka.Events.{decode-old_format, contained, handle_message-contained}
use boilerplate_go_be.Tests.Memory.{Memory, log, world, context}

abbrev pub request : Request Memory
request = record {
  ctx = set_logger_to_context context log;
  method = "GET";
  path = "/items";
  content = "";
  authorization = "Bearer good";
  parent_id = "";
}

abbrev pub fresh_reply : Reply
fresh_reply = record { header = []; sent = none; body = []; layers = [] }

abbrev pub exchange : Exchange Memory
exchange = record { world = world; reply = fresh_reply }

abbrev pub fine : Handler Memory
fine r = pure tt

abbrev pub crashing : Handler Memory
crashing r = raise "boom"

auth_middleware-guards_example : Guarded Memory fine crashing request exchange
auth_middleware-guards_example = auth_middleware-guards Memory fine crashing request exchange

-- A process that has not initialised its JWT service.
abbrev pub starting : World Memory
starting = record world { jwt = record { once_done = false; instance_ = none } }

abbrev pub started : World Memory
started = (with_logger Memory log starting).1

recover_middleware-answers_example :
    Answered Memory (recover_middleware Memory log crashing request exchange)
unfolding all_open
recover_middleware-answers_example =
    recover_middleware-answers Memory log crashing request exchange exchange "boom" refl refl refl
      refl

abbrev crash : Prog (World Memory) (Answer Item)
crash = raise "boom"

served-shielded_example :
    (served Memory log crash world).0
    ≡ shielded (crash (log_f {P = Memory} log info "gRPC call: %s" world).1).0
served-shielded_example = served-shielded Memory log crash world

abbrev incoming : Incoming Memory
incoming = record {
  ctx = set_logger_to_context context log;
  metadata = ("parent-id", "p") ∷ ("authorization", "Bearer bad") ∷ [];
}

abbrev method : Ctx Memory → Service.Service → Prog (World Memory) (Answer Item)
method ctx svc = pure (answer zero_item)

abbrev with_key : JwtService Memory
with_key = record { private_key = none; public_key = some tt }

abbrev crash_message : KafkaMessage
crash_message = record {
  key = "0";
  value = json (obj (field "action" (str "crash") end));
  headers = ("parent-id", "p") ∷ [];
}

handle_message-contained_example :
    (handle_message Memory log context crash_message world).0
    ≡ contained (handle_body Memory log context crash_message world).0
handle_message-contained_example = handle_message-contained Memory log context crash_message world

abbrev event : ItemEvent
event = record { action = "update"; item = named (pos 4) "jar"; id = pos 4 }

decode-old_format_example :
    decode_message (json (marshal_item (named (pos 4) "jar")))
    ≡ some (record { action = ""; item = zero_item; id = pos 4 })
decode-old_format_example = decode-old_format (named (pos 4) "jar")
