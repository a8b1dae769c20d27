-- ===== src/Kafka/Events.antt =====
-- server/kafka/consumer.go from the producer: message formats, failures and panics.
use boilerplate_go_be.Base.{
  ◌∙◌, sym, refl, ◌≡◌, ◌≢◌, arith, String, Option, none, some, List, [], ◌∷◌, str_append,
}
use boilerplate_go_be.Runtime.{Error, new, Outcome, ret, panic, exit}
use boilerplate_go_be.Dto.{Item, zero_item}
use boilerplate_go_be.Json.{json, marshal_item}
use boilerplate_go_be.Logger.{Log, error}
use boilerplate_go_be.Platform.{Platform, KafkaMessage}
use boilerplate_go_be.World.{World, log_f}
use boilerplate_go_be.World.Ctx.{Ctx}
use boilerplate_go_be.Supervisor.{request_restart, request_restart-returns}
use boilerplate_go_be.Kafka.{unmarshal_event, decode_message, handle_body, handle_message, start}

-- An item in the old format is taken for an event without an action, never for a create event.
pub decode-old_format :
    (it : Item)
    → decode_message (json (marshal_item it))
      ≡ some (record { action = ""; item = zero_item; id = it.id })
unfolding decode_message unmarshal_event marshal_item
decode-old_format it = refl

-- What `handleMessage` returns of how its body ends.
unfoldable pub contained : Outcome (Option Error) → Outcome (Option Error)
contained (ret e) = ret e
contained (panic p) = ret (some (new (str_append "panic: " p)))
contained exit = exit

module _ (P : Platform) (log : Log) (ctx : Ctx P) where
  abbrev caught : World P → World P
  caught w = (log_f {P = P} log error "Recovered panic: %v\n%s" w).1

  panicked :
      (m : KafkaMessage) (w : World P) (p : String) (asked : Option Error)
      → (handle_body P log ctx m w).0 ≡ panic p
      → (request_restart P (caught (handle_body P log ctx m w).1)).0 ≡ ret asked
      → (handle_message P log ctx m w).0 ≡ ret (some (new (str_append "panic: " p)))
  unfolding handle_message log_f
  panicked m w p none e asked = ground arith
  panicked m w p (some r) e asked = ground arith

  by_outcome :
      (m : KafkaMessage) (w : World P) (o : Outcome (Option Error))
      → (handle_body P log ctx m w).0 ≡ o
      → (handle_message P log ctx m w).0 ≡ contained o
  unfolding handle_message contained
  by_outcome m w (ret r) e = ground arith
  by_outcome m w (panic p) e =
      let (asked, there) = request_restart-returns P (caught (handle_body P log ctx m w).1) in
      panicked m w p asked e there
  by_outcome m w exit e = ground arith

  -- For any message, `handleMessage` returns the error of its body, and a panic in it as an error with the
  -- panic's value: it never panics itself.
  pub handle_message-contained :
      (m : KafkaMessage) (w : World P)
      → (handle_message P log ctx m w).0 ≡ contained (handle_body P log ctx m w).0
  handle_message-contained m w = by_outcome m w (handle_body P log ctx m w).0 refl

  contained_calm : (o : Outcome (Option Error)) (p : String) → contained o ≢ panic p
  unfolding contained
  contained_calm (ret e) p = λ h. absurd (ground arith)
  contained_calm (panic q) p = λ h. absurd (ground arith)
  contained_calm exit p = λ h. absurd (ground arith)

  continued_by :
      (m : KafkaMessage) (rest : List KafkaMessage) (stop : Error) (w : World P) (p : String)
      → (start P log ctx (m ∷ rest) stop w).0 ≡ panic p
      → (o : Outcome (Option Error)) → (handle_message P log ctx m w).0 ≡ o
      → (w' : World P) × ((start P log ctx rest stop w').0 ≡ panic p)
  unfolding start log_f
  continued_by m rest stop w p h (ret none) e = ((handle_message P log ctx m w).1, ground arith)
  continued_by m rest stop w p h (ret (some r)) e = (
    (log_f {P = P} log error "message processing failed: %v" (handle_message P log ctx m w).1).1,
    ground arith,
  )
  continued_by m rest stop w p h (panic q) e =
      absurd
        (contained_calm (handle_body P log ctx m w).0 q (sym (handle_message-contained m w) ∙ e))
  continued_by m rest stop w p h exit e = absurd (ground arith)

  -- The consumer's loop never panics, whatever messages it is handed: a message that fails or panics is
  -- logged and the next one is read.
  pub start-never_panics :
      (ms : List KafkaMessage) (stop : Error) (w : World P) (p : String)
      → (start P log ctx ms stop w).0 ≢ panic p
  unfolding start
  start-never_panics [] stop w p = λ h. absurd (ground arith)
  start-never_panics (m ∷ rest) stop w p = λ h.
      let (w', e) = continued_by m rest stop w p h (handle_message P log ctx m w).0 refl in
      start-never_panics rest stop w' p e
