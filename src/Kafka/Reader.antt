-- ===== src/Kafka/Reader.antt =====
-- `NewConsumer` of server/kafka/consumer.go and `NewExampleKafkaOutbound` of
-- outbound/service/example/kafka.go: what they give the Kafka client.
use boilerplate_go_be.Base.{String, List, ◌≡◌, arith, Option-cases, inl, inr}
use boilerplate_go_be.Runtime.{ret, Prog, pure, ◌>>=◌}
use boilerplate_go_be.Logger.{Log}
use boilerplate_go_be.Platform.{Platform}
use boilerplate_go_be.World.{World, the_cfg}

-- The fields of `kafka.ReaderConfig` that are set, and a consumer with such a reader. Its `handler` is nil,
-- for `handleMessage`.
pub record ReaderConfig : Type 0 where
  pub brokers : List String
  pub topic : String
  pub group_id : String

pub record Consumer : Type 0 where
  pub reader : ReaderConfig
  pub log : Log

-- The arguments of `newKafkaWriter`, and the client with such a writer.
pub record ExampleKafkaOutbound : Type 0 where
  pub brokers : List String
  pub topic : String
  pub log : Log

module _ {P : Platform} where
  unfoldable pub new_consumer : Log → Prog (World P) Consumer
  unfolding the_cfg
  new_consumer log = do
    cfg ← the_cfg
    pure (record {
      reader = record {
        brokers = cfg.kafka.brokers;
        topic = cfg.kafka.topic;
        group_id = cfg.kafka.group_id;
      };
      log = log;
    })

  unfoldable pub new_example_kafka_outbound : Log → Prog (World P) ExampleKafkaOutbound
  unfolding the_cfg
  new_example_kafka_outbound log = do
    cfg ← the_cfg
    pure (record { brokers = cfg.kafka.brokers; topic = cfg.kafka.topic; log = log })

  -- A consumer and a client that are made of one configuration are on one topic of the same brokers.
  one_topic :
      (l l' : Log) (w : World P) (c : Consumer) (o : ExampleKafkaOutbound)
      → (new_consumer l w).0 ≡ ret c
      → (new_example_kafka_outbound l' w).0 ≡ ret o
      → (c.reader.topic ≡ o.topic) × (c.reader.brokers ≡ o.brokers)
  unfolding new_consumer new_example_kafka_outbound the_cfg
  one_topic l l' w c o hc ho = elim (Option-cases w.cfg) [
    | inl nil ↦ absurd (ground arith)
    | inr (cfg, loaded) ↦ (ground arith, ground arith)
  ]
