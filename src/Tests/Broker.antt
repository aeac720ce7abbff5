-- ===== src/Tests/Broker.antt =====
-- pkg/broker at concrete inputs.
use apexio.Base.{ℕ, ◌≡◌, refl, none, some, [], ◌∷◌, ◌++◌, ok, List}
use apexio.Base.Dict.{lookup}
use apexio.Errors.{library}
use apexio.Schema.Event.{default_topic}
use apexio.Broker.Interface.{Message, Handler}
use apexio.Broker.Memory.{Memory, slice_at, new_memory, subscribe}
use apexio.Broker.Memory.Delivery.{publish_each, subscribe-publish_each}
use apexio.Broker.Redpanda.{KafkaWriter, Redpanda, Delivery, Session, consume_topic, close}
use apexio.Broker.Redpanda
use apexio.Broker.Redpanda.Commit.{Commits, fetched_messages, Commits-consume_topic}
use apexio.Tests.Codec.{codec}
use apexio.Tests.Platform.{unicode}
use apexio.Tests.Data.{event, second}

-- A handler that keeps the messages it is given.
abbrev keep : Handler (List Message)
keep ctx msg w = (none, w ++ msg ∷ [])

abbrev fresh : Memory (List Message)
fresh = new_memory (List Message)

subscribe-publish_each_example :
    let topic = default_topic in
    let (_, early, v) = subscribe (List Message) none (topic ∷ []) (some keep) fresh [] in
    let (late, v') =
      publish_each (List Message) keep (λ msg w. refl) topic (event ∷ second ∷ []) fresh [] in
    (publish_each (List Message) keep (λ msg w. refl) topic (event ∷ second ∷ []) early v).1
    ≡ (subscribe (List Message) none (topic ∷ []) (some keep) late v').2
unfolding slice_at lookup
subscribe-publish_each_example =
    subscribe-publish_each (List Message) keep (λ msg w. refl) default_topic (event ∷ second ∷ [])
      fresh [] refl refl refl

abbrev kafka_message : List ℕ → Message
kafka_message value = record { topic = default_topic; key = []; value = value }

-- A handler that refuses an empty message.
abbrev careful : Handler (List Message)
careful ctx msg w = elim msg.value [ [] ↦ (some (library 3), w) | _ ∷ _ ↦ (none, w ++ msg ∷ []) ]

abbrev fetch : List ℕ → Delivery
fetch value = record { fetched = ok (kafka_message value); ctx_error = none; commit_error = none }

abbrev deliveries : List Delivery
deliveries = fetch (1 ∷ []) ∷ fetch [] ∷ fetch (2 ∷ []) ∷ []

abbrev nothing_yet : Session (List Message)
nothing_yet = record { world = []; committed = [] }

-- The second message is refused: only the first is committed.
Commits-consume_topic_example :
    Commits careful default_topic
      (fetched_messages deliveries)
      nothing_yet
      (consume_topic (List Message) careful default_topic deliveries nothing_yet)
Commits-consume_topic_example = Commits-consume_topic careful default_topic deliveries nothing_yet
