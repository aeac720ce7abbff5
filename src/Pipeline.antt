-- ===== src/Pipeline.antt =====
-- The way of an event through the program: cmd/gateway/publish.go publishes it, cmd/writer/consumer.go
-- fetches its message, and the store gets it.
pub mod Sample
use mathlib.Core.Path.{subst}
use apexio.Base.{
  ℕ, suc, ◌≡◌, sym, ◌∙◌, ap, Option, none, some, List, [], ◌∷◌, ◌++◌, map, append-nil,
}
use apexio.Base.Text.{Text, Unicode, HasCases}
use apexio.Errors.{Err, Ctx}
use apexio.Schema.Event.{LogEvent}
use apexio.Schema.Wire.{Codec, ReadsBack, unmarshal_event}
use apexio.Schema.Wire.RoundTrip.{delivered, unmarshal_event-marshal_event}
use apexio.Broker.Interface.{Message, Publisher, IsLog, CarriesAll}
use apexio.Gateway.Publish.{publish_events, Published, Published-publish_events}
use apexio.Store.Interface.{Store, IsAtomic, atomic_tracks}
use apexio.Writer.Batch.{BatchConfig, Sink}
use apexio.Writer.Consumer.{KafkaMessage, Turn, Consumer, running, run_consumer}
use apexio.Writer.Consumer.Messages.{events_of}
use apexio.Writer.Consumer.Flush.{Inv}
use apexio.Writer.Consumer.Delivery.{Holds, fetched_all, run_consumer-Holds}

-- The messages of a log as they are fetched, from an offset on.
abbrev pub at_offsets : ℕ → List Message → List KafkaMessage
at_offsets n [] = []
at_offsets n (msg ∷ msgs) =
    record { topic = msg.topic; offset = n; value = msg.value } ∷ at_offsets (suc n) msgs

module _ ⦃u : Unicode⦄ ⦃c : Codec⦄ (cases : HasCases u) (reads : ReadsBack c) where
  -- What the messages of events carry to the writer.
  events_of-at_offsets :
      (n : ℕ) (topic : Text) (events : List LogEvent) (msgs : List Message)
      → CarriesAll topic events msgs
      → events_of (at_offsets n msgs) ≡ map delivered events
  unfolding events_of
  events_of-at_offsets n topic [] msgs none_left = ap (λ l. events_of (at_offsets n l)) none_left
  events_of-at_offsets n topic (e ∷ events) [] h = elim h [ ]
  events_of-at_offsets n topic (e ∷ events) (msg ∷ msgs) ((payload, encoded, same), later) =
      rw
        (
          ap (λ (m : Message). unmarshal_event m.value) same
              ∙ unmarshal_event-marshal_event cases reads e encoded,
          events_of,
        )
        (ap (λ l. delivered e ∷ l) (events_of-at_offsets (suc n) topic events msgs later))

  module _ (S : Store) (A : IsAtomic S) (cfg : BatchConfig) where
    -- What a writer stores that has fetched and committed the messages of events.
    pub stored-drained :
        (topic : Text) (events : List LogEvent) (msgs : List Message)
        → CarriesAll topic events msgs
        → (ts : List Turn) (k : Sink S) → A.stored k.store ≡ []
        → fetched_all ts ≡ at_offsets 0 msgs
        → (w : Consumer S) → run_consumer S cfg topic ts k ≡ running w
        → w.msgs ≡ []
        → A.stored w.sink.store ≡ map delivered events
    stored-drained topic events msgs carried ts k start fetched w runs drained =
        let v : Inv S (atomic_tracks S A []) cfg (fetched_all ts) w =
          subst (Holds S (atomic_tracks S A []) cfg (fetched_all ts)) runs
            (run_consumer-Holds S A cfg [] topic ts k start) in
        v.stored
        ∙ ap events_of (
            sym (append-nil w.committed)
            ∙ ap (λ l. w.committed ++ l) (sym drained)
            ∙ sym v.all_fetched
            ∙ fetched)
        ∙ events_of-at_offsets 0 topic events msgs carried

  module _ (P : Publisher) (L : IsLog P) (S : Store) (A : IsAtomic S) (cfg : BatchConfig) where
    -- Over a publisher that is a log: events that are published without an error to an empty log,
    -- and whose messages a writer then fetches in their order, are all in the store once nothing
    -- is pending: each once, in the order of publication, with its level in normal form and no
    -- empty attribute map. The store is atomic and empty at the start, the case tables are as
    -- documented, and the codec reads back what it has written.
    pub run_consumer-publish_events :
        (ctx : ℕ → Ctx) (topic : Text) (events : List LogEvent) (bus : P.State)
        → (publish_events P ctx topic events bus).0 ≡ none
        → L.published bus ≡ []
        → (ts : List Turn) (k : Sink S) → A.stored k.store ≡ []
        → fetched_all ts ≡ at_offsets 0 (L.published (publish_events P ctx topic events bus).1)
        → (w : Consumer S) → run_consumer S cfg topic ts k ≡ running w
        → w.msgs ≡ []
        → A.stored w.sink.store ≡ map delivered events
    run_consumer-publish_events ctx topic events bus done empty ts k start fetched w runs drained =
        let (msgs, carried, put) =
          all_published _ done (Published-publish_events P L ctx topic events bus) in
        stored-drained S A cfg topic events msgs carried ts k start
          (fetched ∙ ap (at_offsets 0) (put ∙ ap (λ l. l ++ msgs) empty)) w runs drained
      where
        all_published :
            (o : Option Err × P.State)
            → o.0 ≡ none
            → Published P L 0 topic events (L.published bus) o
            → (msgs : List Message) × CarriesAll topic events msgs
              × (L.published o.1 ≡ L.published bus ++ msgs)
        all_published (none, s) h p = p
        all_published (some x, s) h p = cc
