-- ===== src/Pipeline/Sample.antt =====
-- The way of a log from examples/sample-client/main.go through the gateway and the writer.
use apexio.Base.{ℕ, ◌≡◌, refl, ◌∙◌, ap, Option, none, some, List, [], ◌∷◌, ◌++◌}
use apexio.Base.Text.{Text, Unicode, HasCases}
use apexio.Broker.Interface.{Publisher, IsLog, Message, CarriesAll}
use apexio.Client.{Now, Encoders, send_rest}
use apexio.Client.Sent.{Agree, to_gateway, Sent, send_rest-Sent}
use apexio.Errors.{Err, Ctx}
use apexio.Gateway.Ingest.{Decoders, Gateway}
use apexio.Gateway.Wiring.{Settings}
use apexio.Pipeline.{at_offsets, stored-drained}
use apexio.Schema.Event.{LogEvent}
use apexio.Schema.Scan.{Floats}
use apexio.Schema.Time.{Time}
use apexio.Schema.Wire.{Codec, ReadsBack}
use apexio.Schema.Wire.RoundTrip.{delivered}
use apexio.Store.Interface.{Store, IsAtomic}
use apexio.Writer.Batch.{BatchConfig, Sink}
use apexio.Writer.Consumer.{Turn, Consumer, running, run_consumer}
use apexio.Writer.Consumer.Delivery.{fetched_all}

module _ ⦃u : Unicode⦄ ⦃f : Floats⦄ ⦃c : Codec⦄ (cases : HasCases u) (reads : ReadsBack c)
    (P : Publisher) (L : IsLog P) (D : Decoders) (cfg : Settings) (ctx : ℕ → Ctx) (clock : ℕ → Time)
    (E : Encoders) (A : Agree E D) (now : Now) (S : Store) (I : IsAtomic S)
    (batches : BatchConfig) where
  single_log :
      (message service : Text) (g : Gateway P) (out : Option Err × Gateway P)
      → out.0 ≡ none
      → Sent P L D cfg ctx clock message service g out
      → (e : LogEvent) × (msg : Message) × (e.message ≡ message)
        × (e.service ≡ service)
        × CarriesAll cfg.topic (e ∷ []) (msg ∷ [])
        × (L.published out.1.bus ≡ L.published g.bus ++ msg ∷ [])
  single_log message service g (some x, g') done sent = cc
  single_log message service g (none, g') done (e, msg, has_message, has_service, carried, put) =
      (e, msg, has_message, has_service, (carried, refl), put)

  -- A log that the sample client sends over REST without an error to a gateway over a publisher
  -- that is an empty log, and whose message a writer then fetches, is in the store once nothing is
  -- pending: as the one event, with the message and the service that were sent. The store is atomic
  -- and empty at the start, the encoders of the client and the decoders of the gateway agree, the
  -- case tables are as documented, and the codec reads back what it has written.
  pub run_consumer-send_rest :
      (base message service : Text) (g : Gateway P)
      → (send_rest (to_gateway P L D cfg ctx clock base) E now base message service g).0 ≡ none
      → L.published g.bus ≡ []
      → (ts : List Turn) (k : Sink S) → I.stored k.store ≡ []
      → fetched_all ts
        ≡ at_offsets 0 (
            L.published
              (send_rest (to_gateway P L D cfg ctx clock base) E now base message service g).1.bus)
      → (w : Consumer S) → run_consumer S batches cfg.topic ts k ≡ running w
      → w.msgs ≡ []
      → (e : LogEvent) × (I.stored w.sink.store ≡ e ∷ [])
        × (e.message ≡ message)
        × (e.service ≡ service)
  run_consumer-send_rest base message service g done empty ts k start fetched w runs drained =
      let (e, msg, has_message, has_service, carried, put) =
        single_log message service g _ done
          (send_rest-Sent P L D cfg ctx clock E A now base message service g) in
      (
        delivered e,
        stored-drained cases reads S I batches cfg.topic (e ∷ []) (msg ∷ []) carried ts k start
            (fetched ∙ ap (at_offsets 0) (put ∙ ap (λ l. l ++ msg ∷ []) empty)) w runs drained,
        has_message,
        has_service,
      )
