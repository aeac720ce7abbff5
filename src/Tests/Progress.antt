-- ===== src/Tests/Progress.antt =====
-- Three messages, in batches of two, to the in-process store.
use apexio.Base.{◌≡◌, refl, List, [], ◌∷◌, arith}
use apexio.Schema.Event.{default_topic}
use apexio.Schema.Wire.RoundTrip.{delivered}
use apexio.Store.Memory.{new_memory, memory_store, memory_store-IsAtomic, memory_store-Accepts}
use apexio.Writer.Consumer.{Turn, Consumer, running, run_consumer}
use apexio.Writer.Consumer.Delivery.{fetched_all}
use apexio.Writer.Consumer.Progress.{Good, KeepsUp, run_consumer-KeepsUp}
use apexio.Writer.Batch.{Sink}
use apexio.Writer.Metrics.{no_metrics}
use apexio.Tests.Codec.{codec}
use apexio.Tests.Platform.{unicode, unicode-HasCases}
use apexio.Tests.Data.{event, second, event_bytes, second_bytes}
use apexio.Tests.Pipeline.{settings, fetches, read-event, read-second}

abbrev turns : List Turn
turns = fetches 0 event_bytes ∷ fetches 1 second_bytes ∷ fetches 2 event_bytes ∷ []

first-Good : Good (fetches 0 event_bytes)
first-Good = record {
  msg = record { topic = default_topic; offset = 0; value = event_bytes };
  ev = delivered event;
  is_fetched = refl;
  is_read = read-event;
  is_live = refl;
  is_committed = refl;
}

second-Good : Good (fetches 1 second_bytes)
second-Good = record {
  msg = record { topic = default_topic; offset = 1; value = second_bytes };
  ev = delivered second;
  is_fetched = refl;
  is_read = read-second;
  is_live = refl;
  is_committed = refl;
}

third-Good : Good (fetches 2 event_bytes)
third-Good = record {
  msg = record { topic = default_topic; offset = 2; value = event_bytes };
  ev = delivered event;
  is_fetched = refl;
  is_read = read-event;
  is_live = refl;
  is_committed = refl;
}

abbrev sink : Sink memory_store
sink = record { store = new_memory; metrics = no_metrics }

run_consumer-KeepsUp_example :
    (w : Consumer memory_store) × (run_consumer memory_store settings default_topic turns sink
      ≡ running w)
    × KeepsUp memory_store memory_store-Accepts settings unicode-HasCases memory_store-IsAtomic
        (memory_store-IsAtomic.stored new_memory)
        (fetched_all turns)
        w
run_consumer-KeepsUp_example =
    run_consumer-KeepsUp memory_store memory_store-Accepts settings unicode-HasCases
      memory_store-IsAtomic default_topic turns sink refl (omega arith) refl
      (first-Good, (second-Good, (third-Good, tt)))
