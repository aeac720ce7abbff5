-- ===== src/Tests/Pipeline.antt =====
-- Two events from the gateway to the store.
use apexio.Base.{
  ℕ, ◌≡◌, refl, sym, ap, none, some, [], ◌∷◌, ◌++◌, false, ok, err, List, Option, map, Result,
}
use apexio.Base.Int.{pos}
use apexio.Base.Text.{Text, trim_space, to_upper}
use apexio.Errors.{Err}
use apexio.Schema.Event.{LogEvent, default_topic, validate}
use apexio.Schema.Level.{normalize_log_level, valid_log_level, known_level}
use apexio.Schema.Time.{is_zero, in_json_years}
use apexio.Schema.Scan.{is_finite}
use apexio.Schema.Wire.{members, json_marshal, has_json, marshal_event, unmarshal_event}
use apexio.Schema.Wire.RoundTrip.{delivered, unmarshal_event-marshal_event}
use apexio.Broker.Interface.{Message, Publisher, IsLog, Carries}
use apexio.Gateway.Publish.{publish_events, publish_from}
use apexio.Store.Interface.{Store, IsAtomic}
use apexio.Writer.Batch
use apexio.Writer.Batch.{BatchConfig, Sink, write_with_retry, retry}
use apexio.Writer.Metrics.{inc_events_written, inc_batches_flushed}
use apexio.Writer.Consumer.{
  Turn, Consumer, running, flush, flush_if_full, on_message, step, run, run_consumer,
}
use apexio.Writer.Consumer.Delivery.{fetched_all}
use apexio.Pipeline.{at_offsets, run_consumer-publish_events}
use apexio.Tests.Codec.{codec, codec-ReadsBack}
use apexio.Tests.Platform.{unicode, unicode-HasCases}
use apexio.Tests.Data.{event, second, event_bytes, second_bytes, marshal-event, marshal-second}

-- A publisher that is no more than its log, and a store that takes every batch.
abbrev pub message : Text → List ℕ → Message
message topic bytes = record { topic = topic; key = []; value = bytes }

abbrev pub put : Text → List Message → Result Err (List ℕ) → Option Err × List Message
put topic s (ok bytes) = (none, s ++ message topic bytes ∷ [])
put topic s (err x) = (some x, s)

abbrev pub log_publisher : Publisher
log_publisher = record {
  State = List Message;
  publish = λ ctx topic e s. put topic s (marshal_event e);
  close = λ s. (none, s);
}

pub put-done :
    (topic : Text) (e : LogEvent) (s : List Message) (r : Result Err (List ℕ))
    → marshal_event e ≡ r
    → (put topic s r).0 ≡ none
    → (msg : Message) × Carries topic e msg × ((put topic s r).1 ≡ s ++ msg ∷ [])
put-done topic e s (ok bytes) same done = (message topic bytes, (bytes, same, refl), refl)
put-done topic e s (err x) same done = cc

pub put_failed :
    (topic : Text) (s : List Message) (r : Result Err (List ℕ)) {x : Err}
    → (put topic s r).0 ≡ some x
    → (put topic s r).1 ≡ s
put_failed topic s (ok bytes) failed = cc
put_failed topic s (err x) failed = refl

abbrev pub log_publisher-IsLog : IsLog log_publisher
log_publisher-IsLog = record {
  published = λ s. s;
  published-publish = λ ctx topic e s done. put-done topic e s (marshal_event e) refl done;
  published-publish_failed = λ ctx topic e s x failed. put_failed topic s (marshal_event e) failed;
}

abbrev pub open_store : Store
open_store = record {
  State = List LogEvent;
  write_batch = λ ctx events s. (none, s ++ events);
  close = λ s. (none, s);
}

pub never_failed :
    (events s : List LogEvent) (x : Err) → ◌≡◌ {A = Option Err} none (some x) → s ++ events ≡ s
never_failed events s x failed = cc

abbrev pub open_store-IsAtomic : IsAtomic open_store
open_store-IsAtomic = record {
  stored = λ s. s;
  stored-write_batch = λ ctx events s done. refl;
  stored-write_batch_failed = λ ctx events s x failed. never_failed events s x failed;
}

abbrev both : List LogEvent
both = event ∷ second ∷ []

published-both :
    publish_events log_publisher (λ i. none) default_topic both []
    ≡ (none, message default_topic event_bytes ∷ message default_topic second_bytes ∷ [])
unfolding publish_events publish_from marshal_event validate trim_space valid_log_level known_level
    to_upper is_zero json_marshal has_json in_json_years is_finite
published-both = refl

abbrev pub settings : BatchConfig
settings = record {
  batch_size = pos 2;
  flush_interval = pos 1_000_000_000;
  max_retries = pos 3;
  retry_backoff = pos 200_000_000;
}

abbrev pub fetches : ℕ → List ℕ → Turn
fetches offset value = record {
  fetched = ok (record { topic = default_topic; offset = offset; value = value });
  ctx = λ n. none;
  commit_error = none;
  ticked = false;
  done = false;
}

abbrev turns : List Turn
turns = fetches 0 event_bytes ∷ fetches 1 second_bytes ∷ []

abbrev pub sink : Sink open_store
sink = record {
  store = [];
  metrics = record { events_written = 0; batches_flush = 0; decode_errors = 0; write_errors = 0 };
}

-- The writer once both messages are committed.
abbrev drained : Consumer open_store
drained = record {
  events = [];
  msgs = [];
  committed = fetched_all turns;
  sink = record {
    store = map delivered both;
    metrics = record { events_written = 2; batches_flush = 1; decode_errors = 0; write_errors = 0 };
  };
}

pub read-event : unmarshal_event event_bytes ≡ ok (delivered event)
read-event = unmarshal_event-marshal_event unicode-HasCases codec-ReadsBack event marshal-event

pub read-second : unmarshal_event second_bytes ≡ ok (delivered second)
read-second = unmarshal_event-marshal_event unicode-HasCases codec-ReadsBack second marshal-second

runs-turns : run_consumer open_store settings default_topic turns sink ≡ running drained
unfolding run_consumer run step flush_if_full flush Batch.flush write_with_retry retry
    inc_events_written inc_batches_flushed on_message members normalize_log_level
runs-turns = rw (read-event, read-second, on_message) refl

run_consumer-publish_events_example : drained.sink.store ≡ map delivered both
run_consumer-publish_events_example =
    run_consumer-publish_events unicode-HasCases codec-ReadsBack log_publisher log_publisher-IsLog
      open_store open_store-IsAtomic settings (λ i. none) default_topic both []
      (ap (λ (o : Option Err × List Message). o.0) published-both) refl turns sink refl
      (sym (ap (λ (o : Option Err × List Message). at_offsets 0 o.1) published-both)) drained
      runs-turns refl
