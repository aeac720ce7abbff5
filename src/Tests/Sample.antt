-- ===== src/Tests/Sample.antt =====
-- A log of the sample client on its way to a store in memory.
use apexio.Base.{Option, ℕ, ◌≡◌, refl, sym, ap, none, List, [], ◌∷◌, ok}
use apexio.Base.Text.{Text, codes, split, text_eq, trim_space, to_upper}
use apexio.Client.{rest_payload, send_rest}
use apexio.Client.Sent.{to_gateway}
use apexio.Gateway.Ingest.{Gateway}
use apexio.Gateway.Wiring.{Settings, serve, routes, log_route}
use apexio.Gateway.Rest.{serve_rest}
use apexio.Gateway.Publish.{publish_events, publish_from}
use apexio.Http.Mux.{serve_mux, route_of, clean_path, clean_parts}
use apexio.Auth.{chain, chain_from, api_key}
use apexio.Schema.Level.{normalize_log_level, valid_log_level, known_level}
use apexio.Schema.Time.{is_zero, in_json_years, unix_milli}
use apexio.Schema.Scan.{is_finite}
use apexio.Schema.Wire.{json_marshal, has_json, members, marshal_event, unmarshal_event}
use apexio.Schema.Wire.RoundTrip.{delivered, unmarshal_event-marshal_event}
use apexio.Base.Int.{pos, int64}
use apexio.Writer.Batch
use apexio.Writer.Batch.{BatchConfig, write_with_retry, retry}
use apexio.Writer.Metrics.{inc_events_written, inc_batches_flushed}
use apexio.Writer.Consumer.{
  Turn, Consumer, running, flush, flush_if_full, on_message, step, run, run_consumer,
}
use apexio.Writer.Consumer.Delivery.{fetched_all}
use apexio.Pipeline.Sample.{run_consumer-send_rest}
use apexio.Pipeline.{at_offsets}
use apexio.Schema.Event.{LogEvent, default_topic, validate}
use apexio.Errors.{Err}
use apexio.Schema.Rest.{from_rest, rest_event, rest_time}
use apexio.Tests.Client.{agree, decoders, encoders, now, get, put}
use apexio.Tests.Codec.{codec, codec-ReadsBack}
use apexio.Tests.Data.{noon}
use apexio.Tests.Pipeline.{
  message, log_publisher, log_publisher-IsLog, open_store, open_store-IsAtomic, settings, fetches,
  sink,
}
use apexio.Tests.Platform.{unicode, unicode-HasCases, floats}

abbrev gateway_settings : Settings
gateway_settings = record {
  addr = codes ":8080";
  otlp_grpc_addr = codes ":4317";
  brokers = codes "localhost:19092" ∷ [];
  topic = default_topic;
  client_id = codes "apexio-gateway";
  key = [];
  key_header = codes "X-API-Key";
}

abbrev start : Gateway log_publisher
start = record {
  bus = [];
  metrics = record { rest_ok = 0; rest_err = 0; otlp_ok = 0; otlp_err = 0; otlp_logs = 0 };
}

abbrev url : Text
url = codes "http://gateway:8080"

abbrev sent : Option Err × Gateway log_publisher
sent =
    send_rest
      (to_gateway log_publisher log_publisher-IsLog decoders gateway_settings (λ i. none)
        (λ i. noon) url)
      encoders now url (codes "hello") (codes "shop") start

-- The event that the gateway makes of it.
abbrev sent_event : LogEvent
sent_event = rest_event noon (rest_payload now (codes "hello") (codes "shop"))

abbrev sent_bytes : List ℕ
sent_bytes = codec.encode (members sent_event)

sent-done : sent.0 ≡ none
unfolding send_rest rest_payload serve serve_mux routes route_of clean_path clean_parts split
    text_eq log_route chain chain_from api_key trim_space serve_rest from_rest rest_event rest_time
    unix_milli int64 publish_events publish_from marshal_event validate valid_log_level known_level
    to_upper is_zero json_marshal has_json in_json_years is_finite get put normalize_log_level
sent-done = refl

sent-published : sent.1.bus ≡ message default_topic sent_bytes ∷ []
unfolding send_rest rest_payload serve serve_mux routes route_of clean_path clean_parts split
    text_eq log_route chain chain_from api_key trim_space serve_rest from_rest rest_event rest_time
    unix_milli int64 publish_events publish_from marshal_event validate valid_log_level known_level
    to_upper is_zero json_marshal has_json in_json_years is_finite get put normalize_log_level
sent-published = refl

marshal-sent : marshal_event sent_event ≡ ok sent_bytes
unfolding rest_payload text_eq trim_space rest_event rest_time unix_milli int64 marshal_event
    validate valid_log_level known_level to_upper is_zero json_marshal has_json in_json_years
    is_finite normalize_log_level
marshal-sent = refl

read-sent : unmarshal_event sent_bytes ≡ ok (delivered sent_event)
read-sent = unmarshal_event-marshal_event unicode-HasCases codec-ReadsBack sent_event marshal-sent

abbrev one_by_one : BatchConfig
one_by_one = record settings { batch_size = pos 1 }

abbrev turns : List Turn
turns = fetches 0 sent_bytes ∷ []

-- The writer once the message is committed.
abbrev drained : Consumer open_store
drained = record {
  events = [];
  msgs = [];
  committed = fetched_all turns;
  sink = record {
    store = delivered sent_event ∷ [];
    metrics = record { events_written = 1; batches_flush = 1; decode_errors = 0; write_errors = 0 };
  };
}

runs-turns : run_consumer open_store one_by_one default_topic turns sink ≡ running drained
unfolding run_consumer run step flush_if_full flush Batch.flush write_with_retry retry
    inc_events_written inc_batches_flushed on_message
runs-turns = rw (read-sent, on_message) refl

run_consumer-send_rest_example :
    (e : LogEvent) × (drained.sink.store ≡ e ∷ [])
    × (e.message ≡ codes "hello")
    × (e.service ≡ codes "shop")
run_consumer-send_rest_example =
    run_consumer-send_rest unicode-HasCases codec-ReadsBack log_publisher log_publisher-IsLog
      decoders gateway_settings (λ i. none) (λ i. noon) encoders agree now open_store
      open_store-IsAtomic one_by_one url (codes "hello") (codes "shop") start sent-done refl turns
      sink refl (sym (ap (at_offsets 0) sent-published)) drained runs-turns refl
