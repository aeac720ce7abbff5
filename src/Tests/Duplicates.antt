-- ===== src/Tests/Duplicates.antt =====
-- cmd/writer over a ClickHouse server that loses the answer to a batch it has inserted.
use apexio.Base.{
  ◌≡◌, ℕ, if◌then◌else◌, zero, suc, refl, none, some, [], ◌∷◌, ◌++◌, true, false, ok, err, List,
  Option, arith,
}
use apexio.Base.Int.{pos}
use apexio.Base.Text.{codes, text_eq}
use apexio.Errors.{Err, library}
use apexio.Os.{Env}
use apexio.Schema.Event.{default_topic}
use apexio.Store.ClickHouse.{Driver, Row}
use apexio.Store.ClickHouse.Insert.{Inserts}
use apexio.Store.ClickHouse.Tracks.{Keeps, clickhouse_store, clickhouse_tracks}
use apexio.Writer.Batch.{Sink}
use apexio.Writer.Consumer.{run_consumer}
use apexio.Writer.Consumer.ClickHouse.{run_consumer-HasRows}
use apexio.Writer.Consumer.Delivery.{Holds, fetched_all}
use apexio.Writer.Main.{main}
use apexio.Writer.Main.Exits.{ClosesOnly, Left, main-Left}
use apexio.Tests.Codec.{codec}
use apexio.Tests.Platform.{unicode}
use apexio.Tests.Settings.{fractions}
use apexio.Tests.Writer.{settings, turns}

-- The answers to the next `lost` batches are lost.
record Server : Type 0 where
  lost : ℕ
  rows : List Row

abbrev add : Server → List Row → Server
add s batch = record s { rows = s.rows ++ batch }

abbrev send : List Row → Server → Option Err × Server
send batch s = elim s.lost [
  | zero ↦ (none, add s batch)
  | suc n ↦ (some (library 1), record (add s batch) { lost = n })
]

abbrev driver : Driver
driver = record {
  Conn = Server;
  Batch = List Row;
  parse_dsn = λ dsn. err (library 2);
  open_conn = λ opts. ok (record { lost = 1; rows = [] });
  ping = λ s. (none, s);
  close = λ s. (none, s);
  prepare_batch = λ ctx query s. (ok [], s);
  append = λ r batch. (none, batch ++ r ∷ []);
  send = send;
}

rows-send : (batch : List Row) (s : Server) → (send batch s).1.rows ≡ s.rows ++ batch
rows-send batch s = ground arith

driver-Inserts : Inserts driver
driver-Inserts = record {
  inserted = λ s. s.rows;
  pending = λ batch. batch;
  inserted-prepare_batch = λ ctx query s. refl;
  pending-prepare_batch = λ ctx query s batch same. ground arith;
  pending-append = λ r batch done. refl;
  inserted-send = λ batch s done. rows-send batch s;
}

driver-Keeps : Keeps driver driver-Inserts
unfolding driver-Inserts
driver-Keeps = record { inserted-send_any = λ batch s. (batch, rows-send batch s) }

abbrev sink : Sink (clickhouse_store driver)
sink = record {
  store = record {
    cfg = record {
      dsn = [];
      addr = codes "localhost:9000";
      database = codes "apexio";
      table = codes "logs";
      username = codes "default";
      password = [];
      ping_attempts = pos 0;
    };
    has_conn = true;
    conn = record { lost = 1; rows = [] };
    closed = false;
  };
  metrics = record { events_written = 0; batches_flush = 0; decode_errors = 0; write_errors = 0 };
}

run_consumer-HasRows_example :
    Holds
      (clickhouse_store driver)
      (clickhouse_tracks driver driver-Inserts driver-Keeps)
      settings
      (fetched_all turns)
      (run_consumer (clickhouse_store driver) settings default_topic turns sink)
run_consumer-HasRows_example =
    run_consumer-HasRows driver driver-Inserts driver-Keeps settings default_topic turns sink

driver-ClosesOnly : ClosesOnly driver driver-Inserts
unfolding driver-Inserts
driver-ClosesOnly = record { inserted-close = λ s. refl }

abbrev in_pairs : Env
in_pairs key = if text_eq key (codes "WRITER_BATCH_SIZE") then codes "2" else []

main-Left_example :
    Left driver driver-Inserts driver-Keeps driver-ClosesOnly
      (fetched_all turns)
      (main driver in_pairs turns)
main-Left_example = main-Left driver driver-Inserts driver-Keeps driver-ClosesOnly in_pairs turns
