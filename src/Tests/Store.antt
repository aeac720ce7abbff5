-- ===== src/Tests/Store.antt =====
-- pkg/store at concrete inputs.
use apexio.Base.{
  ℕ, zero, suc, ◌≡◌, ◌↔◌, refl, none, some, [], ◌∷◌, ◌++◌, true, false, ok, err, List, Option,
  arith, All,
}
use apexio.Base.Int.{pos}
use apexio.Base.Text.{codes}
use apexio.Errors.{Err, library}
use apexio.Schema.Event.Valid.{IsValid}
use apexio.Store.Memory.{new_memory, write_batch, write_batch-ok_iff}
use apexio.Store.ClickHouse.{Driver, Options, Row, ClickHouseConfig, ClickHouse, ping_loop}
use apexio.Store.ClickHouse
use apexio.Store.ClickHouse.Insert.{Inserts, Written, write_batch-Written}
use apexio.Tests.Platform.{unicode}
use apexio.Tests.Data.{event, second}

write_batch-ok_iff_example :
    (write_batch none (event ∷ second ∷ []) new_memory
      ≡ (none, record { closed = false; events = event ∷ second ∷ [] }))
    ↔ ((◌≡◌ {A = Option Err} none none) × All IsValid (event ∷ second ∷ []) × (false ≡ false))
write_batch-ok_iff_example = write_batch-ok_iff none event (second ∷ []) new_memory

-- A server that keeps its rows and answers a ping once `down` pings have failed.
record Server : Type 0 where
  down : ℕ
  rows : List Row

abbrev answer_ping : Server → Option Err × Server
answer_ping s = elim s.down [ zero ↦ (none, s) | suc n ↦ (some (library 1), record s { down = n }) ]

abbrev driver : Driver
driver = record {
  Conn = Server;
  Batch = List Row;
  parse_dsn = λ dsn. err (library 2);
  open_conn = λ opts. ok (record { down = 2; rows = [] });
  ping = answer_ping;
  close = λ s. (none, s);
  prepare_batch = λ ctx query s. (ok [], s);
  append = λ r batch. (none, batch ++ r ∷ []);
  send = λ batch s. (none, record s { rows = s.rows ++ batch });
}

driver-Inserts : Inserts driver
driver-Inserts = record {
  inserted = λ s. s.rows;
  pending = λ batch. batch;
  inserted-prepare_batch = λ ctx query s. refl;
  pending-prepare_batch = λ ctx query s batch same. ground arith;
  pending-append = λ r batch done. refl;
  inserted-send = λ batch s done. refl;
}

abbrev starting : Server
starting = record { down = 2; rows = [] }

abbrev clickhouse : ClickHouse driver
clickhouse = record {
  cfg = record {
    dsn = [];
    addr = codes "localhost:9000";
    database = codes "apexio";
    table = codes "logs";
    username = codes "default";
    password = [];
    ping_attempts = pos 0;
  };
  has_conn = true;
  conn = record { down = 0; rows = [] };
  closed = false;
}

write_batch-Written_example :
    Written driver driver-Inserts
      (event ∷ second ∷ [])
      clickhouse
      (ClickHouse.write_batch driver none (event ∷ second ∷ []) clickhouse)
write_batch-Written_example =
    write_batch-Written driver driver-Inserts none (event ∷ second ∷ []) clickhouse
