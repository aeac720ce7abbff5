-- ===== src/Writer/Consumer/ClickHouse.antt =====
-- The loop of cmd/writer/consumer.go over pkg/store/clickhouse.go, as cmd/writer runs it.
use mathlib.Core.List.Sublistᴰ
use apexio.Base.{List}
use apexio.Base.Text.{Text, Unicode}
use apexio.Schema.Wire.{Codec}
use apexio.Store.ClickHouse.{Driver}
use apexio.Store.ClickHouse.Insert.{Inserts}
use apexio.Store.ClickHouse.Tracks.{Keeps, clickhouse_store, clickhouse_tracks}
use apexio.Writer.Batch.{BatchConfig, Sink}
use apexio.Writer.Consumer.{Turn, run_consumer}
use apexio.Writer.Consumer.Delivery.{Holds, fetched_all, run_consumer-tracks}

module _ ⦃u : Unicode⦄ ⦃d : Codec⦄ (D : Driver) (I : Inserts D) (K : Keeps D I)
    (cfg : BatchConfig) where
  -- `runConsumer` over the ClickHouse store, whatever the reader, the server, the ticker and the
  -- context do: while it runs, each message that was fetched is committed or pending, and the rows
  -- of the events of the committed messages are on the server in their order, with others among
  -- them at most (a batch whose `Send` failed may have left rows and is inserted again); when it
  -- has returned, these rows are still there, and a message that was fetched is committed, pending
  -- or dropped without a commit. A message that is committed or pending could be read.
  pub run_consumer-HasRows :
      (topic : Text) (ts : List Turn) (k : Sink (clickhouse_store D))
      → Holds
          (clickhouse_store D)
          (clickhouse_tracks D I K)
          cfg
          (fetched_all ts)
          (run_consumer (clickhouse_store D) cfg topic ts k)
  run_consumer-HasRows topic ts k =
      run_consumer-tracks (clickhouse_store D) (clickhouse_tracks D I K) cfg topic ts k
        (Sublistᴰ.nil-sublist (I.inserted k.store.conn))
