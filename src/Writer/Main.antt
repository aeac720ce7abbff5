-- ===== src/Writer/Main.antt =====
-- cmd/writer/main.go, `main`: the store that it opens, the consumer loop, and how the process ends.
-- The log lines and the signals, which end the context, are not modelled, nor a health server that
-- cannot listen, which ends the process at any time; its mux is in Writer/Health.
pub mod Exits
use apexio.Base.{Bool, true, false, Option, none, some, List, Result, ok, err, if◌then◌else◌}
use apexio.Base.Int.{ℤ, pos}
use apexio.Base.Text.{Text, Unicode}
use apexio.Errors.{Err, is_canceled}
use apexio.Os.{Env}
use apexio.Schema.Wire.{Codec}
use apexio.Store.ClickHouse.{Driver, ClickHouse, new_clickhouse, close}
use apexio.Store.ClickHouse.Tracks.{clickhouse_store}
use apexio.Writer.Batch.{Sink, with_defaults}
use apexio.Writer.Consumer.{Turn, Consumer, Outcome, running, stopped, run_consumer}
use apexio.Writer.Metrics.{no_metrics}
use apexio.Writer.Settings.{topic, store_config, batch_config}
use apexio.Writer.Settings.Numbers.{Fractions}

module _ ⦃u : Unicode⦄ (D : Driver) where
  -- How far the process is: `store_failed` and `subscribe_failed` are the two `log.Fatalf`, behind
  -- which no deferred call runs; `clean` is the return of `main`, behind the deferred `db.Close`.
  pub data Process : Type 0 where
    store_failed : Err → Process
    consuming : Consumer (clickhouse_store D) → Process
    subscribe_failed : Err → Consumer (clickhouse_store D) → Process
    clean : Consumer (clickhouse_store D) → Process

  -- The deferred `db.Close`.
  unfoldable pub close_store : Consumer (clickhouse_store D) → Consumer (clickhouse_store D)
  close_store c = record c { sink = record (c.sink) { store = (close D c.sink.store).1 } }

  -- The error of `runConsumer`: nil and `context.Canceled` are a clean end.
  unfoldable pub end_of : Outcome (clickhouse_store D) → Process
  end_of (running c) = consuming c
  end_of (stopped none c) = clean (close_store c)
  end_of (stopped (some x) c) =
      if is_canceled x then clean (close_store c) else subscribe_failed x c

  module _ ⦃d : Codec⦄ ⦃r : Fractions⦄ where
    -- The sink of the batch processor, over the store that was opened.
    abbrev pub sink_over : ClickHouse D → Sink (clickhouse_store D)
    sink_over c = record { store = c; metrics = no_metrics }

    unfoldable pub main : Env → List Turn → Process
    main env ts = elim (new_clickhouse D (store_config env)).0 [
      | err x ↦ store_failed x
      | ok c ↦ end_of (
          run_consumer (clickhouse_store D) (with_defaults (batch_config env)) (topic env) ts
            (sink_over c))
    ]
