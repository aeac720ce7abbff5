-- ===== src/Writer/Metrics.antt =====
-- The counters of cmd/writer/metrics.go, which wrap as `atomic.Uint64` does.
use apexio.Base.{ℕ, ◌++◌}
use apexio.Base.Text.{Text, codes}
use apexio.Schema.Otlp.{digits, format_nat}
use apexio.Base.Int.{add_uint64}

pub record WriterMetrics : Type 0 where
  pub events_written : ℕ
  pub batches_flush : ℕ
  pub decode_errors : ℕ
  pub write_errors : ℕ

-- `writerMetrics{}`
abbrev pub no_metrics : WriterMetrics
no_metrics = record { events_written = 0; batches_flush = 0; decode_errors = 0; write_errors = 0 }

unfoldable pub inc_events_written : ℕ → WriterMetrics → WriterMetrics
inc_events_written n m = record m { events_written = add_uint64 m.events_written n }

unfoldable pub inc_batches_flushed : WriterMetrics → WriterMetrics
inc_batches_flushed m = record m { batches_flush = add_uint64 m.batches_flush 1 }

unfoldable pub inc_decode_errors : WriterMetrics → WriterMetrics
inc_decode_errors m = record m { decode_errors = add_uint64 m.decode_errors 1 }

unfoldable pub inc_write_errors : WriterMetrics → WriterMetrics
inc_write_errors m = record m { write_errors = add_uint64 m.write_errors 1 }

-- What `handler` prints.
unfoldable pub metrics_text : WriterMetrics → Text
unfolding digits
metrics_text m =
    codes "# HELP apexio_writer_events_written_total Events persisted to ClickHouse\n"
    ++ codes "# TYPE apexio_writer_events_written_total counter\n"
    ++ codes "apexio_writer_events_written_total "
    ++ format_nat m.events_written
    ++ codes "\n"
    ++ codes "# HELP apexio_writer_batches_flushed_total ClickHouse batch flushes\n"
    ++ codes "# TYPE apexio_writer_batches_flushed_total counter\n"
    ++ codes "apexio_writer_batches_flushed_total "
    ++ format_nat m.batches_flush
    ++ codes "\n"
    ++ codes "# HELP apexio_writer_decode_errors_total Failed event decodes\n"
    ++ codes "# TYPE apexio_writer_decode_errors_total counter\n"
    ++ codes "apexio_writer_decode_errors_total "
    ++ format_nat m.decode_errors
    ++ codes "\n"
    ++ codes "# HELP apexio_writer_write_errors_total Failed batch writes (after retries)\n"
    ++ codes "# TYPE apexio_writer_write_errors_total counter\n"
    ++ codes "apexio_writer_write_errors_total "
    ++ format_nat m.write_errors
    ++ codes "\n"
