-- ===== src/Writer/Batch.antt =====
-- cmd/writer/batch.go: batches that are written with retries. The pauses between attempts change
-- no state and are left out; the context may change during them, so each attempt sees its own.
pub mod Retry
use apexio.Base.{ℕ, zero, suc, ◌-◌, Bool, Option, none, some, List, [], ◌∷◌, length, if◌then◌else◌}
use apexio.Base.Int.{ℤ, pos, negsuc, leb_ℤ}
use apexio.Errors.{Err, Ctx, wrap, write_retries}
use apexio.Schema.Event.{LogEvent}
use apexio.Store.Interface.{Store}
use apexio.Writer.Metrics.{WriterMetrics, inc_events_written, inc_batches_flushed, inc_write_errors}

-- Durations in nanoseconds.
pub record BatchConfig : Type 0 where
  pub batch_size : ℤ
  pub flush_interval : ℤ
  pub max_retries : ℤ
  pub retry_backoff : ℤ

-- The defaults of `newBatchProcessor`.
unfoldable pub with_defaults : BatchConfig → BatchConfig
with_defaults cfg = record {
  batch_size = if leb_ℤ (pos 1) cfg.batch_size then cfg.batch_size else pos 1;
  flush_interval =
      if leb_ℤ cfg.flush_interval (pos 0) then pos 1_000_000_000 else cfg.flush_interval;
  max_retries = if leb_ℤ (pos 1) cfg.max_retries then cfg.max_retries else pos 3;
  retry_backoff = if leb_ℤ cfg.retry_backoff (pos 0) then pos 200_000_000 else cfg.retry_backoff;
}

abbrev pub to_nat : ℤ → ℕ
to_nat (pos n) = n
to_nat (negsuc n) = 0

-- The error of the last attempt, wrapped.
abbrev pub wrap_retries : ℕ → Option Err → Option Err
wrap_retries n none = none
wrap_retries n (some x) = some (wrap (write_retries n) x)

module _ (S : Store) where
  -- What a batch processor changes.
  pub record Sink : Type 0 where
    pub store : S.State
    pub metrics : WriterMetrics

  -- The retry loop at attempt `n`, with `left` attempts behind it.
  unfoldable pub retry : (ℕ → Ctx) → List LogEvent → ℕ → ℕ → S.State → Option Err × S.State
  retry ctx events zero n s = S.write_batch (ctx n) events s
  retry ctx events (suc left) n s =
      let (e, s') = S.write_batch (ctx n) events s in
      elim e [ none ↦ (none, s') | some x ↦ retry ctx events left (suc n) s' ]

  -- `writeWithRetry`. There is at least one attempt, by the defaults.
  unfoldable pub write_with_retry :
      BatchConfig → (ℕ → Ctx) → List LogEvent → S.State → Option Err × S.State
  write_with_retry cfg ctx events s =
      let attempts = to_nat cfg.max_retries in
      let (e, s') = retry ctx events (attempts - 1) 1 s in (wrap_retries attempts e, s')

  abbrev count_write : Option Err → ℕ → WriterMetrics → WriterMetrics
  count_write none n m = inc_batches_flushed (inc_events_written n m)
  count_write (some x) n m = inc_write_errors m

  unfoldable pub flush : BatchConfig → (ℕ → Ctx) → List LogEvent → Sink → Option Err × Sink
  flush cfg ctx [] k = (none, k)
  flush cfg ctx (ev ∷ events) k =
      let (e, s) = write_with_retry cfg ctx (ev ∷ events) k.store in
      (e, record { store = s; metrics = count_write e (length (ev ∷ events)) k.metrics })
