-- ===== src/Writer/Consumer/Shutdown.antt =====
-- What becomes of the pending batch when the context is done.
use apexio.Base.{ℕ, ◌≡◌, refl, ◌∙◌, ap, true, some, List, ◌∷◌, err, arith}
use apexio.Base.Text.{Unicode}
use apexio.Errors.{
  Err, wrap, write_retries, is_canceled, is_canceled-not_deadline, is_canceled-wrap,
}
use apexio.Schema.Event.{LogEvent}
use apexio.Schema.Wire.{Codec}
use apexio.Store.Interface.{Store, ChecksContext}
use apexio.Writer.Metrics.{inc_write_errors}
use apexio.Writer.Batch.{BatchConfig, to_nat}
use apexio.Writer.Batch.Retry.{flush_done}
use apexio.Writer.Consumer.{Turn, Consumer, stopped, flush, on_fetched, on_error, step}

module _ ⦃u : Unicode⦄ ⦃d : Codec⦄ (S : Store) (C : ChecksContext S) (cfg : BatchConfig) where
  -- The error with which the flush of a context that is done ends, and the state behind it.
  abbrev pub given_up : Err → Err
  given_up x = wrap (write_retries (to_nat cfg.max_retries)) x

  abbrev pub unwritten : Consumer S → Consumer S
  unwritten c = record c { sink = record (c.sink) { metrics = inc_write_errors c.sink.metrics } }

  flush-done :
      (t : Turn) (c : Consumer S) (x : Err) (ev : LogEvent) (events : List LogEvent)
      → c.events ≡ ev ∷ events
      → ((n : ℕ) → t.ctx n ≡ some x)
      → flush S cfg t c ≡ (some (given_up x), unwritten c)
  unfolding flush
  flush-done t c x ev events pending gone =
      ground (arith, flush_done S cfg t.ctx C x gone ev events c.sink)

  -- Over a store that checks its context, a fetch that is cancelled while events are pending ends
  -- the loop with the error of the last flush, which is still `context.Canceled`, and changes
  -- nothing but the count of write errors: the pending events are neither written nor committed.
  pub step-canceled :
      (t : Turn) (c : Consumer S) (x : Err) (ev : LogEvent) (events : List LogEvent)
      → t.fetched ≡ err x
      → is_canceled x ≡ true
      → c.events ≡ ev ∷ events
      → ((n : ℕ) → t.ctx n ≡ some x)
      → (step S cfg t c ≡ stopped (some (given_up x)) (unwritten c))
        × (is_canceled (given_up x) ≡ true)
  unfolding step on_error
  step-canceled t c x ev events fetched canceled pending gone = (
    ap (λ r. on_fetched S cfg t r c) fetched
        ∙ rw
            (is_canceled-not_deadline x canceled, canceled, flush-done t c x ev events pending gone)
            refl,
    is_canceled-wrap _ x ∙ canceled,
  )
