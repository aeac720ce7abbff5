-- ===== src/Writer/Consumer.antt =====
-- cmd/writer/consumer.go: the loop that batches messages, writes them and commits their offsets.
-- What the reader, the ticker and the context do in one turn of the loop comes in as a `Turn`.
pub mod Messages
pub mod Flush
pub mod Delivery
pub mod Counters
pub mod Counts
pub mod Bounds
pub mod Progress
pub mod Shutdown
pub mod ClickHouse
use apexio.Base.{
  ℕ, zero, suc, Bool, true, false, Option, none, some, List, [], ◌∷◌, ◌++◌, length, Result, ok, err,
  if◌then◌else◌,
}
use apexio.Base.Int.{ℤ, pos, leb_ℤ}
use apexio.Base.Text.{Text, is_empty, Unicode}
use apexio.Errors.{
  Err, Ctx, wrap, writer_decode, writer_commit, writer_fetch, topic_required, is_canceled,
  is_deadline,
}
use apexio.Schema.Event.{LogEvent}
use apexio.Schema.Wire.{Codec, unmarshal_event}
use apexio.Store.Interface.{Store}
use apexio.Writer.Metrics.{WriterMetrics, inc_decode_errors}
use apexio.Writer.Batch
use apexio.Writer.Batch.{BatchConfig, Sink}

-- `kafka.Message`, as far as it is read.
pub record KafkaMessage : Type 0 where
  pub topic : Text
  pub offset : ℕ
  pub value : List ℕ

-- One turn: what `FetchMessage` gives; the context as each attempt to write sees it; what
-- `CommitMessages` gives if it is called; whether the ticker has fired; and whether `ctx.Err()` is
-- set where the loop asks.
pub record Turn : Type 0 where
  pub fetched : Result Err KafkaMessage
  pub ctx : ℕ → Ctx
  pub commit_error : Option Err
  pub ticked : Bool
  pub done : Bool

module _ (S : Store) where
  -- The variables of `runConsumer`, what it changes, and the messages it has committed so far.
  pub record Consumer : Type 0 where
    pub events : List LogEvent
    pub msgs : List KafkaMessage
    pub committed : List KafkaMessage
    pub sink : Sink S

  -- After a turn the loop goes on, or `runConsumer` has returned.
  pub data Outcome : Type 0 where
    running : Consumer → Outcome
    stopped : Option Err → Consumer → Outcome

  -- The commit behind a batch that was written.
  abbrev commit : Option Err → Consumer → Option Err × Consumer
  commit (some x) c = (some (wrap writer_commit x), c)
  commit none c = (none, record c { events = []; msgs = []; committed = c.committed ++ c.msgs })

  -- The closure `flush`.
  unfoldable pub flush : BatchConfig → Turn → Consumer → Option Err × Consumer
  flush cfg t c =
      let (e, k) = Batch.flush S cfg t.ctx c.events c.sink in
      if is_empty c.events then (none, c) else elim e [
        | some x ↦ (some x, record c { sink = k })
        | none ↦ commit t.commit_error (record c { sink = k })
      ]

  -- `if err := flush(); err != nil { return err }`
  abbrev pub or_return : Option Err × Consumer → Outcome
  or_return (none, c) = running c
  or_return (some x, c) = stopped (some x) c

  -- `continue`, or the return that was made.
  abbrev pub continue : Outcome → (Consumer → Outcome) → Outcome
  continue (running c) rest = rest c
  continue (stopped e c) rest = stopped e c

  -- `return flush()`
  abbrev pub return_flush : Option Err × Consumer → Outcome
  return_flush (e, c) = stopped e c

  -- `if len(events) >= proc.cfg.BatchSize { … }`
  unfoldable pub flush_if_full : BatchConfig → Turn → Consumer → Outcome
  flush_if_full cfg t c =
      if leb_ℤ cfg.batch_size (pos (length c.events)) then or_return (flush cfg t c) else running c

  module _ ⦃u : Unicode⦄ ⦃d : Codec⦄ where
    -- The branch of a message that was fetched.
    unfoldable pub on_message : BatchConfig → Turn → KafkaMessage → Consumer → Outcome
    on_message cfg t msg c = elim (unmarshal_event msg.value) [
      | err x ↦
          stopped (some (wrap writer_decode x))
            (record c { sink = record (c.sink) { metrics = inc_decode_errors c.sink.metrics } })
      | ok ev ↦
          let c' : Consumer = record c {
            events = c.events ++ ev ∷ [];
            msgs = c.msgs ++ msg ∷ [];
          } in
          flush_if_full cfg t c'
    ]

    -- The check of the context at the end of the branch of a timeout.
    abbrev pub check_done : BatchConfig → Turn → Outcome → Outcome
    check_done cfg t (stopped e c) = stopped e c
    check_done cfg t (running c) = if t.done then return_flush (flush cfg t c) else running c

    unfoldable pub on_timeout : BatchConfig → Turn → Consumer → Outcome
    on_timeout cfg t c =
        check_done cfg t (if t.ticked then or_return (flush cfg t c) else running c)

    unfoldable pub on_error : BatchConfig → Turn → Err → Consumer → Outcome
    on_error cfg t x c =
        if is_deadline x
        then on_timeout cfg t c
        else if is_canceled x
        then return_flush (flush cfg t c)
        else stopped (some (wrap writer_fetch x)) c

    -- `if err == nil { … }`
    abbrev pub on_fetched : BatchConfig → Turn → Result Err KafkaMessage → Consumer → Outcome
    on_fetched cfg t (ok msg) c = on_message cfg t msg c
    on_fetched cfg t (err x) c = on_error cfg t x c

    -- One turn of the loop.
    unfoldable pub step : BatchConfig → Turn → Consumer → Outcome
    step cfg t c = on_fetched cfg t t.fetched c

    -- The loop over the turns that the environment gives; behind the last it is still running.
    unfoldable pub run : BatchConfig → List Turn → Consumer → Outcome
    run cfg [] c = running c
    run cfg (t ∷ ts) c = continue (step cfg t c) (run cfg ts)

    -- `runConsumer`
    unfoldable pub run_consumer : BatchConfig → Text → List Turn → Sink S → Outcome
    run_consumer cfg topic ts k =
        let start : Consumer = record { events = []; msgs = []; committed = []; sink = k } in
        if is_empty topic then stopped (some topic_required) start else run cfg ts start
