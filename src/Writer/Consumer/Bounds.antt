-- ===== src/Writer/Consumer/Bounds.antt =====
-- No batch grows beyond the batch size.
use apexio.Base.{
  suc, List, [], ◌∷◌, length, length-append, Result, ok, err, Result-cases, inl, inr, arith,
}
use apexio.Base.Int.{pos, ◌≤ℤ◌}
use apexio.Base.Text.{Unicode}
use apexio.Errors.{Err}
use apexio.Schema.Wire.{Codec, unmarshal_event}
use apexio.Store.Interface.{Store}
use apexio.Writer.Batch.{BatchConfig}
use apexio.Writer.Consumer.{
  KafkaMessage, Turn, Consumer, Outcome, running, stopped, flush, continue, flush_if_full,
  on_fetched, or_return, return_flush, check_done, on_message, on_timeout, on_error, step, run,
}

module _ ⦃u : Unicode⦄ ⦃d : Codec⦄ (S : Store) (cfg : BatchConfig) where
  -- There is room for one more event.
  abbrev HasRoom : Consumer S → Type 0
  HasRoom c = pos (suc (length c.events)) ≤ℤ cfg.batch_size

  -- A loop that runs has room; one that has returned holds a batch at most.
  abbrev pub InBounds : Outcome S → Type 0
  InBounds (running c) = pos (suc (length c.events)) ≤ℤ cfg.batch_size
  InBounds (stopped e c) = pos (length c.events) ≤ℤ cfg.batch_size

  module _ (positive : pos 1 ≤ℤ cfg.batch_size) where
    or_return-flush-InBounds :
        (t : Turn) (c : Consumer S)
        → pos (length c.events) ≤ℤ cfg.batch_size
        → InBounds (or_return S (flush S cfg t c))
    unfolding flush
    or_return-flush-InBounds t c h = ground arith

    return_flush-InBounds :
        (t : Turn) (c : Consumer S)
        → pos (length c.events) ≤ℤ cfg.batch_size
        → InBounds (return_flush S (flush S cfg t c))
    unfolding flush
    return_flush-InBounds t c h = ground arith

    flush_if_full-InBounds :
        (t : Turn) (c : Consumer S)
        → pos (length c.events) ≤ℤ cfg.batch_size
        → InBounds (flush_if_full S cfg t c)
    unfolding flush_if_full
    flush_if_full-InBounds t c h = ground (arith, or_return-flush-InBounds t c h)

    on_message-InBounds :
        (t : Turn) (msg : KafkaMessage) (c : Consumer S)
        → HasRoom c
        → InBounds (on_message S cfg t msg c)
    unfolding on_message
    on_message-InBounds t msg c h = elim (Result-cases (unmarshal_event msg.value)) [
      | inl (ev, read) ↦
          rw (read, on_message) (flush_if_full-InBounds t _ (rw length-append (omega arith)))
      | inr (x, unread) ↦ rw (unread, on_message) (omega arith)
    ]

    check_done-InBounds : (t : Turn) (r : Outcome S) → InBounds r → InBounds (check_done S cfg t r)
    check_done-InBounds t (stopped e c) h = h
    check_done-InBounds t (running c) h = ground (arith, return_flush-InBounds t c)

    on_timeout-InBounds : (t : Turn) (c : Consumer S) → HasRoom c → InBounds (on_timeout S cfg t c)
    unfolding on_timeout
    on_timeout-InBounds t c h =
        check_done-InBounds t _ (ground (arith, or_return-flush-InBounds t c))

    on_fetched-InBounds :
        (t : Turn) (r : Result Err KafkaMessage) (c : Consumer S)
        → HasRoom c
        → InBounds (on_fetched S cfg t r c)
    unfolding on_error
    on_fetched-InBounds t (ok msg) c h = on_message-InBounds t msg c h
    on_fetched-InBounds t (err x) c h =
        ground (arith, on_timeout-InBounds t c h, return_flush-InBounds t c)

    continue-InBounds :
        (r : Outcome S) (rest : Consumer S → Outcome S)
        → InBounds r
        → ((c : Consumer S) → HasRoom c → InBounds (rest c))
        → InBounds (continue S r rest)
    continue-InBounds (running c) rest h onward = onward c h
    continue-InBounds (stopped e c) rest h onward = h

    -- If the batch size is positive and the pending batch is below it, the pending batch stays
    -- below it while the loop runs, and does not exceed it when the loop has returned.
    pub run-InBounds :
        (ts : List Turn) (c : Consumer S)
        → pos (suc (length c.events)) ≤ℤ cfg.batch_size
        → InBounds (run S cfg ts c)
    unfolding run step
    run-InBounds [] c h = h
    run-InBounds (t ∷ ts) c h =
        continue-InBounds (on_fetched S cfg t t.fetched c) (run S cfg ts)
          (on_fetched-InBounds t t.fetched c h) (run-InBounds ts)
