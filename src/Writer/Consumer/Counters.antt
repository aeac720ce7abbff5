-- ===== src/Writer/Consumer/Counters.antt =====
-- The counters of cmd/writer behind the closure `flush` of consumer.go, over any store.
use mathlib.Core.Path.{subst}
use mathlib.Core.Option.{some-injective}
use apexio.Base.{
  ℕ, ◌+◌, ◌^◌, ◌%◌, ◌≤◌, ◌≡◌, refl, sym, Option, none, some, List, [], ◌∷◌, length, length-append,
  arith,
}
use apexio.Base.Int.{add_uint64}
use apexio.Errors.{Err, Ctx, wrap, writer_decode, writer_commit, write_retries}
use apexio.Schema.Event.{LogEvent}
use apexio.Store.Interface.{Store}
use apexio.Writer.Batch
use apexio.Writer.Batch.{BatchConfig, Sink, write_with_retry, to_nat, wrap_retries}
use apexio.Writer.Metrics.{WriterMetrics, inc_events_written, inc_batches_flushed, inc_write_errors}
use apexio.Writer.Consumer.Flush.{Flushed, flush-Flushed, idle, cleared, uncommitted, unwritten}
use apexio.Writer.Consumer.{Turn, Consumer, flush}

-- From zero, the counters have counted so many events, in no more batches, and so many errors, up
-- to the wrap-around at 64 bits.
pub record Counted (events decode_errors write_errors : ℕ) (m : WriterMetrics) : Type 0 where
  pub batches : ℕ
  pub batches_le : batches ≤ events
  pub events_counted : m.events_written ≡ events % 2 ^ 64
  pub batches_counted : m.batches_flush ≡ batches % 2 ^ 64
  pub decode_counted : m.decode_errors ≡ decode_errors % 2 ^ 64
  pub write_counted : m.write_errors ≡ write_errors % 2 ^ 64

pub add_uint64_mod : (k n : ℕ) {c : ℕ} → c ≡ k % 2 ^ 64 → add_uint64 c n ≡ (k + n) % 2 ^ 64
add_uint64_mod k n h = rw h (omega arith)

wrapped :
    (n : ℕ) (o : Option Err) {x : Err}
    → wrap_retries n o ≡ some x
    → (y : Err) × (x ≡ wrap (write_retries n) y)
wrapped n none h = cc
wrapped n (some y) h = (y, some-injective _ _ (sym h))

module _ (S : Store) (cfg : BatchConfig) (ctx : ℕ → Ctx) where
  flush-Counted :
      (n : ℕ) (events : List LogEvent) (k : Sink S)
      → Counted n 0 0 k.metrics
      → (Batch.flush S cfg ctx events k).0 ≡ none
      → Counted (n + length events) 0 0 (Batch.flush S cfg ctx events k).1.metrics
  unfolding Batch.flush inc_batches_flushed inc_events_written
  flush-Counted n [] k v h = subst (λ i. Counted i 0 0 k.metrics) (omega arith) v
  flush-Counted n (ev ∷ events) k v h = rw h (record {
    batches = v.batches + 1;
    batches_le = omega (arith, v.batches_le);
    events_counted = add_uint64_mod n (length (ev ∷ events)) v.events_counted;
    batches_counted = add_uint64_mod v.batches 1 v.batches_counted;
    decode_counted = v.decode_counted;
    write_counted = v.write_counted;
  })

  flush_failed-Counted :
      (n : ℕ) (events : List LogEvent) (k : Sink S) {x : Err}
      → Counted n 0 0 k.metrics
      → (Batch.flush S cfg ctx events k).0 ≡ some x
      → Counted n 0 1 (Batch.flush S cfg ctx events k).1.metrics
        × ((y : Err) × (x ≡ wrap (write_retries (to_nat cfg.max_retries)) y))
  unfolding Batch.flush inc_write_errors write_with_retry
  flush_failed-Counted n [] k v h = cc
  flush_failed-Counted n (ev ∷ events) k v h = (
    rw h (record {
      batches = v.batches;
      batches_le = v.batches_le;
      events_counted = v.events_counted;
      batches_counted = v.batches_counted;
      decode_counted = v.decode_counted;
      write_counted = add_uint64_mod 0 1 v.write_counted;
    }),
    wrapped (to_nat cfg.max_retries) _ h,
  )

module _ (S : Store) (cfg : BatchConfig) where
  -- Between turns, every event that was read is pending with its message, the events of the
  -- committed messages are counted, and no error is.
  pub record Inv (c : Consumer S) : Type 0 where
    pub same_length : length c.events ≡ length c.msgs
    pub counted : Counted (length c.committed) 0 0 c.sink.metrics

  -- What an error that ends the loop is, and what is counted then.
  pub data Ended (x : Err) (c : Consumer S) : Type 0 where
    uncounted : Counted (length c.committed) 0 0 c.sink.metrics → Ended x c
    undecoded :
        (y : Err)
        → x ≡ wrap writer_decode y
        → Counted (length c.committed) 1 0 c.sink.metrics
        → Ended x c
    write_failed :
        (y : Err)
        → x ≡ wrap (write_retries (to_nat cfg.max_retries)) y
        → Counted (length c.committed) 0 1 c.sink.metrics
        → Ended x c
    commit_failed :
        (y : Err)
        → x ≡ wrap writer_commit y
        → Counted (length c.committed + length c.msgs) 0 0 c.sink.metrics
        → Ended x c

  -- What holds behind the closure `flush`.
  abbrev pub FlushCounted : Option Err × Consumer S → Type 0
  FlushCounted (none, c) = Inv c
  FlushCounted (some x, c) = Ended x c

  pub flush-FlushCounted : (t : Turn) (c : Consumer S) → Inv c → FlushCounted (flush S cfg t c)
  flush-FlushCounted t c v = go (flush S cfg t c) (flush-Flushed S cfg t c)
    where
      go : (r : Option Err × Consumer S) → Flushed S cfg t c r → FlushCounted r
      go _ (idle e) = v
      go _ (cleared e) = record {
        same_length = refl;
        counted =
            subst (λ n. Counted n 0 0 (Batch.flush S cfg t.ctx c.events c.sink).1.metrics)
              (rw v.same_length (sym (length-append c.committed c.msgs)))
              (flush-Counted S cfg t.ctx (length c.committed) c.events c.sink v.counted e);
      }
      go _ (uncommitted x e) = commit_failed x refl (
          subst
            (λ n.
              Counted (length c.committed + n) 0 0
                (Batch.flush S cfg t.ctx c.events c.sink).1.metrics)
            v.same_length
            (flush-Counted S cfg t.ctx (length c.committed) c.events c.sink v.counted e))
      go _ (unwritten x e) =
          let (counted, (y, same)) =
            flush_failed-Counted S cfg t.ctx (length c.committed) c.events c.sink v.counted e in
          write_failed y same counted
