-- ===== src/Writer/Consumer/Flush.antt =====
-- The promise of the loop of cmd/writer/consumer.go on a store, and the closure `flush`.
use mathlib.Core.Path.{subst}
use apexio.Base.{
  ◌≡◌, sym, ◌∙◌, ap, ◌⊎◌, inl, inr, true, Bool-cases, Option, none, some, List, [], ◌++◌,
  append-nil, Option-cases, arith,
}
use apexio.Base.Text.{is_empty, Unicode}
use apexio.Errors.{Err, wrap, writer_commit}
use apexio.Schema.Wire.{Codec}
use apexio.Store.Interface.{Store, Tracks}
use apexio.Writer.Batch
use apexio.Writer.Batch.{BatchConfig, Sink}
use apexio.Writer.Batch.Retry.{got-flush, got-flush_failed}
use apexio.Writer.Consumer.Messages.{AllRead, events_of, events_of-append, events_of-nil}
use apexio.Writer.Consumer.{KafkaMessage, Turn, Consumer, flush}

is_empty-nil : {A : Type 0} (l : List A) → is_empty l ≡ true → l ≡ []
is_empty-nil l h = ground arith

module _ (S : Store) (cfg : BatchConfig) (t : Turn) (c : Consumer S) where
  -- The result of the processor's own flush.
  abbrev batch : Option Err × Sink S
  batch = Batch.flush S cfg t.ctx c.events c.sink

  -- The four ways of the closure `flush`: there is nothing to do, the batch is written and its
  -- messages are committed, the commit fails, or the write does.
  pub data Flushed : Option Err × Consumer S → Type 0 where
    idle : c.events ≡ [] → Flushed (none, c)
    cleared :
        batch.0 ≡ none
        → Flushed (
          none,
          record { events = []; msgs = []; committed = c.committed ++ c.msgs; sink = batch.1 },
        )
    uncommitted :
        (x : Err)
        → batch.0 ≡ none
        → Flushed (some (wrap writer_commit x), record c { sink = batch.1 })
    unwritten : (x : Err) → batch.0 ≡ some x → Flushed (some x, record c { sink = batch.1 })

  pub flush-Flushed : Flushed (flush S cfg t c)
  unfolding flush
  flush-Flushed = elim (Bool-cases (is_empty c.events)) [
    | inl nothing ↦ rw (nothing) (idle (is_empty-nil c.events nothing))
    | inr some_left ↦ rw (some_left) (elim (Option-cases batch.0) [
      | inr (x, failed) ↦ rw (failed) (unwritten x failed)
      | inl written ↦ rw (written) (elim (Option-cases t.commit_error) [
        | inl moved ↦ rw (moved) (cleared written)
        | inr (x, failed) ↦ rw (failed) (uncommitted x written)
      ])
    ])
  ]

module _ ⦃u : Unicode⦄ ⦃d : Codec⦄ (S : Store) (T : Tracks S) (cfg : BatchConfig) where
  -- While the loop runs, every message that was fetched is committed or pending, in order; the
  -- pending events are those of the pending messages, which can all be read; and the store has got the events of the
  -- committed messages.
  pub record Inv (fetched : List KafkaMessage) (c : Consumer S) : Type 0 where
    pub all_fetched : fetched ≡ c.committed ++ c.msgs
    pub readable : AllRead (c.committed ++ c.msgs)
    pub pending : c.events ≡ events_of c.msgs
    pub stored : T.Got (events_of c.committed) c.sink.store

  -- When it has stopped, messages that were fetched may have been dropped, none of them
  -- committed, the others can all be read, and the store may have got the pending events too.
  pub record Safe (fetched : List KafkaMessage) (c : Consumer S) : Type 0 where
    pub dropped : List KafkaMessage
    pub all_fetched : fetched ≡ c.committed ++ (c.msgs ++ dropped)
    pub readable : AllRead (c.committed ++ c.msgs)
    pub stored :
        T.Got (events_of c.committed) c.sink.store
        ⊎ T.Got (events_of (c.committed ++ c.msgs)) c.sink.store

  pub Inv-Safe : {fetched : List KafkaMessage} {c : Consumer S} → Inv fetched c → Safe fetched c
  Inv-Safe {c} v = record {
    dropped = [];
    all_fetched = v.all_fetched ∙ ap (λ t. c.committed ++ t) (sym (append-nil c.msgs));
    readable = v.readable;
    stored = inl v.stored;
  }

  -- What holds behind the closure `flush`.
  abbrev pub FlushHolds : List KafkaMessage → Option Err × Consumer S → Type 0
  FlushHolds fetched (none, c) = Inv fetched c
  FlushHolds fetched (some x, c) = Safe fetched c

  pub flush-FlushHolds :
      (fetched : List KafkaMessage) (t : Turn) (c : Consumer S)
      → Inv fetched c
      → FlushHolds fetched (flush S cfg t c)
  flush-FlushHolds fetched t c v = go (flush S cfg t c) (flush-Flushed S cfg t c)
    where
      both_got :
          T.Got
            (events_of c.committed ++ c.events)
            (Batch.flush S cfg t.ctx c.events c.sink).1.store
          → T.Got
              (events_of (c.committed ++ c.msgs))
              (Batch.flush S cfg t.ctx c.events c.sink).1.store
      both_got got =
          subst (λ l. T.Got l (Batch.flush S cfg t.ctx c.events c.sink).1.store)
            (ap (λ l. events_of c.committed ++ l) v.pending
              ∙ sym (events_of-append c.committed c.msgs))
            got

      go : (r : Option Err × Consumer S) → Flushed S cfg t c r → FlushHolds fetched r
      go _ (idle e) = v
      go _ (cleared e) = record {
        all_fetched = v.all_fetched ∙ sym (append-nil (c.committed ++ c.msgs));
        readable = subst AllRead (sym (append-nil (c.committed ++ c.msgs))) v.readable;
        pending = sym events_of-nil;
        stored =
            both_got (got-flush S T cfg t.ctx (events_of c.committed) c.events c.sink v.stored e);
      }
      go _ (uncommitted x e) = record {
        dropped = [];
        all_fetched = v.all_fetched ∙ ap (λ t. c.committed ++ t) (sym (append-nil c.msgs));
        readable = v.readable;
        stored =
            inr (
              both_got
                (got-flush S T cfg t.ctx (events_of c.committed) c.events c.sink v.stored e));
      }
      go _ (unwritten x e) = record {
        dropped = [];
        all_fetched = v.all_fetched ∙ ap (λ t. c.committed ++ t) (sym (append-nil c.msgs));
        readable = v.readable;
        stored =
            inl (got-flush_failed S T cfg t.ctx (events_of c.committed) c.events c.sink v.stored e);
      }
