-- ===== src/Writer/Consumer/Delivery.antt =====
-- What the loop of cmd/writer/consumer.go has delivered to a store, turn by turn.
use mathlib.Core.Path.{subst}
use apexio.Base.{
  ◌≡◌, refl, sym, ◌∙◌, ap, inl, inr, Bool, true, false, Option, none, some, List, [], ◌∷◌, ◌++◌,
  append-nil, append_assoc, length, Result, ok, err, Result-cases, if◌then◌else◌,
}
use apexio.Base.Int.{pos, leb_ℤ}
use apexio.Base.Text.{Text, is_empty, Unicode}
use apexio.Errors.{Err, is_deadline, is_canceled}
use apexio.Schema.Event.{LogEvent}
use apexio.Schema.Wire.{Codec, unmarshal_event}
use apexio.Store.Interface.{Store, Tracks, IsAtomic, atomic_tracks}
use apexio.Writer.Batch.{BatchConfig, Sink}
use apexio.Writer.Consumer.Messages.{
  AllRead, nil-AllRead, append-AllRead, events_of, events_of-append, events_of-one, events_of-nil,
}
use apexio.Writer.Consumer.Flush.{Inv, Safe, FlushHolds, Inv-Safe, flush-FlushHolds}
use apexio.Writer.Consumer.{
  KafkaMessage, Turn, Consumer, Outcome, running, stopped, flush, continue, flush_if_full,
  on_fetched, or_return, return_flush, check_done, on_message, on_timeout, on_error, step, run,
  run_consumer,
}

-- The messages that a turn fetches.
abbrev pub message_of : Result Err KafkaMessage → List KafkaMessage
message_of (ok msg) = msg ∷ []
message_of (err x) = []

abbrev pub fetched_by : Turn → List KafkaMessage
fetched_by t = message_of t.fetched

-- The messages of all turns.
abbrev pub fetched_all : List Turn → List KafkaMessage
fetched_all [] = []
fetched_all (t ∷ ts) = fetched_by t ++ fetched_all ts

module _ ⦃u : Unicode⦄ ⦃d : Codec⦄ (S : Store) (T : Tracks S) (cfg : BatchConfig) where
  -- What holds after a turn.
  abbrev pub Holds : List KafkaMessage → Outcome S → Type 0
  Holds fetched (running c) = Inv S T cfg fetched c
  Holds fetched (stopped e c) = Safe S T cfg fetched c

  or_return-Holds :
      (fetched : List KafkaMessage) (r : Option Err × Consumer S)
      → FlushHolds S T cfg fetched r
      → Holds fetched (or_return S r)
  or_return-Holds fetched (none, c) inv = inv
  or_return-Holds fetched (some x, c) safe = safe

  return_flush-Holds :
      (fetched : List KafkaMessage) (r : Option Err × Consumer S)
      → FlushHolds S T cfg fetched r
      → Holds fetched (return_flush S r)
  return_flush-Holds fetched (none, c) inv = Inv-Safe S T cfg inv
  return_flush-Holds fetched (some x, c) safe = safe

  or_return-flush-Holds :
      (fetched : List KafkaMessage) (t : Turn) (c : Consumer S)
      → Inv S T cfg fetched c
      → Holds fetched (or_return S (flush S cfg t c))
  or_return-flush-Holds fetched t c v =
      or_return-Holds fetched (flush S cfg t c) (flush-FlushHolds S T cfg fetched t c v)

  return_flush-flush-Holds :
      (fetched : List KafkaMessage) (t : Turn) (c : Consumer S)
      → Inv S T cfg fetched c
      → Holds fetched (return_flush S (flush S cfg t c))
  return_flush-flush-Holds fetched t c v =
      return_flush-Holds fetched (flush S cfg t c) (flush-FlushHolds S T cfg fetched t c v)

  -- A message that is read joins the pending ones.
  pend-Inv :
      (fetched : List KafkaMessage) (msg : KafkaMessage) (c : Consumer S) (ev : LogEvent)
      → unmarshal_event msg.value ≡ ok ev
      → Inv S T cfg fetched c
      → Inv S T cfg
          (fetched ++ msg ∷ [])
          (record c { events = c.events ++ ev ∷ []; msgs = c.msgs ++ msg ∷ [] })
  pend-Inv fetched msg c ev read v = record {
    all_fetched =
        ap (λ t. t ++ msg ∷ []) v.all_fetched ∙ append_assoc c.committed c.msgs (msg ∷ []);
    readable =
        subst AllRead (append_assoc c.committed c.msgs (msg ∷ []))
          (append-AllRead (c.committed ++ c.msgs) msg read v.readable);
    pending =
        ap (λ t. t ++ ev ∷ []) v.pending
        ∙ (ap (λ t. events_of c.msgs ++ t) (sym (events_of-one msg read))
            ∙ sym (events_of-append c.msgs (msg ∷ [])));
    stored = v.stored;
  }

  if-Holds :
      (fetched : List KafkaMessage) (b : Bool) (q r : Outcome S)
      → Holds fetched q
      → Holds fetched r
      → Holds fetched (if b then q else r)
  if-Holds fetched true q r h k = h
  if-Holds fetched false q r h k = k

  flush_if_full-Holds :
      (fetched : List KafkaMessage) (t : Turn) (c : Consumer S)
      → Inv S T cfg fetched c
      → Holds fetched (flush_if_full S cfg t c)
  unfolding flush_if_full
  flush_if_full-Holds fetched t c v =
      if-Holds fetched (leb_ℤ cfg.batch_size (pos (length c.events))) _ _
        (or_return-flush-Holds fetched t c v) v

  on_message-Holds :
      (fetched : List KafkaMessage) (t : Turn) (msg : KafkaMessage) (c : Consumer S)
      → Inv S T cfg fetched c
      → Holds (fetched ++ msg ∷ []) (on_message S cfg t msg c)
  unfolding on_message
  on_message-Holds fetched t msg c v = elim (Result-cases (unmarshal_event msg.value)) [
    | inl (ev, read) ↦
        let after = pend-Inv fetched msg c ev read v in
        rw (read, on_message) (flush_if_full-Holds (fetched ++ msg ∷ []) t _ after)
    | inr (x, unread) ↦
        rw (unread, on_message)
          (record {
            dropped = msg ∷ [];
            all_fetched =
                ap (λ t. t ++ msg ∷ []) v.all_fetched ∙ append_assoc c.committed c.msgs (msg ∷ []);
            readable = v.readable;
            stored = inl v.stored;
          })
  ]

  check_done-Holds :
      (fetched : List KafkaMessage) (t : Turn) (r : Outcome S)
      → Holds fetched r
      → Holds fetched (check_done S cfg t r)
  check_done-Holds fetched t (stopped e c) h = h
  check_done-Holds fetched t (running c) v =
      if-Holds fetched t.done _ _ (return_flush-flush-Holds fetched t c v) v

  on_timeout-Holds :
      (fetched : List KafkaMessage) (t : Turn) (c : Consumer S)
      → Inv S T cfg fetched c
      → Holds fetched (on_timeout S cfg t c)
  unfolding on_timeout
  on_timeout-Holds fetched t c v =
      check_done-Holds fetched t _
        (if-Holds fetched t.ticked _ _ (or_return-flush-Holds fetched t c v) v)

  on_error-Holds :
      (fetched : List KafkaMessage) (t : Turn) (x : Err) (c : Consumer S)
      → Inv S T cfg fetched c
      → Holds fetched (on_error S cfg t x c)
  unfolding on_error
  on_error-Holds fetched t x c v =
      if-Holds fetched (is_deadline x) _ _ (on_timeout-Holds fetched t c v) (
        if-Holds fetched (is_canceled x) _ _ (return_flush-flush-Holds fetched t c v)
          (Inv-Safe S T cfg v))

  on_fetched-Holds :
      (fetched : List KafkaMessage) (t : Turn) (r : Result Err KafkaMessage) (c : Consumer S)
      → Inv S T cfg fetched c
      → Holds (fetched ++ message_of r) (on_fetched S cfg t r c)
  on_fetched-Holds fetched t (ok msg) c v = on_message-Holds fetched t msg c v
  on_fetched-Holds fetched t (err x) c v = rw append-nil (on_error-Holds fetched t x c v)

  -- One turn keeps the promise of the loop, with the message that it has fetched.
  pub step-Holds :
      (fetched : List KafkaMessage) (t : Turn) (c : Consumer S)
      → Inv S T cfg fetched c
      → Holds (fetched ++ fetched_by t) (step S cfg t c)
  unfolding step
  step-Holds fetched t c v = on_fetched-Holds fetched t t.fetched c v

  Safe-append :
      {fetched : List KafkaMessage} (later : List KafkaMessage) {c : Consumer S}
      → Safe S T cfg fetched c
      → Safe S T cfg (fetched ++ later) c
  Safe-append later {c} s = record {
    dropped = s.dropped ++ later;
    all_fetched =
        ap (λ t. t ++ later) s.all_fetched
        ∙ (append_assoc c.committed (c.msgs ++ s.dropped) later
            ∙ ap (λ t. c.committed ++ t) (append_assoc c.msgs s.dropped later));
    readable = s.readable;
    stored = s.stored;
  }

  continue-Holds :
      (fetched later : List KafkaMessage) (r : Outcome S) (rest : Consumer S → Outcome S)
      → Holds fetched r
      → ((c : Consumer S) → Inv S T cfg fetched c → Holds (fetched ++ later) (rest c))
      → Holds (fetched ++ later) (continue S r rest)
  continue-Holds fetched later (running c) rest v onward = onward c v
  continue-Holds fetched later (stopped e c) rest s onward = Safe-append later s

  -- The loop keeps its promise, however long it runs and whatever the reader, the store, the
  -- ticker and the context do.
  pub run-Holds :
      (fetched : List KafkaMessage) (ts : List Turn) (c : Consumer S)
      → Inv S T cfg fetched c
      → Holds (fetched ++ fetched_all ts) (run S cfg ts c)
  unfolding run
  run-Holds fetched [] c v = rw append-nil v
  run-Holds fetched (t ∷ ts) c v =
      subst (λ ms. Holds ms (continue S (step S cfg t c) (run S cfg ts)))
        (append_assoc fetched (fetched_by t) (fetched_all ts))
        (continue-Holds (fetched ++ fetched_by t) (fetched_all ts) (step S cfg t c) (run S cfg ts)
          (step-Holds fetched t c v) (run-Holds (fetched ++ fetched_by t) ts))

  start-Inv :
      (k : Sink S)
      → T.Got [] k.store
      → Inv S T cfg [] (record { events = []; msgs = []; committed = []; sink = k })
  start-Inv k start = record {
    all_fetched = refl;
    readable = nil-AllRead;
    pending = sym events_of-nil;
    stored = subst (λ l. T.Got l k.store) (sym events_of-nil) start;
  }

  -- `runConsumer` over a store that tracks what it has got, from its start.
  pub run_consumer-tracks :
      (topic : Text) (ts : List Turn) (k : Sink S)
      → T.Got [] k.store
      → Holds (fetched_all ts) (run_consumer S cfg topic ts k)
  unfolding run_consumer
  run_consumer-tracks topic ts k start =
      if-Holds (fetched_all ts) (is_empty topic) _ _
        (Safe-append (fetched_all ts) (Inv-Safe S T cfg (start-Inv k start)))
        (run-Holds [] ts _ (start-Inv k start))

module _ ⦃u : Unicode⦄ ⦃d : Codec⦄ (S : Store) (A : IsAtomic S) (cfg : BatchConfig)
    (log : List LogEvent) where
  -- `runConsumer` over an atomic store, from its start: while it runs, each message that was
  -- fetched is committed or pending, and the store has got the events of the committed messages,
  -- each once and in their order; when it has returned, the store has got those, or those and the
  -- pending ones. A message that is committed or pending could be read, so that none is committed
  -- whose event the store has not got.
  pub run_consumer-Holds :
      (topic : Text) (ts : List Turn) (k : Sink S)
      → A.stored k.store ≡ log
      → Holds S (atomic_tracks S A log) cfg (fetched_all ts) (run_consumer S cfg topic ts k)
  run_consumer-Holds topic ts k start =
      run_consumer-tracks S (atomic_tracks S A log) cfg topic ts k (start ∙ sym (append-nil log))
