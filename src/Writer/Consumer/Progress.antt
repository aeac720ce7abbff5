-- ===== src/Writer/Consumer/Progress.antt =====
-- The loop of cmd/writer/consumer.go gets on where nothing fails.
use mathlib.Core.Path.{subst}
use apexio.Base.{
  ℕ, zero, suc, ◌-◌, ◌≡◌, refl, sym, ◌∙◌, ap, inl, inr, Bool, true, false, Bool-cases, none, List,
  [], ◌∷◌, ◌++◌, length, length-append, ◌+◌, All, All-append_one, ok, if◌then◌else◌,
}
use apexio.Base.Int.{pos, leb_ℤ, ◌≤ℤ◌}
use apexio.Base.Text.{Text, is_empty, Unicode, HasCases}
use apexio.Errors.{Ctx}
use apexio.Schema.Event.{LogEvent}
use apexio.Schema.Event.Valid.{IsValid}
use apexio.Schema.Wire.{Codec, unmarshal_event}
use apexio.Schema.Wire.RoundTrip.{unmarshal_event-IsValid}
use apexio.Store.Interface.{Store, Accepts, IsAtomic, atomic_tracks}
use apexio.Writer.Batch
use apexio.Writer.Batch.{BatchConfig, Sink, retry, write_with_retry, to_nat}
use apexio.Writer.Batch.Retry.{retry_at_once}
use apexio.Writer.Consumer.Bounds.{InBounds, run-InBounds}
use apexio.Writer.Consumer.Flush.{Inv}
use apexio.Writer.Consumer.Messages.{events_of}
use apexio.Writer.Consumer.Delivery.{Holds, fetched_all, run_consumer-Holds}
use apexio.Writer.Consumer.{
  KafkaMessage, Turn, Consumer, Outcome, running, flush, continue, flush_if_full, or_return,
  on_fetched, on_message, step, run, run_consumer,
}

-- A turn in which nothing fails: a message is fetched that can be read, and it can be written and
-- committed in it.
pub record Good ⦃u : Unicode⦄ ⦃d : Codec⦄ (t : Turn) : Type 0 where
  pub msg : KafkaMessage
  pub ev : LogEvent
  pub is_fetched : t.fetched ≡ ok msg
  pub is_read : unmarshal_event msg.value ≡ ok ev
  pub is_live : t.ctx 1 ≡ none
  pub is_committed : t.commit_error ≡ none

module _ ⦃u : Unicode⦄ (S : Store) (A : Accepts S) (cfg : BatchConfig) where
  at_first :
      (ctx : ℕ → Ctx) (events : List LogEvent) (s : S.State)
      → ctx 1 ≡ none
      → All IsValid events
      → A.Ready s
      → ((S.write_batch (ctx 1) events s).0 ≡ none) × A.Ready (S.write_batch (ctx 1) events s).1
  at_first ctx events s live valid ready =
      subst (λ x. ((S.write_batch x events s).0 ≡ none) × A.Ready (S.write_batch x events s).1)
        (sym live) (A.write_batch-accepts events s valid ready)

  retry-accepts :
      (ctx : ℕ → Ctx) (events : List LogEvent) (left : ℕ) (s : S.State)
      → ctx 1 ≡ none
      → All IsValid events
      → A.Ready s
      → ((retry S ctx events left 1 s).0 ≡ none) × A.Ready (retry S ctx events left 1 s).1
  unfolding retry
  retry-accepts ctx events zero s live valid ready = at_first ctx events s live valid ready
  retry-accepts ctx events (suc left) s live valid ready =
      let (written, again) = at_first ctx events s live valid ready in
      rw (retry_at_once S ctx events left 1 s written) (refl, again)

  flush-accepts :
      (ctx : ℕ → Ctx) (events : List LogEvent) (k : Sink S)
      → ctx 1 ≡ none
      → All IsValid events
      → A.Ready k.store
      → ((Batch.flush S cfg ctx events k).0 ≡ none)
        × A.Ready (Batch.flush S cfg ctx events k).1.store
  unfolding Batch.flush write_with_retry
  flush-accepts ctx [] k live valid ready = (refl, ready)
  flush-accepts ctx (ev ∷ events) k live valid ready =
      let (written, again) =
        retry-accepts ctx (ev ∷ events) (to_nat cfg.max_retries - 1) k.store live valid ready in
      (rw written refl, again)

  -- The pending events are valid, each has its message, and the store is ready.
  abbrev Up : Consumer S → Type 0
  Up c = All IsValid c.events × (length c.events ≡ length c.msgs) × A.Ready c.sink.store

  abbrev GoesOn : Outcome S → Type 0
  GoesOn o = (c : Consumer S) × (o ≡ running c) × Up c

  flush-Up :
      (t : Turn) (c : Consumer S)
      → t.ctx 1 ≡ none
      → t.commit_error ≡ none
      → Up c
      → (c' : Consumer S) × (flush S cfg t c ≡ (none, c')) × Up c'
  unfolding flush
  flush-Up t c live commits (valid, same, ready) = elim (Bool-cases (is_empty c.events)) [
    | inl nothing ↦ (c, rw nothing refl, (valid, same, ready))
    | inr some_left ↦
        let (written, again) = flush-accepts t.ctx c.events c.sink live valid ready in
        (
          record {
            events = [];
            msgs = [];
            committed = c.committed ++ c.msgs;
            sink = (Batch.flush S cfg t.ctx c.events c.sink).1;
          },
          rw (some_left, written, commits) refl,
          (tt, refl, again),
        )
  ]

  flush_if_full-GoesOn :
      (t : Turn) (c : Consumer S)
      → t.ctx 1 ≡ none
      → t.commit_error ≡ none
      → Up c
      → GoesOn (flush_if_full S cfg t c)
  unfolding flush_if_full
  flush_if_full-GoesOn t c live commits up = go (leb_ℤ cfg.batch_size (pos (length c.events)))
    where
      go : (full : Bool) → GoesOn (if full then or_return S (flush S cfg t c) else running c)
      go true =
          let (c', done, up') = flush-Up t c live commits up in (c', ap (or_return S) done, up')
      go false = (c, refl, up)

  module _ ⦃d : Codec⦄ (cases : HasCases u) where
    message-GoesOn :
        (t : Turn) (c : Consumer S) (g : Good t) → Up c → GoesOn (on_message S cfg t g.msg c)
    unfolding on_message
    message-GoesOn t c g (valid, same, ready) =
        let c' : Consumer S = record c {
          events = c.events ++ g.ev ∷ [];
          msgs = c.msgs ++ g.msg ∷ [];
        } in
        let c'-Up : Up c' = (
          All-append_one IsValid c.events valid
              (unmarshal_event-IsValid cases g.msg.value g.is_read).0,
          length-append c.events (g.ev ∷ [])
              ∙ (ap (λ n. n + 1) same ∙ sym (length-append c.msgs (g.msg ∷ []))),
          ready,
        ) in
        rw (g.is_read, on_message) (flush_if_full-GoesOn t c' g.is_live g.is_committed c'-Up)

    step-GoesOn : (t : Turn) (c : Consumer S) → Good t → Up c → GoesOn (step S cfg t c)
    unfolding step
    step-GoesOn t c g up =
        subst (λ f. GoesOn (on_fetched S cfg t f c)) (sym g.is_fetched) (message-GoesOn t c g up)

    run-GoesOn : (ts : List Turn) (c : Consumer S) → All Good ts → Up c → GoesOn (run S cfg ts c)
    unfolding run
    run-GoesOn [] c good up = (c, refl, up)
    run-GoesOn (t ∷ ts) c (g, good) up =
        let (c', on, up') = step-GoesOn t c g up in
        subst (λ o. GoesOn (continue S o (run S cfg ts))) (sym on) (run-GoesOn ts c' good up')

    -- The loop that goes on, by what it has committed and stored.
    abbrev pub KeepsUp : IsAtomic S → List LogEvent → List KafkaMessage → Consumer S → Type 0
    KeepsUp atomic log fetched w =
        (fetched ≡ w.committed ++ w.msgs)
        × (pos (suc (length w.msgs)) ≤ℤ cfg.batch_size)
        × (atomic.stored w.sink.store ≡ log ++ events_of w.committed)

    -- Over an atomic store that is ready, with a topic and a positive batch size, and turns in which
    -- nothing fails: the loop still runs, the messages that are fetched and not yet committed are the
    -- last ones and fewer than a batch, and the events of all others are in the store, each once and
    -- in their order. The case tables are as documented.
    pub run_consumer-KeepsUp :
        (atomic : IsAtomic S) (topic : Text) (ts : List Turn) (k : Sink S)
        → is_empty topic ≡ false
        → pos 1 ≤ℤ cfg.batch_size
        → A.Ready k.store
        → All Good ts
        → (w : Consumer S) × (run_consumer S cfg topic ts k ≡ running w)
          × KeepsUp atomic (atomic.stored k.store) (fetched_all ts) w
    unfolding run_consumer
    run_consumer-KeepsUp atomic topic ts k named positive ready good =
        let start : Consumer S = record { events = []; msgs = []; committed = []; sink = k } in
        let (w, on, up) = run-GoesOn ts start good (tt, refl, ready) in
        let at_end : run_consumer S cfg topic ts k ≡ running w = rw named on in
        let bounded : InBounds S cfg (running w) =
          subst (InBounds S cfg) on (run-InBounds S cfg positive ts start positive) in
        let v : Inv S (atomic_tracks S atomic (atomic.stored k.store)) cfg (fetched_all ts) w =
          subst (Holds S (atomic_tracks S atomic (atomic.stored k.store)) cfg (fetched_all ts))
            at_end (run_consumer-Holds S atomic cfg (atomic.stored k.store) topic ts k refl) in
        (
          w,
          at_end,
          (v.all_fetched, subst (λ n. pos (suc n) ≤ℤ cfg.batch_size) up.1 bounded, v.stored),
        )
