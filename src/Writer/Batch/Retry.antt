-- ===== src/Writer/Batch/Retry.antt =====
-- What the retry loop leaves in a store, and when it succeeds.
use mathlib.Core.Path.{subst}
use mathlib.Core.Option.{none-ne-some}
use apexio.Base.{
  inl, inr, ℕ, zero, suc, ◌-◌, ◌≤◌, ◌≡◌, refl, sym, ◌∙◌, ap, ◌↔◌, Option, none, some, List, [], ◌∷◌,
  ◌++◌, append-nil, Option-cases, arith,
}
use apexio.Base.Int.{pos, ◌≤ℤ◌}
use apexio.Errors.{Err, Ctx, wrap, write_retries}
use apexio.Schema.Event.{LogEvent}
use apexio.Store.Interface.{Store, Tracks, ChecksContext}
use apexio.Writer.Metrics.{inc_write_errors}
use apexio.Writer.Batch.{
  BatchConfig, with_defaults, Sink, retry, write_with_retry, flush, to_nat, wrap_retries,
}

-- Behind the defaults of `newBatchProcessor` the batch size, the number of attempts, the flush
-- interval and the pause between attempts are all positive.
pub with_defaults_positive :
    (cfg : BatchConfig)
    → (pos 1 ≤ℤ (with_defaults cfg).batch_size)
      × (pos 1 ≤ℤ (with_defaults cfg).max_retries)
      × (pos 1 ≤ℤ (with_defaults cfg).flush_interval)
      × (pos 1 ≤ℤ (with_defaults cfg).retry_backoff)
unfolding with_defaults
with_defaults_positive cfg = ground arith

pub with_defaults_idem : (cfg : BatchConfig) → with_defaults (with_defaults cfg) ≡ with_defaults cfg
unfolding with_defaults
with_defaults_idem cfg = ground arith

module _ (S : Store) (ctx : ℕ → Ctx) (events : List LogEvent) where
  pub retry_at_once :
      (left n : ℕ) (s : S.State)
      → (S.write_batch (ctx n) events s).0 ≡ none
      → retry S ctx events (suc left) n s ≡ (none, (S.write_batch (ctx n) events s).1)
  unfolding retry
  retry_at_once left n s e = rw (e, retry)

  retry_again :
      (left n : ℕ) (s : S.State) {x : Err}
      → (S.write_batch (ctx n) events s).0 ≡ some x
      → retry S ctx events (suc left) n s
        ≡ retry S ctx events left (suc n) (S.write_batch (ctx n) events s).1
  unfolding retry
  retry_again left n s e = rw (e, retry)

  -- The outcome of attempt `n + k`, made on what the attempts from `n` on have left.
  abbrev pub attempt : ℕ → ℕ → S.State → Option Err
  attempt zero n s = (S.write_batch (ctx n) events s).0
  attempt (suc k) n s = attempt k (suc n) (S.write_batch (ctx n) events s).1

  -- The loop succeeds if and only if one of its attempts does.
  retry-none_of_attempt :
      (left n : ℕ) (s : S.State) (k : ℕ)
      → k ≤ left
      → attempt k n s ≡ none
      → (retry S ctx events left n s).0 ≡ none
  retry-none_of_attempt zero n s zero le h = unfold retry in h
  retry-none_of_attempt zero n s (suc k) le h = absurd (omega arith)
  retry-none_of_attempt (suc left) n s zero le h = rw (retry_at_once left n s h) refl
  retry-none_of_attempt (suc left) n s (suc k) le h =
      elim (Option-cases (S.write_batch (ctx n) events s).0) [
        | inl done ↦ rw (retry_at_once left n s done) refl
        | inr (x, failed) ↦
            rw (retry_again left n s failed)
              (retry-none_of_attempt left (suc n) _ k (omega arith) h)
      ]

  attempt_of_retry-none :
      (left n : ℕ) (s : S.State)
      → (retry S ctx events left n s).0 ≡ none
      → (k : ℕ) × (k ≤ left) × (attempt k n s ≡ none)
  attempt_of_retry-none zero n s h = (0, omega arith, unfold retry in h)
  attempt_of_retry-none (suc left) n s h = elim (Option-cases (S.write_batch (ctx n) events s).0) [
    | inl done ↦ (0, omega arith, done)
    | inr (x, failed) ↦
        let (k, le, at_k) =
          attempt_of_retry-none left (suc n) (S.write_batch (ctx n) events s).1
            (rw (retry_again left n s failed) at h) in
        (suc k, omega arith, at_k)
  ]

module _ (S : Store) (T : Tracks S) (ctx : ℕ → Ctx) (done events : List LogEvent) where
  got-retry :
      (left n : ℕ) (s : S.State)
      → T.Got done s
      → (retry S ctx events left n s).0 ≡ none
      → T.Got (done ++ events) (retry S ctx events left n s).1
  got-retry zero n s got h = unfold retry in T.got-write_batch (ctx n) done events s got h
  got-retry (suc left) n s got h = elim (Option-cases (S.write_batch (ctx n) events s).0) [
    | inl written ↦
        rw (retry_at_once S ctx events left n s written)
          (T.got-write_batch (ctx n) done events s got written)
    | inr (x, failed) ↦ rw (retry_again S ctx events left n s failed) (
        got-retry left (suc n) _ (T.got-write_batch_failed (ctx n) done events s x got failed)
          (rw (retry_again S ctx events left n s failed) at h))
  ]

  got-retry_failed :
      (left n : ℕ) (s : S.State) (x : Err)
      → T.Got done s
      → (retry S ctx events left n s).0 ≡ some x
      → T.Got done (retry S ctx events left n s).1
  got-retry_failed zero n s x got h =
      unfold retry in T.got-write_batch_failed (ctx n) done events s x got h
  got-retry_failed (suc left) n s x got h = elim (Option-cases (S.write_batch (ctx n) events s).0) [
    | inl written ↦ absurd (
        none-ne-some x (
          sym (ap (λ (r : Option Err × S.State). r.0) (retry_at_once S ctx events left n s written))
          ∙ h))
    | inr (y, failed) ↦ rw (retry_again S ctx events left n s failed) (
        got-retry_failed left (suc n) _ x
          (T.got-write_batch_failed (ctx n) done events s y got failed)
          (rw (retry_again S ctx events left n s failed) at h))
  ]

module _ (S : Store) (C : ChecksContext S) (ctx : ℕ → Ctx) (x : Err)
    (gone : (n : ℕ) → ctx n ≡ some x) where
  write_gone :
      (events : List LogEvent) (n : ℕ) (s : S.State) → S.write_batch (ctx n) events s ≡ (some x, s)
  write_gone events n s = rw (gone n) (C.write_batch_done x events s)

  retry_gone :
      (events : List LogEvent) (left n : ℕ) (s : S.State)
      → retry S ctx events left n s ≡ (some x, s)
  retry_gone events zero n s = unfold retry in write_gone events n s
  retry_gone events (suc left) n s =
      retry_again S ctx events left n s
        (ap (λ (r : Option Err × S.State). r.0) (write_gone events n s))
      ∙ (ap (λ (r : Option Err × S.State). retry S ctx events left (suc n) r.1)
            (write_gone events n s)
          ∙ retry_gone events left (suc n) s)

-- `flush` on a sink, through the retries.
wrap_retries-none : (n : ℕ) (o : Option Err) → wrap_retries n o ≡ none → o ≡ none
wrap_retries-none n none h = refl
wrap_retries-none n (some x) h = cc

wrap_retries-some :
    (n : ℕ) (o : Option Err) {x : Err} → wrap_retries n o ≡ some x → (y : Err) × (o ≡ some y)
wrap_retries-some n none h = cc
wrap_retries-some n (some y) h = (y, refl)

module _ (S : Store) (cfg : BatchConfig) (ctx : ℕ → Ctx) where
  -- The attempts that the settings allow after the first.
  abbrev pub attempts_left : ℕ
  attempts_left = to_nat cfg.max_retries - 1

  -- A flush of a batch that is not empty gives no error exactly if one of the attempts that the
  -- settings allow does not.
  pub flush-none_iff :
      (ev : LogEvent) (events : List LogEvent) (k : Sink S)
      → ((flush S cfg ctx (ev ∷ events) k).0 ≡ none)
        ↔ ((n : ℕ) × (n ≤ attempts_left) × (attempt S ctx (ev ∷ events) n 1 k.store ≡ none))
  unfolding flush write_with_retry
  flush-none_iff ev events k = (
    λ h.
        attempt_of_retry-none S ctx (ev ∷ events) attempts_left 1 k.store (wrap_retries-none _ _ h),
    λ (n, le, h).
        ap (wrap_retries (to_nat cfg.max_retries))
          (retry-none_of_attempt S ctx (ev ∷ events) attempts_left 1 k.store n le h),
  )

  -- On a store that checks the context, a flush whose context is done writes nothing.
  pub flush_done :
      ChecksContext S
      → (x : Err) → ((n : ℕ) → ctx n ≡ some x)
      → (ev : LogEvent) (events : List LogEvent) (k : Sink S)
      → flush S cfg ctx (ev ∷ events) k ≡ (
        some (wrap (write_retries (to_nat cfg.max_retries)) x),
        record k { metrics = inc_write_errors k.metrics },
      )
  unfolding flush write_with_retry
  flush_done C x gone ev events k =
      rw (retry_gone S C ctx x gone (ev ∷ events) attempts_left 1 k.store) refl

module _ (S : Store) (T : Tracks S) (cfg : BatchConfig) (ctx : ℕ → Ctx) (done : List LogEvent) where
  -- A flush that succeeds adds its events to what the store has got.
  pub got-flush :
      (events : List LogEvent) (k : Sink S)
      → T.Got done k.store
      → (flush S cfg ctx events k).0 ≡ none
      → T.Got (done ++ events) (flush S cfg ctx events k).1.store
  unfolding flush write_with_retry
  got-flush [] k got h = subst (λ l. T.Got l k.store) (sym (append-nil done)) got
  got-flush (ev ∷ events) k got h =
      got-retry S T ctx done (ev ∷ events) (attempts_left S cfg ctx) 1 k.store got
        (wrap_retries-none _ _ h)

  -- A flush that fails takes nothing away.
  pub got-flush_failed :
      (events : List LogEvent) (k : Sink S) {x : Err}
      → T.Got done k.store
      → (flush S cfg ctx events k).0 ≡ some x
      → T.Got done (flush S cfg ctx events k).1.store
  unfolding flush write_with_retry
  got-flush_failed [] k got h = got
  got-flush_failed (ev ∷ events) k got h =
      let (y, failed) = wrap_retries-some _ _ h in
      got-retry_failed S T ctx done (ev ∷ events) (attempts_left S cfg ctx) 1 k.store y got failed
