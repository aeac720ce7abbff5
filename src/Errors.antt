-- ===== src/Errors.antt =====
-- The `error` values that the packages under pkg/ and cmd/ make, the `fmt.Errorf` contexts they
-- add with `%w`, and `errors.Is`. A call that returns only an `error` gives an `Option Err`, where
-- `none` is nil.
use apexio.Base.{ℕ, ◌≡◌, refl, sym, Bool, true, false, Option}
use apexio.Base.Text.{Text}

-- The format strings that wrap another error.
pub data Wrap : Type 0 where
  otlp_record : Wrap
  publish_event : ℕ → Wrap
  publish_failed : Wrap
  redpanda redpanda_publish : Wrap
  redpanda_fetch redpanda_handler redpanda_commit : Text → Wrap
  clickhouse_dsn clickhouse_open clickhouse_ping : Wrap
  clickhouse_event : ℕ → Wrap
  clickhouse_prepare clickhouse_append clickhouse_send : Wrap
  write_retries : ℕ → Wrap
  writer_decode writer_commit writer_fetch : Wrap

pub data Err : Type 0 where
  -- `context.Canceled` and `context.DeadlineExceeded`
  canceled deadline_exceeded : Err
  -- the errors of pkg/schema
  event_nil empty_message empty_service timestamp_required request_nil : Err
  invalid_level : Text → Err
  -- `ErrBrokerClosed`, `ErrStoreClosed`, and the argument checks
  broker_closed store_closed handler_nil : Err
  brokers_required topic_required topics_required address_required : Err
  -- an error that `encoding/json` reports for a value it cannot encode
  unsupported_value : Err
  -- the statuses that the sample client refuses, without the bodies behind them
  rest_status otlp_status : ℕ → Err
  -- an error of other code
  library : ℕ → Err
  wrap : Wrap → Err → Err

-- The error at the end of the `Unwrap` chain.
unfoldable pub root : Err → Err
root (wrap w e) = root e
root e = e

abbrev canceled? : Err → Bool
canceled? canceled = true
canceled? _ = false

abbrev deadline? : Err → Bool
deadline? deadline_exceeded = true
deadline? _ = false

-- `errors.Is(err, context.Canceled)`
unfoldable pub is_canceled : Err → Bool
unfolding root
is_canceled e = canceled? (root e)

-- `errors.Is(err, context.DeadlineExceeded)`
unfoldable pub is_deadline : Err → Bool
unfolding root
is_deadline e = deadline? (root e)

-- What `ctx.Err()` gives: `none` while the context is live.
abbrev pub Ctx : Type 0
Ctx = Option Err

canceled-not_deadline : (e : Err) → canceled? e ≡ true → deadline? e ≡ false
canceled-not_deadline canceled h = refl
canceled-not_deadline deadline_exceeded h = sym h
canceled-not_deadline _ h = refl

-- No error is both a cancellation and a deadline.
pub is_canceled-not_deadline : (e : Err) → is_canceled e ≡ true → is_deadline e ≡ false
unfolding is_canceled is_deadline
is_canceled-not_deadline e h = canceled-not_deadline (root e) h

-- A wrapped error is a cancellation if the error is.
pub is_canceled-wrap : (w : Wrap) (e : Err) → is_canceled (wrap w e) ≡ is_canceled e
unfolding is_canceled
is_canceled-wrap w e = refl
