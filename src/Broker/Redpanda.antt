-- ===== src/Broker/Redpanda.antt =====
-- pkg/broker/redpanda.go: the producer and the loop of one topic's consumer, over the kafka client,
-- which is a parameter.
pub mod Log
pub mod Commit
pub mod Topics
pub mod Subscribe
use apexio.Base.{
  ℕ, Bool, true, false, not, ◌||◌, Option, none, some, List, [], ◌∷◌, ◌++◌, Result, ok, err,
  map_err, if◌then◌else◌,
}
use apexio.Base.Text.{Text, codes, is_empty, Unicode}
use apexio.Errors.{
  Err, Ctx, wrap, redpanda, redpanda_publish, redpanda_fetch, redpanda_handler, redpanda_commit,
  broker_closed, brokers_required, topic_required, is_canceled, is_deadline,
}
use apexio.Schema.Event.{LogEvent}
use apexio.Schema.Wire.{Codec, marshal_event}
use apexio.Broker.Interface.{Message, Handler}

pub record RedpandaConfig : Type 0 where
  pub brokers : List Text
  pub client_id : Text
  pub group_id : Text

-- `kafka.Writer`: what `WriteMessages` and `Close` do, and the state that they change.
pub record KafkaWriter : Type 1 where
  pub State : Type 0
  pub write_messages : Ctx → Message → State → Option Err × State
  pub close : State → Option Err × State

abbrev or_default : Text → Text → Text
or_default given fallback = if is_empty given then fallback else given

-- The defaults of `NewRedpanda`.
unfoldable pub config_defaults : RedpandaConfig → RedpandaConfig
config_defaults cfg = record cfg {
  client_id = or_default cfg.client_id (codes "apexio");
  group_id = or_default cfg.group_id (codes "apexio-writer");
}

module _ (K : KafkaWriter) where
  -- `closed` and `writer`, which is nil once it is closed. The writer's state stays for what it has
  -- written.
  pub record Redpanda : Type 0 where
    pub cfg : RedpandaConfig
    pub has_writer : Bool
    pub writer : K.State
    pub closed : Bool

  unfoldable pub new_redpanda : RedpandaConfig → K.State → Result Err Redpanda
  new_redpanda cfg opened =
      if is_empty cfg.brokers
      then err brokers_required
      else ok
          (record { cfg = config_defaults cfg; has_writer = true; writer = opened; closed = false })

  abbrev pub wrap_some : (Err → Err) → Option Err → Option Err
  wrap_some f none = none
  wrap_some f (some x) = some (f x)

  -- The write of an encoded event.
  abbrev pub write_payload : Ctx → Text → List ℕ → Redpanda → Option Err × Redpanda
  write_payload ctx topic payload r =
      let (e, s) =
        K.write_messages ctx (record { topic = topic; key = []; value = payload }) r.writer in
      (wrap_some (wrap redpanda_publish) e, record r { writer = s })

  module _ ⦃u : Unicode⦄ ⦃c : Codec⦄ where
    unfoldable pub publish : Ctx → Text → LogEvent → Redpanda → Option Err × Redpanda
    publish (some x) topic event r = (some x, r)
    publish none topic event r =
        if r.closed || not r.has_writer
        then (some broker_closed, r)
        else if is_empty topic
        then (some topic_required, r)
        else elim (marshal_event event) [
          | err x ↦ (some (wrap redpanda x), r)
          | ok payload ↦ write_payload none topic payload r
        ]

  unfoldable pub close : Redpanda → Option Err × Redpanda
  close r =
      let (e, s) = K.close r.writer in
      if r.has_writer
      then (e, record r { closed = true; has_writer = false; writer = s })
      else (none, record r { closed = true })

-- One turn of the loop of `consumeTopic`: what `FetchMessage` gives, what `ctx.Err()` gives where a
-- fetch was cancelled, and what `CommitMessages` gives.
pub record Delivery : Type 0 where
  pub fetched : Result Err Message
  pub ctx_error : Option Err
  pub commit_error : Option Err

module _ (W : Type 0) where
  -- The handler's world, and what has been committed.
  pub record Session : Type 0 where
    pub world : W
    pub committed : List Message

  pub data Outcome : Type 0 where
    running : Session → Outcome
    stopped : Option Err → Session → Outcome

  abbrev pub commit_message : Text → Delivery → Message → Session → Outcome
  commit_message topic d msg s = elim d.commit_error [
    | some x ↦ stopped (some (wrap (redpanda_commit topic) x)) s
    | none ↦ running (record s { committed = s.committed ++ msg ∷ [] })
  ]

  -- The message is committed only after the handler has returned nil.
  unfoldable pub handle_message : Handler W → Ctx → Text → Delivery → Message → Session → Outcome
  handle_message h ctx topic d msg s =
      let (e, w) = h ctx msg s.world in
      elim e [
        | some x ↦ stopped (some (wrap (redpanda_handler topic) x)) (record s { world = w })
        | none ↦ commit_message topic d msg (record s { world = w })
      ]

  unfoldable pub consume_step : Handler W → Text → Delivery → Session → Outcome
  consume_step h topic d s = elim d.fetched [
    | ok msg ↦ handle_message h none topic d msg s
    | err x ↦
        if is_canceled x || is_deadline x
        then stopped d.ctx_error s
        else stopped (some (wrap (redpanda_fetch topic) x)) s
  ]

  abbrev pub continue : Outcome → (Session → Outcome) → Outcome
  continue (running s) rest = rest s
  continue (stopped e s) rest = stopped e s

  unfoldable pub consume_topic : Handler W → Text → List Delivery → Session → Outcome
  consume_topic h topic [] s = running s
  consume_topic h topic (d ∷ ds) s = continue (consume_step h topic d s) (consume_topic h topic ds)
