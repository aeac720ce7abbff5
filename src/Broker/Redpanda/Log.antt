-- ===== src/Broker/Redpanda/Log.antt =====
-- The producer as a log of the messages that reached the client.
use apexio.Base.{
  ℕ, Bool-cases, Result-cases, inl, inr, ◌≡◌, refl, sym, ◌∙◌, ap, Option, none, some, List, [], ◌∷◌,
  ◌++◌, ok, arith, not, ◌||◌,
}
use apexio.Base.Text.{Text, is_empty, Unicode}
use apexio.Errors.{Err, Ctx, wrap, redpanda_publish, broker_closed}
use apexio.Schema.Event.{LogEvent}
use apexio.Schema.Wire.{Codec, marshal_event}
use apexio.Broker.Interface.{Message, Publisher, IsLog, Carries}
use apexio.Broker.Redpanda.{KafkaWriter, Redpanda, publish, close, write_payload, wrap_some}

-- What `WriteMessages` is documented to do without batching: the message is written, or an error is
-- given and it is not.
pub record Writes (K : KafkaWriter) : Type 0 where
  pub written : K.State → List Message
  pub written-write_messages :
      (ctx : Ctx) (msg : Message) (s : K.State)
      → (K.write_messages ctx msg s).0 ≡ none
      → written (K.write_messages ctx msg s).1 ≡ written s ++ msg ∷ []
  pub written-write_messages_failed :
      (ctx : Ctx) (msg : Message) (s : K.State) (x : Err)
      → (K.write_messages ctx msg s).0 ≡ some x
      → written (K.write_messages ctx msg s).1 ≡ written s
  pub written-close : (s : K.State) → written (K.close s).1 ≡ written s

module _ ⦃u : Unicode⦄ ⦃c : Codec⦄ (K : KafkaWriter) (L : Writes K) where
  -- What reached the client before a publication and behind it.
  abbrev pub Reached : LogEvent → Text → List Message → Option Err × Redpanda K → Type 0
  Reached e topic before (none, after) =
      (msg : Message) × Carries topic e msg × (L.written after.writer ≡ before ++ msg ∷ [])
  Reached e topic before (some x, after) = L.written after.writer ≡ before

  Reached-write_payload :
      (ctx : Ctx) (topic : Text) (payload : List ℕ) (e : LogEvent) (r : Redpanda K)
      → marshal_event e ≡ ok payload
      → Reached e topic (L.written r.writer) (write_payload K ctx topic payload r)
  Reached-write_payload ctx topic payload e r m =
      let msg : Message = record { topic = topic; key = []; value = payload } in
      go (K.write_messages ctx msg r.writer) refl
    where
      go :
          (w : Option Err × K.State)
          → K.write_messages ctx (record { topic = topic; key = []; value = payload }) r.writer ≡ w
          → Reached e topic
              (L.written r.writer)
              (wrap_some K (wrap redpanda_publish) w.0, record r { writer = w.1 })
      go (none, s) same = (
        record { topic = topic; key = []; value = payload },
        (payload, m, refl),
        sym (ap (λ w. L.written w.1) same)
            ∙ L.written-write_messages ctx _ r.writer (ap (λ w. w.0) same),
      )
      go (some x, s) same =
          sym (ap (λ w. L.written w.1) same)
          ∙ L.written-write_messages_failed ctx _ r.writer x (ap (λ w. w.0) same)

  pub publish-Reached :
      (ctx : Ctx) (topic : Text) (e : LogEvent) (r : Redpanda K)
      → Reached e topic (L.written r.writer) (publish K ctx topic e r)
  unfolding publish
  publish-Reached (some y) topic e r = refl
  publish-Reached none topic e r = elim (Bool-cases (r.closed || not r.has_writer)) [
    | inl c ↦ rw (c) refl
    | inr c ↦ elim (Bool-cases (is_empty topic)) [
      | inl t ↦ rw (c, t) refl
      | inr t ↦ elim (Result-cases (marshal_event e)) [
        | inl (p, m) ↦ rw (c, t, m) (Reached-write_payload none topic p e r m)
        | inr (y, m) ↦ rw (c, t, m) refl
      ]
    ]
  ]

module _ ⦃u : Unicode⦄ ⦃c : Codec⦄ (K : KafkaWriter) where
  -- Behind `Close` every publication with a live context is refused, and writes nothing.
  pub publish-close :
      (topic : Text) (e : LogEvent) (r : Redpanda K)
      → publish K none topic e (close K r).1 ≡ (some broker_closed, (close K r).1)
  unfolding publish close
  publish-close topic e r = ground arith

  abbrev pub redpanda_publisher : Publisher
  redpanda_publisher = record { State = Redpanda K; publish = publish K; close = close K }

  -- The producer is a log of what it has written.
  unfoldable pub redpanda_publisher-IsLog : Writes K → IsLog redpanda_publisher
  redpanda_publisher-IsLog L = record {
    published = λ (r : Redpanda K). L.written r.writer;
    published-publish =
        λ ctx topic e r done. reached topic e r _ done (publish-Reached K L ctx topic e r);
    published-publish_failed =
        λ ctx topic e r x failed. kept topic e r _ failed (publish-Reached K L ctx topic e r);
  }
    where
      reached :
          (topic : Text) (e : LogEvent) (b : Redpanda K) (o : Option Err × Redpanda K)
          → o.0 ≡ none
          → Reached K L e topic (L.written b.writer) o
          → (msg : Message) × Carries topic e msg
            × (L.written o.1.writer ≡ L.written b.writer ++ msg ∷ [])
      reached topic e b (none, r) done h = h
      reached topic e b (some x, r) done h = cc

      kept :
          (topic : Text) (e : LogEvent) (b : Redpanda K) {x : Err} (o : Option Err × Redpanda K)
          → o.0 ≡ some x
          → Reached K L e topic (L.written b.writer) o
          → L.written o.1.writer ≡ L.written b.writer
      kept topic e b (none, r) failed h = cc
      kept topic e b (some x, r) failed h = h
