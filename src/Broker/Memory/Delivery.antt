-- ===== src/Broker/Memory/Delivery.antt =====
-- What the in-process broker buffers, and that a subscriber sees the same messages whether it comes
-- before them or after them.
use apexio.Base.{
  ℕ, ◌≡◌, refl, sym, ◌∙◌, ap, false, none, some, List, [], ◌∷◌, ◌++◌, append-nil, append_assoc, ok,
  err, Result-cases, inl, inr, arith, if◌then◌else◌,
}
use apexio.Base.Text.{Text, text_eq, text_eq_iff, text_eq_refl, Unicode}
use apexio.Base.Dict.{Dict, lookup-insert}
use apexio.Errors.{Err}
use apexio.Schema.Event.{LogEvent}
use apexio.Schema.Wire.{Codec, marshal_event}
use apexio.Broker.Interface.{Message, Handler}
use apexio.Broker.Memory.{
  slice_at, append_at, Memory, messages, deliver, publish_payload, register, replay_all, subscribe,
  publish,
}

pub slice_at-append_at {ℓ} :
    {A : Type ℓ} (k j : Text) (x : A) (m : Dict (List A))
    → slice_at j (append_at k x m) ≡ (if text_eq k j then slice_at k m ++ x ∷ [] else slice_at j m)
unfolding slice_at append_at
slice_at-append_at k j x m = rw lookup-insert (ground (arith, text_eq_iff k j))

module _ (W : Type 0) ⦃u : Unicode⦄ ⦃c : Codec⦄ where
  abbrev pub message : Text → List ℕ → Message
  message topic payload = record { topic = topic; key = []; value = payload }

  publish_accepted :
      (topic : Text) (e : LogEvent) (m : Memory W) (w : W) {payload : List ℕ}
      → marshal_event e ≡ ok payload
      → m.closed ≡ false
      → publish W none topic e m w ≡ publish_payload W none topic payload m w
  unfolding publish
  publish_accepted topic e m w encoded is_open = rw (encoded, publish) (rw is_open refl)

  publish_refused :
      (topic : Text) (e : LogEvent) (m : Memory W) (w : W) {x : Err}
      → marshal_event e ≡ err x
      → publish W none topic e m w ≡ (some x, m, w)
  unfolding publish
  publish_refused topic e m w refused = rw (refused, publish)

  -- A publication of an event that marshals, to an open broker, adds its message behind those of
  -- its topic, also if a handler fails, and changes no other topic.
  pub messages-publish :
      (topic j : Text) (e : LogEvent) (m : Memory W) (w : W) {payload : List ℕ}
      → marshal_event e ≡ ok payload
      → m.closed ≡ false
      → messages W j (publish W none topic e m w).1 ≡ (
          if text_eq topic j
          then messages W topic m ++ message topic payload ∷ []
          else messages W j m)
  unfolding publish_payload messages
  messages-publish topic j e m w encoded is_open =
      rw (publish_accepted topic e m w encoded is_open) (slice_at-append_at topic j _ m.topics)

  -- The message of an event, if it has one.
  pub message_of : Text → LogEvent → List Message
  message_of topic e = elim (marshal_event e) [
    | ok payload ↦ message topic payload ∷ []
    | err x ↦ []
  ]

  message_of-ok :
      (topic : Text) (e : LogEvent) {payload : List ℕ}
      → marshal_event e ≡ ok payload
      → message_of topic e ≡ message topic payload ∷ []
  unfolding message_of
  message_of-ok topic e encoded = rw (encoded, message_of)

  message_of-err :
      (topic : Text) (e : LogEvent) {x : Err} → marshal_event e ≡ err x → message_of topic e ≡ []
  unfolding message_of
  message_of-err topic e refused = rw (refused, message_of)

  -- A publication to a topic that nobody hears is buffered, and changes nothing else.
  publish_unheard :
      (topic : Text) (e : LogEvent) (m : Memory W) (w : W)
      → m.closed ≡ false
      → slice_at topic m.handlers ≡ []
      → ((publish W none topic e m w).1.closed ≡ false)
        × ((publish W none topic e m w).1.handlers ≡ m.handlers)
        × ((publish W none topic e m w).2 ≡ w)
        × (messages W topic (publish W none topic e m w).1
            ≡ messages W topic m ++ message_of topic e)
  unfolding publish_payload deliver
  publish_unheard topic e m w is_open unheard = elim (Result-cases (marshal_event e)) [
    | inl (payload, encoded) ↦ (
      rw (publish_accepted topic e m w encoded is_open) is_open,
      rw (publish_accepted topic e m w encoded is_open) refl,
      rw (publish_accepted topic e m w encoded is_open, unheard) refl,
      messages-publish topic topic e m w encoded is_open
          ∙ rw (text_eq_refl topic, message_of-ok topic e encoded) refl,
    )
    | inr (x, refused) ↦
        rw (publish_refused topic e m w refused, message_of-err topic e refused)
          (is_open, refl, refl, sym (append-nil (messages W topic m)))
  ]

  module _ (h : Handler W) (never_fails : (msg : Message) (w : W) → (h none msg w).0 ≡ none) where
    -- The world after the handler has seen the messages.
    abbrev pub run_all : List Message → W → W
    run_all [] w = w
    run_all (msg ∷ msgs) w = run_all msgs (h none msg w).1

    run_all-append :
        (xs ys : List Message) (w : W) → run_all (xs ++ ys) w ≡ run_all ys (run_all xs w)
    run_all-append [] ys w = refl
    run_all-append (x ∷ xs) ys w = run_all-append xs ys (h none x w).1

    replay_all-run_all :
        (msgs : List Message) (w : W) → replay_all W h none msgs w ≡ (none, run_all msgs w)
    unfolding replay_all
    replay_all-run_all [] w = refl
    replay_all-run_all (msg ∷ msgs) w =
        rw (never_fails msg w, replay_all) (replay_all-run_all msgs (h none msg w).1)

    deliver_one : (msg : Message) (w : W) → deliver W (h ∷ []) none msg w ≡ (none, (h none msg w).1)
    unfolding deliver
    deliver_one msg w = rw (never_fails msg w, deliver)

    -- One publication to a topic that only `h` hears.
    publish_heard :
        (topic : Text) (e : LogEvent) (m : Memory W) (w : W)
        → m.closed ≡ false
        → slice_at topic m.handlers ≡ h ∷ []
        → ((publish W none topic e m w).1.closed ≡ false)
          × ((publish W none topic e m w).1.handlers ≡ m.handlers)
          × ((publish W none topic e m w).2 ≡ run_all (message_of topic e) w)
    unfolding publish_payload
    publish_heard topic e m w is_open heard = elim (Result-cases (marshal_event e)) [
      | inl (payload, encoded) ↦ (
        rw (publish_accepted topic e m w encoded is_open) is_open,
        rw (publish_accepted topic e m w encoded is_open) refl,
        rw
            (
              publish_accepted topic e m w encoded is_open,
              heard,
              deliver_one,
              message_of-ok topic e encoded,
            )
            refl,
      )
      | inr (x, refused) ↦
          rw (publish_refused topic e m w refused, message_of-err topic e refused)
            (is_open, refl, refl)
    ]

    -- Publications in a row, their errors left aside.
    pub publish_each : Text → List LogEvent → Memory W → W → Memory W × W
    publish_each topic [] m w = (m, w)
    publish_each topic (e ∷ es) m w =
        let (_, m', w') = publish W none topic e m w in publish_each topic es m' w'

    -- The messages of the events, in their order.
    abbrev pub messages_of : Text → List LogEvent → List Message
    messages_of topic [] = []
    messages_of topic (e ∷ es) = message_of topic e ++ messages_of topic es

    publish_each-heard :
        (topic : Text) (es : List LogEvent) (m : Memory W) (w : W)
        → m.closed ≡ false
        → slice_at topic m.handlers ≡ h ∷ []
        → (publish_each topic es m w).1 ≡ run_all (messages_of topic es) w
    unfolding publish_each
    publish_each-heard topic [] m w is_open heard = refl
    publish_each-heard topic (e ∷ es) m w is_open heard =
        let (still_open, same, world) = publish_heard topic e m w is_open heard in
        publish_each-heard topic es _ _ still_open (ap (slice_at topic) same ∙ heard)
        ∙ (ap (run_all (messages_of topic es)) world
            ∙ sym (run_all-append (message_of topic e) (messages_of topic es) w))

    publish_each-unheard :
        (topic : Text) (es : List LogEvent) (m : Memory W) (w : W)
        → m.closed ≡ false
        → slice_at topic m.handlers ≡ []
        → ((publish_each topic es m w).1 ≡ w)
          × ((publish_each topic es m w).0.closed ≡ false)
          × (messages W topic (publish_each topic es m w).0
              ≡ messages W topic m ++ messages_of topic es)
    unfolding publish_each
    publish_each-unheard topic [] m w is_open unheard =
        (refl, is_open, sym (append-nil (messages W topic m)))
    publish_each-unheard topic (e ∷ es) m w is_open unheard =
        let (still_open, same, world, buffered) = publish_unheard topic e m w is_open unheard in
        let (world', open', buffered') =
          publish_each-unheard topic es _ _ still_open (ap (slice_at topic) same ∙ unheard) in
        (
          world' ∙ world,
          open',
          buffered'
              ∙ (ap (λ t. t ++ messages_of topic es) buffered
                  ∙ append_assoc (messages W topic m) (message_of topic e) (messages_of topic es)),
        )

    subscribe_open :
        (topic : Text) (m : Memory W) (w : W)
        → m.closed ≡ false
        → subscribe W none (topic ∷ []) (some h) m w ≡ (
          none,
          record m { handlers = append_at topic h m.handlers },
          run_all (messages W topic m) w,
        )
    unfolding subscribe register messages
    subscribe_open topic m w is_open =
        rw (is_open, replay_all-run_all (slice_at topic m.topics) w) refl

    subscribed :
        (topic : Text) (m : Memory W)
        → slice_at topic m.handlers ≡ []
        → slice_at topic (append_at topic h m.handlers) ≡ h ∷ []
    subscribed topic m unheard =
        slice_at-append_at topic topic h m.handlers ∙ rw (text_eq_refl topic, unheard) refl

    -- On an open broker where a topic has no handler and no message, a handler that never fails
    -- has the same effect whether it subscribes before a list of events is published to the topic
    -- or after: the world behind both is the same.
    pub subscribe-publish_each :
        (topic : Text) (es : List LogEvent) (m : Memory W) (w : W)
        → m.closed ≡ false
        → slice_at topic m.handlers ≡ []
        → slice_at topic m.topics ≡ []
        → let (_, early, v) = subscribe W none (topic ∷ []) (some h) m w in
          let (late, v') = publish_each topic es m w in
          (publish_each topic es early v).1 ≡ (subscribe W none (topic ∷ []) (some h) late v').2
    subscribe-publish_each topic es m w is_open unheard fresh =
        let (same_world, still_open, buffered) =
          publish_each-unheard topic es m w is_open unheard in
        rw
          (
            subscribe_open topic m w is_open,
            subscribe_open topic (publish_each topic es m w).0 (publish_each topic es m w).1
                still_open,
            buffered,
            same_world,
          )
          (publish_each-heard topic es _ _ is_open (subscribed topic m unheard)
            ∙ (ap (λ msgs. run_all (messages_of topic es) (run_all msgs w)) nothing_buffered
                ∙ sym (ap (λ msgs. run_all (msgs ++ messages_of topic es) w) nothing_buffered)))
      where
        nothing_buffered : messages W topic m ≡ []
        nothing_buffered = unfold messages in fresh
