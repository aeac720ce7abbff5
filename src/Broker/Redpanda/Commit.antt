-- ===== src/Broker/Redpanda/Commit.antt =====
-- pkg/broker/redpanda.go, `consumeTopic`: which messages are committed.
use apexio.Base.{
  ◌≡◌, refl, sym, ◌∙◌, ap, inl, inr, ◌||◌, Option, none, some, List, [], ◌∷◌, ◌++◌, append-nil,
  append_assoc, Result, ok, err, Bool-cases,
}
use apexio.Base.Text.{Text}
use apexio.Errors.{Err, is_canceled, is_deadline, wrap, redpanda_handler, redpanda_commit}
use apexio.Broker.Interface.{Message, Handler}
use apexio.Broker.Redpanda.{
  Delivery, Session, Outcome, running, stopped, handle_message, consume_step, continue,
  consume_topic, commit_message,
}

-- Messages that a handler takes one behind the other, each with success, from a world to a world.
pub data Handled {W : Type 0} (h : Handler W) : W → List Message → W → Type 0 where
  handled_none : {w : W} → Handled h w [] w
  handled_next :
      {w w' v : W} {msg : Message} {msgs : List Message}
      → h none msg w ≡ (none, w')
      → Handled h w' msgs v
      → Handled h w (msg ∷ msgs) v

-- Why a run over a topic stops, by the messages that it fetched and did not commit: a fetch failed,
-- the handler refused the first of them, or the first of them was handled and not committed.
pub data Ended {W : Type 0} (h : Handler W) (topic : Text)
    : W → List Message → Option Err → W → Type 0 where
  ended_fetch : {w : W} {e : Option Err} → Ended h topic w [] e w
  ended_handler :
      {w v : W} {msg : Message} {rest : List Message} {x : Err}
      → h none msg w ≡ (some x, v)
      → Ended h topic w (msg ∷ rest) (some (wrap (redpanda_handler topic) x)) v
  ended_commit :
      {w v : W} {msg : Message} {rest : List Message} {x : Err}
      → h none msg w ≡ (none, v)
      → Ended h topic w (msg ∷ rest) (some (wrap (redpanda_commit topic) x)) v

-- The messages that the fetches give, up to the first that fails.
unfoldable pub fetched_messages : List Delivery → List Message
fetched_messages [] = []
fetched_messages (d ∷ ds) =
    let rest = fetched_messages ds in elim d.fetched [ ok msg ↦ msg ∷ rest | err x ↦ [] ]

module _ {W : Type 0} (h : Handler W) (topic : Text) where
  -- What an outcome may be, by the messages fetched and what was committed before.
  abbrev pub Commits : List Message → Session W → Outcome W → Type 0
  Commits fetched s (running t) =
      (t.committed ≡ s.committed ++ fetched) × Handled h s.world fetched t.world
  Commits fetched s (stopped e t) =
      (handled : List Message) × (rest : List Message) × (v : W) × (fetched ≡ handled ++ rest)
      × (t.committed ≡ s.committed ++ handled)
      × Handled h s.world handled v
      × Ended h topic v rest e t.world

  -- One message: the rest of the run follows where it was handled and committed.
  Commits-handle :
      (d : Delivery) (msg : Message) (msgs : List Message) (s : Session W)
      (rest : Session W → Outcome W)
      → ((t : Session W) → Commits msgs t (rest t))
      → Commits (msg ∷ msgs) s (continue W (handle_message W h none topic d msg s) rest)
  unfolding handle_message
  Commits-handle d msg msgs s rest later = go (h none msg s.world) refl d.commit_error
    where
      later_on :
          (t : Session W) (o : Outcome W)
          → h none msg s.world ≡ (none, t.world)
          → t.committed ≡ s.committed ++ msg ∷ []
          → Commits msgs t o
          → Commits (msg ∷ msgs) s o
      later_on t (running r) handled put (c, hs) = (
        c ∙ ap (λ m. m ++ msgs) put ∙ append_assoc s.committed (msg ∷ []) msgs,
        handled_next handled hs,
      )
      later_on t (stopped e r) handled put (l, rest, v, split, c, hs, end) = (
        msg ∷ l,
        rest,
        v,
        ap (λ m. msg ∷ m) split,
        c ∙ ap (λ m. m ++ l) put ∙ append_assoc s.committed (msg ∷ []) l,
        handled_next handled hs,
        end,
      )

      go :
          (w : Option Err × W)
          → h none msg s.world ≡ w
          → (c : Option Err)
          → Commits (msg ∷ msgs) s (
              continue W
                (elim w.0 [
                  | some x ↦
                      stopped (some (wrap (redpanda_handler topic) x)) (record s { world = w.1 })
                  | none ↦
                      commit_message W topic
                        (record d { commit_error = c })
                        msg
                        (record s { world = w.1 })
                ])
                rest)
      go (some x, w) same c = (
        [],
        msg ∷ msgs,
        s.world,
        refl,
        sym (append-nil s.committed),
        handled_none,
        ended_handler same,
      )
      go (none, w) same (some x) = (
        [],
        msg ∷ msgs,
        s.world,
        refl,
        sym (append-nil s.committed),
        handled_none,
        ended_commit same,
      )
      go (none, w) same none =
          let t : Session W = record { world = w; committed = s.committed ++ msg ∷ [] } in
          later_on t (rest t) same refl (later t)

  -- A run over a topic commits the messages it fetches, in their order, each behind its handler's
  -- success, up to where it stops: a message that the handler refuses, or whose commit fails, is
  -- the first that is left uncommitted, and no later one is handled.
  pub Commits-consume_topic :
      (ds : List Delivery) (s : Session W)
      → Commits (fetched_messages ds) s (consume_topic W h topic ds s)
  unfolding consume_topic fetched_messages consume_step handle_message
  Commits-consume_topic [] s = (sym (append-nil s.committed), handled_none)
  Commits-consume_topic (d ∷ ds) s = go d.fetched refl (λ t. Commits-consume_topic ds t)
    where
      go :
          (f : Result Err Message)
          → d.fetched ≡ f
          → ((t : Session W) → Commits (fetched_messages ds) t (consume_topic W h topic ds t))
          → Commits (fetched_messages (d ∷ ds)) s (consume_topic W h topic (d ∷ ds) s)
      go (ok msg) f later =
          rw (f) (Commits-handle d msg (fetched_messages ds) s (consume_topic W h topic ds) later)
      go (err x) f later = elim (Bool-cases (is_canceled x || is_deadline x)) [
        | inl c ↦
            rw (f, c)
              ([], [], s.world, refl, sym (append-nil s.committed), handled_none, ended_fetch)
        | inr c ↦
            rw (f, c)
              ([], [], s.world, refl, sym (append-nil s.committed), handled_none, ended_fetch)
      ]
