-- ===== src/Broker/Redpanda/Topics.antt =====
-- pkg/broker/redpanda.go, `Subscribe`: the goroutines of the topics of one subscription, which call
-- the same handler. The turns of their loops come in any interleaving.
pub mod Sound
use mathlib.Core.List.{perm_middle, perm_append_comm}
use mathlib.Core.List.{Perm}
use mathlib.Core.List.Perm
use mathlib.Core.Path.{subst}
use apexio.Base.{
  ◌≡◌, refl, sym, ◌∙◌, ap, ◌⊎◌, inl, inr, ◌||◌, Bool, true, false, Option, none, some, List, [],
  ◌∷◌, ◌++◌, append-nil, append_assoc, All, Result, ok, err, Bool-cases, Option-cases,
}
use apexio.Base.Text.{Text}
use apexio.Errors.{
  Err, wrap, redpanda_handler, redpanda_fetch, redpanda_commit, is_canceled, is_deadline,
}
use apexio.Broker.Interface.{Message, Handler}
use apexio.Broker.Redpanda.{
  Delivery, Session, Outcome, running, stopped, handle_message, consume_step, commit_message,
}

-- The goroutine of a topic: the messages that the handler took, the one that it refused, those that
-- are committed, and whether it has returned.
pub record Reading : Type 0 where
  pub topic : Text
  pub handled : List Message
  pub refused : List Message
  pub committed : List Message
  pub ended : Bool

-- The goroutines, the world that their handler changes, and its calls.
pub record Readings (W : Type 0) : Type 0 where
  pub world : W
  pub calls : List Message
  pub readings : List Reading

-- The messages that the handler was called with.
abbrev pub called_with : Reading → List Message
called_with r = r.handled ++ r.refused

abbrev pub all_called : List Reading → List Message
all_called [] = []
all_called (r ∷ rs) = called_with r ++ all_called rs

with_end : {A B : Type 0} → A ⊎ B → A ⊎ ((true ≡ true) × B)
with_end (inl a) = inl a
with_end (inr b) = inr (refl, b)

module _ {W : Type 0} (h : Handler W) where
  -- The call of the handler in a turn, if there is one.
  abbrev pub message_of : Result Err Message → List Message
  message_of (ok msg) = msg ∷ []
  message_of (err x) = []

  abbrev pub taken : Result Err Message → Option Err → List Message
  taken (ok msg) none = msg ∷ []
  taken (ok msg) (some x) = []
  taken (err x) e = []

  abbrev pub turned_down : Result Err Message → Option Err → List Message
  turned_down (ok msg) none = []
  turned_down (ok msg) (some x) = msg ∷ []
  turned_down (err x) e = []

  abbrev pub answer : Result Err Message → W → Option Err
  answer (ok msg) w = (h none msg w).0
  answer (err x) w = none

  abbrev pub session_of : Outcome W → Session W
  session_of (running t) = t
  session_of (stopped e t) = t

  abbrev pub is_stopped : Outcome W → Bool
  is_stopped (running t) = false
  is_stopped (stopped e t) = true

  -- One turn of the loop of a goroutine.
  abbrev pub turn : Reading → Delivery → W → Outcome W
  turn r d w = consume_step W h r.topic d (record { world = w; committed = r.committed })

  -- A goroutine behind a turn, by the handler's answer and how the turn came out.
  abbrev pub settle : Reading → Result Err Message → Option Err → Outcome W → Reading
  settle r f e o = record r {
    handled = r.handled ++ taken f e;
    refused = r.refused ++ turned_down f e;
    committed = (session_of o).committed;
    ended = is_stopped o;
  }

  abbrev pub advance : Reading → Delivery → W → Reading
  advance r d w = settle r d.fetched (answer d.fetched w) (turn r d w)

  -- A goroutine that has not returned takes a turn.
  pub data Step : Readings W → Readings W → Type 0 where
    takes_turn :
        {s : Readings W} (before after : List Reading) (r : Reading) (d : Delivery)
        → s.readings ≡ before ++ r ∷ after
        → r.ended ≡ false
        → Step s (record {
          world = (session_of (turn r d s.world)).world;
          calls = s.calls ++ message_of d.fetched;
          readings = before ++ advance r d s.world ∷ after;
        })

  pub data Reaches : Readings W → Readings W → Type 0 where
    here : {s : Readings W} → Reaches s s
    next : {s t v : Readings W} → Reaches s t → Step t v → Reaches s v

  -- The world behind calls of the handler.
  abbrev pub ran : List Message → W → W
  ran [] w = w
  ran (msg ∷ msgs) w = ran msgs (h none msg w).1

  -- A topic has committed what the handler took, in order; but for the last such message if its
  -- commit failed, and then the goroutine has returned. It has refused nothing while it runs.
  abbrev pub Kept : Reading → Type 0
  Kept r =
      ((r.committed ≡ r.handled)
        ⊎ ((r.ended ≡ true) × ((msg : Message) × (r.handled ≡ r.committed ++ msg ∷ []))))
      × ((r.refused ≡ []) ⊎ ((r.ended ≡ true) × ((msg : Message) × (r.refused ≡ msg ∷ []))))

  -- What a turn keeps.
  abbrev pub KeptTurn : Reading → Result Err Message → W → Option Err → Outcome W → Type 0
  KeptTurn r f w e o = Kept (settle r f e o) × ((session_of o).world ≡ ran (message_of f) w)

  module _ (r : Reading) (w : W) (same : r.committed ≡ r.handled) (quiet : r.refused ≡ []) where
    -- A goroutine that stops with its messages as they were.
    stopped-KeptTurn :
        (f : Result Err Message) (e x : Option Err) (v : W)
        → ((r.committed ≡ r.handled ++ taken f e)
            ⊎ ((msg : Message) × (r.handled ++ taken f e ≡ r.committed ++ msg ∷ [])))
        → ((r.refused ++ turned_down f e ≡ [])
            ⊎ ((msg : Message) × (r.refused ++ turned_down f e ≡ msg ∷ [])))
        → v ≡ ran (message_of f) w
        → KeptTurn r f w e (stopped x (record { world = v; committed = r.committed }))
    stopped-KeptTurn f e x v kept refused at_v = ((with_end kept, with_end refused), at_v)

    committed-KeptTurn :
        (msg : Message) (topic : Text) (d : Delivery)
        → KeptTurn r (ok msg) w none (
            commit_message W topic d msg
              (record { world = (h none msg w).1; committed = r.committed }))
    committed-KeptTurn msg topic d = go d.commit_error
      where
        go :
            (ce : Option Err)
            → KeptTurn r (ok msg) w none (
                commit_message W topic
                  (record d { commit_error = ce })
                  msg
                  (record { world = (h none msg w).1; committed = r.committed }))
        go none = ((inl (ap (λ l. l ++ msg ∷ []) same), inl (ap (λ l. l ++ []) quiet)), refl)
        go (some x) =
            stopped-KeptTurn (ok msg) none (some (wrap (redpanda_commit topic) x)) (h none msg w).1
              (inr (msg, ap (λ l. l ++ msg ∷ []) (sym same))) (inl (ap (λ l. l ++ []) quiet)) refl

    took :
        (d : Delivery) (msg : Message)
        → (h none msg w).0 ≡ none
        → turn r (record d { fetched = ok msg }) w
          ≡ commit_message W r.topic
              (record d { fetched = ok msg })
              msg
              (record { world = (h none msg w).1; committed = r.committed })
    unfolding consume_step handle_message
    took d msg done = rw (done, handle_message) refl

    turned :
        (d : Delivery) (msg : Message) {x : Err}
        → (h none msg w).0 ≡ some x
        → turn r (record d { fetched = ok msg }) w
          ≡ stopped
              (some (wrap (redpanda_handler r.topic) x))
              (record { world = (h none msg w).1; committed = r.committed })
    unfolding consume_step handle_message
    turned d msg failed = rw (failed, handle_message) refl

    unfetched :
        (d : Delivery) (x : Err)
        → (e : Option Err) × (turn r (record d { fetched = err x }) w
            ≡ stopped e (record { world = w; committed = r.committed }))
    unfolding consume_step
    unfetched d x = elim (Bool-cases (is_canceled x || is_deadline x)) [
      | inl gone ↦ (d.ctx_error, rw gone refl)
      | inr other ↦ (some (wrap (redpanda_fetch r.topic) x), rw other refl)
    ]

    pub turn-KeptTurn : (d : Delivery) → KeptTurn r d.fetched w (answer d.fetched w) (turn r d w)
    turn-KeptTurn d = go d.fetched
      where
        go :
            (f : Result Err Message)
            → KeptTurn r f w (answer f w) (turn r (record d { fetched = f }) w)
        go (ok msg) = elim (Option-cases (h none msg w).0) [
          | inl done ↦
              subst (λ e. KeptTurn r (ok msg) w e (turn r (record d { fetched = ok msg }) w))
                (sym done)
                (subst (KeptTurn r (ok msg) w none) (sym (took d msg done))
                  (committed-KeptTurn msg r.topic (record d { fetched = ok msg })))
          | inr (x, failed) ↦
              subst (λ e. KeptTurn r (ok msg) w e (turn r (record d { fetched = ok msg }) w))
                (sym failed)
                (subst (KeptTurn r (ok msg) w (some x)) (sym (turned d msg failed)) (
                  stopped-KeptTurn (ok msg) (some x) (some (wrap (redpanda_handler r.topic) x))
                    (h none msg w).1 (inl (same ∙ sym (append-nil r.handled)))
                    (inr (msg, ap (λ l. l ++ msg ∷ []) quiet)) refl))
        ]
        go (err x) = subst (KeptTurn r (err x) w none) (sym (unfetched d x).1) (
            stopped-KeptTurn (err x) none (unfetched d x).0 w
              (inl (same ∙ sym (append-nil r.handled))) (inl (ap (λ l. l ++ []) quiet)) refl)
