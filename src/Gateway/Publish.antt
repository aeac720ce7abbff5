-- ===== src/Gateway/Publish.antt =====
-- cmd/gateway/publish.go: a list of events is published one by one, over any publisher.
use apexio.Base.{
  ℕ, suc, ◌+◌, ◌<◌, ◌≡◌, refl, sym, ◌∙◌, ap, Option, none, some, List, [], ◌∷◌, ◌++◌, append-nil,
  append_assoc, take, length, arith,
}
use apexio.Base.Text.{Text, Unicode}
use apexio.Errors.{Err, Ctx, wrap, publish_event}
use apexio.Schema.Event.{LogEvent}
use apexio.Schema.Wire.{Codec}
use apexio.Broker.Interface.{Publisher, IsLog, Message, Carries, CarriesAll}

module _ (P : Publisher) where
  -- The loop of `publishEvents` at index `i`. `ctx i` is what the context gives then.
  unfoldable pub publish_from :
      ℕ → (ℕ → Ctx) → Text → List LogEvent → P.State → Option Err × P.State
  publish_from i ctx topic [] s = (none, s)
  publish_from i ctx topic (e ∷ events) s =
      let (r, s') = P.publish (ctx i) topic e s in
      elim r [
        | some x ↦ (some (wrap (publish_event i) x), s')
        | none ↦ publish_from (suc i) ctx topic events s'
      ]

  unfoldable pub publish_events : (ℕ → Ctx) → Text → List LogEvent → P.State → Option Err × P.State
  publish_events = publish_from 0

module _ ⦃u : Unicode⦄ ⦃c : Codec⦄ (P : Publisher) (L : IsLog P) where
  -- What a call that published a list from index `i` may have done, by what was published before:
  -- everything, or what is before the event that its error names.
  abbrev pub Published : ℕ → Text → List LogEvent → List Message → Option Err × P.State → Type 0
  Published i topic events before (none, s) =
      (msgs : List Message) × CarriesAll topic events msgs × (L.published s ≡ before ++ msgs)
  Published i topic events before (some x, s) =
      (n : ℕ) × (y : Err) × (msgs : List Message) × (n < length events)
      × (x ≡ wrap (publish_event (i + n)) y)
      × CarriesAll topic (take n events) msgs
      × (L.published s ≡ before ++ msgs)

  later :
      (i : ℕ) (topic : Text) (e : LogEvent) (events : List LogEvent) (msg : Message)
      (before now : List Message) (o : Option Err × P.State)
      → Carries topic e msg
      → now ≡ before ++ msg ∷ []
      → Published (suc i) topic events now o
      → Published i topic (e ∷ events) before o
  later i topic e events msg before now (none, s) carried put (msgs, cs, h) =
      (msg ∷ msgs, (carried, cs), h ∙ ap (λ l. l ++ msgs) put ∙ append_assoc before (msg ∷ []) msgs)
  later i topic e events msg before now (some x, s) carried put (n, y, msgs, below, same, cs, h) = (
    suc n,
    y,
    msg ∷ msgs,
    omega (arith, below),
    same ∙ ap (λ (k : ℕ). wrap (publish_event k) y) (omega arith),
    (carried, cs),
    h ∙ ap (λ l. l ++ msgs) put ∙ append_assoc before (msg ∷ []) msgs,
  )

  Published-publish_from :
      (i : ℕ) (ctx : ℕ → Ctx) (topic : Text) (events : List LogEvent) (s : P.State)
      → Published i topic events (L.published s) (publish_from P i ctx topic events s)
  unfolding publish_from
  Published-publish_from i ctx topic [] s = ([], refl, sym (append-nil (L.published s)))
  Published-publish_from i ctx topic (e ∷ events) s =
      go (P.publish (ctx i) topic e s) refl (Published-publish_from (suc i) ctx topic events)
    where
      go :
          (o : Option Err × P.State)
          → P.publish (ctx i) topic e s ≡ o
          → ((t : P.State)
              → Published
                  (suc i)
                  topic
                  events
                  (L.published t)
                  (publish_from P (suc i) ctx topic events t))
          → Published i topic (e ∷ events) (L.published s) (elim o.0 [
            | some x ↦ (some (wrap (publish_event i) x), o.1)
            | none ↦ publish_from P (suc i) ctx topic events o.1
          ])
      go (some x, t) same rest = (
        0,
        x,
        [],
        omega arith,
        ap (λ (k : ℕ). wrap (publish_event k) x) (omega arith),
        refl,
        sym (ap (λ o. L.published o.1) same)
            ∙ L.published-publish_failed (ctx i) topic e s x (ap (λ o. o.0) same)
            ∙ sym (append-nil (L.published s)),
      )
      go (none, t) same rest =
          let (msg, carried, put) = L.published-publish (ctx i) topic e s (ap (λ o. o.0) same) in
          later i topic e events msg (L.published s) (L.published t) _ carried
            (sym (ap (λ o. L.published o.1) same) ∙ put) (rest t)

  pub Published-publish_events :
      (ctx : ℕ → Ctx) (topic : Text) (events : List LogEvent) (s : P.State)
      → Published 0 topic events (L.published s) (publish_events P ctx topic events s)
  unfolding publish_events
  Published-publish_events = Published-publish_from 0
