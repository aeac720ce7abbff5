-- ===== src/Gateway/Rest.antt =====
-- cmd/gateway/rest.go: the REST ingest handler.
use apexio.Base.{
  inl, inr, ◌⊎◌, ap, ℕ, zero, suc, ◌<◌, length, take, append-nil, ◌≡◌, ◌≢◌, refl, ◌∙◌, Option, none,
  some, List, [], ◌∷◌, ◌++◌, Result, ok, err, arith,
}
use apexio.Base.Text.{Text, codes, Unicode}
use apexio.Errors.{Err}
use apexio.Schema.Event.{LogEvent}
use apexio.Schema.Rest.{RestPayload, from_rest}
use apexio.Schema.Wire.{Codec}
use apexio.Broker.Interface.{Publisher, IsLog, Message, Carries, CarriesAll}
use apexio.Gateway.Metrics.{inc_rest_ok, inc_rest_err}
use apexio.Gateway.Publish.{publish_events, Published, Published-publish_events}
use apexio.Gateway.Ingest.{Decoders, Gateway, write_err}
use apexio.Http.{Request, Response, Handler, created_reply}

module _ ⦃u : Unicode⦄ (P : Publisher) (D : Decoders) (topic : Text) where
  abbrev fail : ℕ → Text → Err → Gateway P → Response × Gateway P
  fail code msg x g = (write_err code msg x, record g { metrics = inc_rest_err g.metrics })

  abbrev created : LogEvent → Response
  created e = record {
    status = 201;
    content_type = codes "application/json";
    reply = created_reply e.id e.service;
  }

  abbrev answer : LogEvent → Option Err → Gateway P → Response × Gateway P
  answer e (some x) g = fail 502 (codes "publish failed") x g
  answer e none g = (created e, record g { metrics = inc_rest_ok g.metrics })

  -- The handler, from the mapped event on.
  abbrev pub ingest_event : Request → LogEvent → Gateway P → Response × Gateway P
  ingest_event r e g =
      let (o, s) = publish_events P r.ctx topic (e ∷ []) g.bus in answer e o (record g { bus = s })

  -- `ServeHTTP` of `ingestHandler`
  unfoldable pub serve_rest : Handler (Gateway P)
  serve_rest r g = elim (D.decode_rest r.body) [
    | err x ↦ fail 400 (codes "invalid json") x g
    | ok payload ↦ elim (from_rest (r.clock 0) payload) [
      | err x ↦ fail 400 (codes "validation failed") x g
      | ok e ↦ ingest_event r e g
    ]
  ]

module _ ⦃u : Unicode⦄ ⦃c : Codec⦄ (P : Publisher) (L : IsLog P) (D : Decoders) (topic : Text) where
  -- What an answer says of the request, of what is published, and of the counters.
  abbrev pub Answered : Request → Gateway P → Response × Gateway P → Type 0
  Answered r g (resp, g') =
      ((resp.status ≡ 201)
        × (p : RestPayload) × (e : LogEvent) × (msg : Message) × (D.decode_rest r.body ≡ ok p)
        × (from_rest (r.clock 0) p ≡ ok e)
        × Carries topic e msg
        × (L.published g'.bus ≡ L.published g.bus ++ msg ∷ [])
        × (g'.metrics ≡ inc_rest_ok g.metrics))
      ⊎ (resp.status ≢ 201)
        × (L.published g'.bus ≡ L.published g.bus)
        × (g'.metrics ≡ inc_rest_err g.metrics)

  Answered-fail :
      (r : Request) (g : Gateway P) (s : P.State) (code : ℕ) (msg : Text) (x : Err)
      → code ≢ 201
      → L.published s ≡ L.published g.bus
      → Answered r g (fail P D topic code msg x (record g { bus = s }))
  unfolding write_err
  Answered-fail r g s code msg x other kept = inr (other, kept, refl)

  one_message :
      (e : LogEvent) (msgs : List Message) (before now : List Message)
      → CarriesAll topic (e ∷ []) msgs
      → now ≡ before ++ msgs
      → (msg : Message) × Carries topic e msg × (now ≡ before ++ msg ∷ [])
  one_message e [] before now cs put = elim cs [ ]
  one_message e (msg ∷ msgs) before now (carried, last) put =
      (msg, carried, put ∙ ap (λ l. before ++ msg ∷ l) last)

  no_message :
      (n : ℕ) (e : LogEvent) (msgs : List Message) (before now : List Message)
      → n < length (e ∷ [])
      → CarriesAll topic (take n (e ∷ [])) msgs
      → now ≡ before ++ msgs
      → now ≡ before
  no_message zero e msgs before now below none_left put =
      put ∙ ap (λ l. before ++ l) none_left ∙ append-nil before
  no_message (suc n) e msgs before now below cs put = elim (absurd_lt n below) [ ]
    where
      absurd_lt : (n : ℕ) → suc n < 1 → ⊥
      absurd_lt n below = omega (arith, below)

  Answered-ingest_event :
      (r : Request) (g : Gateway P) (p : RestPayload) (e : LogEvent)
      → D.decode_rest r.body ≡ ok p
      → from_rest (r.clock 0) p ≡ ok e
      → Answered r g (ingest_event P D topic r e g)
  unfolding write_err
  Answered-ingest_event r g p e decoded mapped =
      go (publish_events P r.ctx topic (e ∷ []) g.bus)
        (Published-publish_events P L r.ctx topic (e ∷ []) g.bus)
    where
      go :
          (o : Option Err × P.State)
          → Published P L 0 topic (e ∷ []) (L.published g.bus) o
          → Answered r g (answer P D topic e o.0 (record g { bus = o.1 }))
      go (none, s) (msgs, cs, put) =
          let (msg, carried, now) = one_message e msgs _ _ cs put in
          inl (refl, p, e, msg, decoded, mapped, carried, now, refl)
      go (some x, s) (n, y, msgs, below, same, cs, put) =
          Answered-fail r g s 502 (codes "publish failed") x (λ no. omega (arith, no))
            (no_message n e msgs (L.published g.bus) (L.published s) below cs put)

  pub serve_rest-Answered : (r : Request) (g : Gateway P) → Answered r g (serve_rest P D topic r g)
  unfolding serve_rest write_err
  serve_rest-Answered r g = go (D.decode_rest r.body) refl
    where
      mapped_as :
          (p : RestPayload) (m : Result Err LogEvent)
          → D.decode_rest r.body ≡ ok p
          → from_rest (r.clock 0) p ≡ m
          → Answered r g (elim m [
            | err x ↦ fail P D topic 400 (codes "validation failed") x g
            | ok e ↦ ingest_event P D topic r e g
          ])
      mapped_as p (ok e) decoded mapped = Answered-ingest_event r g p e decoded mapped
      mapped_as p (err x) decoded mapped =
          Answered-fail r g g.bus 400 (codes "validation failed") x (λ no. omega (arith, no)) refl

      go :
          (d : Result Err RestPayload)
          → D.decode_rest r.body ≡ d
          → Answered r g (elim d [
            | err x ↦ fail P D topic 400 (codes "invalid json") x g
            | ok p ↦ elim (from_rest (r.clock 0) p) [
              | err x ↦ fail P D topic 400 (codes "validation failed") x g
              | ok e ↦ ingest_event P D topic r e g
            ]
          ])
      go (ok p) decoded = mapped_as p (from_rest (r.clock 0) p) decoded refl
      go (err x) decoded =
          Answered-fail r g g.bus 400 (codes "invalid json") x (λ no. omega (arith, no)) refl
