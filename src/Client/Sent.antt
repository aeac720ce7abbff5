-- ===== src/Client/Sent.antt =====
-- examples/sample-client/main.go against the gateway of cmd/gateway: what a log that the client takes
-- for sent has become.
use mathlib.Core.Path.{subst}
use apexio.Base.{
  ℕ, ◌≡◌, ◌≢◌, refl, sym, ◌∙◌, ap, inl, inr, false, ◌==◌, Option, none, some, List, [], ◌∷◌, ◌++◌,
  Result, ok, err, ok-injective, arith, if◌then◌else◌,
}
use apexio.Base.Text.{Text, codes, text_eq, Unicode}
use apexio.Broker.Interface.{Publisher, IsLog, Message, Carries}
use apexio.Client.{Now, Encoders, Transport, rest_payload, check_status, send_rest}
use apexio.Errors.{Err, Ctx, rest_status}
use apexio.Gateway.Ingest.{Decoders, Gateway}
use apexio.Gateway.Rest.{Answered, serve_rest-Answered}
use apexio.Gateway.Wiring.{Settings, serve}
use apexio.Gateway.Wiring.Guarded.{Routed, serve-Routed}
use apexio.Http.{Request, Response}
use apexio.Schema.Event.{LogEvent}
use apexio.Schema.Otlp.{ResourceLogs}
use apexio.Schema.Rest.Accepts.{checked-ok}
use apexio.Schema.Rest.{RestPayload, from_rest, rest_event}
use apexio.Schema.Scan.{Floats}
use apexio.Schema.Time.{Time}
use apexio.Schema.Wire.{Codec}

-- The part of a URL behind its base.
abbrev pub behind : Text → Text → Text
behind [] url = url
behind (_ ∷ base) [] = []
behind (_ ∷ base) (_ ∷ url) = behind base url

pub behind-append : (base path : Text) → behind base (base ++ path) ≡ path
behind-append [] path = refl
behind-append (c ∷ base) path = behind-append base path

-- The encoders of the client and the decoders of the gateway agree.
pub record Agree (E : Encoders) (D : Decoders) : Type 0 where
  pub decode_rest-marshal_rest :
      (p : RestPayload) (body : List ℕ)
      → E.marshal_rest p ≡ ok body
      → D.decode_rest (record { bytes = body; failure = none }) ≡ ok p
  pub unmarshal_proto-marshal_proto :
      (rls : List (Option ResourceLogs)) (body : List ℕ)
      → E.marshal_proto rls ≡ ok body
      → D.unmarshal_proto body ≡ ok rls

module _ ⦃u : Unicode⦄ ⦃f : Floats⦄ ⦃c : Codec⦄ (P : Publisher) (L : IsLog P) (D : Decoders)
    (cfg : Settings) (ctx : ℕ → Ctx) (clock : ℕ → Time) where
  -- The request that the gateway at a base URL gets for a post: the client sends no header but the
  -- content type.
  abbrev pub request : Text → Text → Text → List ℕ → Request
  request base url content_type body = record {
    method = codes "POST";
    path = behind base url;
    header = λ name. if text_eq name (codes "Content-Type") then content_type else [];
    body = record { bytes = body; failure = none };
    ctx = ctx;
    clock = clock;
  }

  -- A connection that reaches the gateway.
  abbrev pub to_gateway : Text → Transport
  to_gateway base = record {
    World = Gateway P;
    post = λ url content_type body g.
        let (resp, g') = serve P D cfg (request base url content_type body) g in (ok resp, g');
  }

  -- What a call of `sendREST` says of what is published: one message, of an event with the message
  -- and the service, or none.
  abbrev pub Sent : Text → Text → Gateway P → Option Err × Gateway P → Type 0
  Sent message service g (none, g') =
      (e : LogEvent) × (msg : Message) × (e.message ≡ message)
      × (e.service ≡ service)
      × Carries cfg.topic e msg
      × (L.published g'.bus ≡ L.published g.bus ++ msg ∷ [])
  Sent message service g (some x, g') = L.published g'.bus ≡ L.published g.bus

  event_of :
      (now : Time) (p : RestPayload) (e : LogEvent)
      → from_rest now p ≡ ok e
      → (e.message ≡ p.message) × (e.service ≡ p.source.service)
  unfolding from_rest rest_event
  event_of now p e mapped =
      let (same, valid) = checked-ok (rest_event now p) mapped in
      (ap (λ (x : LogEvent). x.message) same, ap (λ (x : LogEvent). x.service) same)

  pub other_path : codes "/api/v1/log" ≢ codes "/v1/logs"
  other_path same = cc

  other_status : (n : ℕ) → n ≢ 201 → (n == 201) ≡ false
  other_status n h = ground (arith, h)

  module _ (E : Encoders) (A : Agree E D) (now : Now) (base : Text) where
    Sent-Answered :
        (message service : Text) (g : Gateway P) (r : Request) (body : List ℕ)
        (out : Response × Gateway P)
        → r.body ≡ record { bytes = body; failure = none }
        → E.marshal_rest (rest_payload now message service) ≡ ok body
        → Answered P L D cfg.topic r g out
        → Sent message service g
            (check_status (to_gateway base) E now 201 rest_status (ok out.0, out.1))
    unfolding rest_payload
    Sent-Answered message service g r body out same_body encoded
          (inl (status, p, e, msg, decoded, mapped, carried, put, counts)) =
        let same : p ≡ rest_payload now message service = ok-injective (
          sym decoded
          ∙ (ap D.decode_rest same_body
              ∙ A.decode_rest-marshal_rest (rest_payload now message service) body encoded)) in
        let (has_message, has_service) = event_of (r.clock 0) p e mapped in
        rw status (
          e,
          msg,
          has_message ∙ ap (λ (q : RestPayload). q.message) same,
          has_service ∙ ap (λ (q : RestPayload). q.source.service) same,
          carried,
          put,
        )
    Sent-Answered message service g r body out same_body encoded (inr (status, put, counts)) =
        rw (other_status out.0.status status) put

    Sent-Routed :
        (message service : Text) (g : Gateway P) (r : Request) (body : List ℕ)
        (out : Response × Gateway P)
        → r.path ≡ codes "/api/v1/log"
        → r.body ≡ record { bytes = body; failure = none }
        → E.marshal_rest (rest_payload now message service) ≡ ok body
        → Routed P D cfg r g out
        → Sent message service g
            (check_status (to_gateway base) E now 201 rest_status (ok out.0, out.1))
    Sent-Routed message service g r body out path same_body encoded
          (inl (here, method, key, same)) =
        Sent-Answered message service g r body out same_body encoded (
          subst (Answered P L D cfg.topic r g) (sym same) (serve_rest-Answered P L D cfg.topic r g))
    Sent-Routed message service g r body out path same_body encoded
          (inr (inl (other, method, key, same))) =
        absurd (other_path (sym path ∙ other))
    Sent-Routed message service g r body out path same_body encoded
          (inr (inr (same, status, other))) =
        rw status (ap (λ (h : Gateway P). L.published h.bus) same)

    -- Against a gateway over a publisher that is a log, with encoders and decoders that agree:
    -- `sendREST` gives no error only if the gateway has published one message more, of an event with
    -- the message and the service that were sent; with an error it has published nothing.
    pub send_rest-Sent :
        (message service : Text) (g : Gateway P)
        → Sent message service g (send_rest (to_gateway base) E now base message service g)
    unfolding send_rest
    send_rest-Sent message service g = go (E.marshal_rest (rest_payload now message service)) refl
      where
        go :
            (r : Result Err (List ℕ))
            → E.marshal_rest (rest_payload now message service) ≡ r
            → Sent message service g (elim r [
              | err x ↦ (some x, g)
              | ok body ↦ check_status (to_gateway base) E now 201 rest_status (
                  (to_gateway base).post
                    (base ++ codes "/api/v1/log")
                    (codes "application/json")
                    body
                    g)
            ])
        go (err x) refused = refl
        go (ok body) encoded =
            Sent-Routed message service g _ body _ (behind-append base (codes "/api/v1/log")) refl
              encoded
              (serve-Routed P D cfg
                (request base (base ++ codes "/api/v1/log") (codes "application/json") body) g)
