-- ===== src/Client/Exported.antt =====
-- examples/sample-client/main.go, `sendOTLP`, against the gateway of cmd/gateway.
use mathlib.Core.Path.{subst}
use apexio.Base.{
  ℕ, zero, suc, ◌≡◌, ◌≢◌, ◌<◌, refl, sym, ◌∙◌, ap, ◌⊎◌, inl, inr, true, false, ◌==◌, Option, none,
  some, List, [], ◌∷◌, ◌++◌, Result, ok, err, append-nil, length, take, ltb, arith, if◌then◌else◌,
}
use apexio.Base.Text.{Text, codes, text_eq, text_eq_iff, contains, has_prefix, to_lower, Unicode}
use apexio.Base.Dict.{lookup, insert}
use apexio.Broker.Interface.{Publisher, IsLog, Message, Carries, CarriesAll}
use apexio.Client.{attribute, Now, Encoders, otlp_request, check_status, send_otlp}
use apexio.Client.Sent.{Agree, behind-append, request, to_gateway, Sent, other_path}
use apexio.Errors.{Err, Ctx, otlp_status}
use apexio.Gateway.Ingest.{Decoders, Gateway}
use apexio.Gateway.Otlp.{ExportResponse, export, serve_otlp, read_body, unmarshal, max_body}
use apexio.Gateway.Otlp.Exported.{Exported, Exported-export, is_ok, serve_otlp-export}
use apexio.Gateway.Wiring.{Settings}
use apexio.Gateway.Wiring.Guarded.{Routed, serve-Routed}
use apexio.Http.{Request, Response}
use apexio.Schema.Attrs.{merge_attrs, merge_maps, merge_map, first_attr}
use apexio.Schema.Event.{LogEvent}
use apexio.Schema.Otlp.{
  ResourceLogs, log_events_from_otlp, event_of_record, from_otlp_like, otlp_event,
  any_value_to_string, key_values_to_map, collect_key_values,
}
use apexio.Schema.Otlp.Convert.{Converts, locate_resources, log_events_from_otlp-ok_iff}
use apexio.Schema.Rest.Accepts.{checked-ok}
use apexio.Schema.Scan.{Floats}
use apexio.Schema.Time.{Time}
use apexio.Schema.Wire.{Codec}

apart : (s t : Text) → text_eq s t ≡ false → s ≢ t
apart s t h same = ground (arith, (text_eq_iff s t).1 same)

module _ ⦃u : Unicode⦄ ⦃f : Floats⦄ where
  service-first_attr :
      (service : Text)
      → first_attr
          (merge_attrs (
            key_values_to_map (
              attribute (codes "service.name") service
              ∷ attribute (codes "deployment.environment") (codes "dev")
              ∷ [])
            ∷ key_values_to_map (attribute (codes "http.request.method") (codes "POST") ∷ [])
            ∷ []))
          (codes "service.name" ∷ codes "service" ∷ [])
        ≡ service
  unfolding first_attr merge_attrs merge_maps merge_map key_values_to_map collect_key_values
      any_value_to_string insert lookup text_eq
  service-first_attr [] = refl
  service-first_attr (c ∷ service) = refl

  -- The one event of the request that the client sends.
  one_event :
      (clock : ℕ → Time) (now : Now) (message service : Text) (events : List LogEvent)
      → log_events_from_otlp clock (some (otlp_request now message service)) ≡ ok events
      → (e : LogEvent) × (events ≡ e ∷ []) × (e.message ≡ message) × (e.service ≡ service)
  unfolding otlp_request event_of_record from_otlp_like otlp_event any_value_to_string
  one_event clock now message service events mapped =
      go events
        ((log_events_from_otlp-ok_iff clock (otlp_request now message service) events).0 mapped)
    where
      go :
          (events : List LogEvent)
          → Converts clock (locate_resources (otlp_request now message service)) [] events
          → (e : LogEvent) × (events ≡ e ∷ []) × (e.message ≡ message) × (e.service ≡ service)
      go [] c = elim c [ ]
      go (e ∷ rest) (same, none_left) =
          let (is_event, valid) = checked-ok _ same in
          (
            e,
            ap (λ l. e ∷ l) none_left,
            ap (λ (x : LogEvent). x.message) is_event,
            ap (λ (x : LogEvent). x.service) is_event ∙ service-first_attr service,
          )

module _ ⦃u : Unicode⦄ ⦃f : Floats⦄ ⦃c : Codec⦄ (P : Publisher) (L : IsLog P) (D : Decoders)
    (cfg : Settings) (ctx : ℕ → Ctx) (clock : ℕ → Time) (E : Encoders) (A : Agree E D) (now : Now)
    (base : Text) where
  one_message :
      (e : LogEvent) (events : List LogEvent) (msgs : List Message)
      → events ≡ e ∷ []
      → CarriesAll cfg.topic events msgs
      → (msg : Message) × (msgs ≡ msg ∷ []) × Carries cfg.topic e msg
  one_message e events msgs same cs = go msgs (subst (λ l. CarriesAll cfg.topic l msgs) same cs)
    where
      go :
          (msgs : List Message)
          → CarriesAll cfg.topic (e ∷ []) msgs
          → (msg : Message) × (msgs ≡ msg ∷ []) × Carries cfg.topic e msg
      go [] cs = elim cs [ ]
      go (msg ∷ msgs) (carried, later) = (msg, ap (λ l. msg ∷ l) later, carried)

  no_message :
      (e : LogEvent) (events : List LogEvent) (n : ℕ) (msgs : List Message)
      → events ≡ e ∷ []
      → n < length events
      → CarriesAll cfg.topic (take n events) msgs
      → msgs ≡ []
  no_message e events zero msgs same below cs = cs
  no_message e events (suc n) msgs same below cs =
      absurd (too_many n (subst (λ l. suc n < length l) same below))
    where
      too_many : (n : ℕ) → suc n < 1 → ⊥
      too_many n h = omega (arith, h)

  -- What `Export` says of the request of the client.
  Sent-Exported :
      (message service : Text) (g : Gateway P) (out : Result Err ExportResponse × Gateway P)
      (wrong : Err)
      → Exported P L cfg.topic clock (some (otlp_request now message service)) g out
      → Sent P L D cfg ctx clock message service g
          ((if is_ok out.0 then none else some wrong), out.1)
  Sent-Exported message service g (ok x, g') wrong (events, mapped, msgs, cs, put, counts) =
      let (e, single, has_message, has_service) =
        one_event clock now message service events mapped in
      let (msg, one, carried) = one_message e events msgs single cs in
      (e, msg, has_message, has_service, carried, put ∙ ap (λ l. L.published g.bus ++ l) one)
  Sent-Exported message service g (err x, g') wrong (inl (mapped, same), counts) =
      ap L.published same
  Sent-Exported message service g (err x, g') wrong
        (inr (events, n, mapped, below, msgs, cs, put), counts) =
      let (e, single, has_message, has_service) =
        one_event clock now message service events mapped in
      put
      ∙ (ap (λ l. L.published g.bus ++ l) (no_message e events n msgs single below cs)
          ∙ append-nil (L.published g.bus))

  abbrev to_otlp : Text
  to_otlp = base ++ codes "/v1/logs"

  abbrev otlp_post : List ℕ → Request
  otlp_post body = request P L D cfg ctx clock base to_otlp (codes "application/x-protobuf") body

  unmarshal-otlp_post :
      (body : List ℕ) (rls : List (Option ResourceLogs))
      → E.marshal_proto rls ≡ ok body
      → unmarshal P cfg.topic D (otlp_post body) body ≡ ok rls
  unfolding unmarshal contains has_prefix to_lower text_eq
  unmarshal-otlp_post body rls encoded = A.unmarshal_proto-marshal_proto rls body encoded

  other_page :
      (path : Text)
      → path ≡ codes "/v1/logs"
      → (path ≡ codes "/healthz") ⊎ (path ≡ codes "/metrics")
      → ⊥
  unfolding text_eq
  other_page path here (inl page) =
      apart (codes "/v1/logs") (codes "/healthz") refl (sym here ∙ page)
  other_page path here (inr page) =
      apart (codes "/v1/logs") (codes "/metrics") refl (sym here ∙ page)

  read_body-below :
      (body : List ℕ)
      → length body < max_body
      → read_body (record { bytes = body; failure = none }) ≡ ok body
  unfolding read_body
  read_body-below body below = rw (below_limit (length body) below) refl
    where
      below_limit : (n : ℕ) → n < max_body → ltb n max_body ≡ true
      below_limit n h = ground (arith, h)

  Sent-Routed_otlp :
      (message service : Text) (g : Gateway P) (body : List ℕ) (out : Response × Gateway P)
      → E.marshal_proto (otlp_request now message service) ≡ ok body
      → length body < max_body
      → Routed P D cfg (otlp_post body) g out
      → Sent P L D cfg ctx clock message service g (
          check_status
            (to_gateway P L D cfg ctx clock base)
            E
            now
            200
            otlp_status
            (ok out.0, out.1))
  Sent-Routed_otlp message service g body out encoded below (inl (here, method, key, same)) =
      absurd (other_path P L D cfg ctx clock (sym here ∙ behind-append base (codes "/v1/logs")))
  Sent-Routed_otlp message service g body out encoded below (inr (inl (here, method, key, same))) =
      let r : Request = otlp_post body in
      let wrong : Response → Err = λ resp. otlp_status resp.status in
      let (state, status) =
        serve_otlp-export P cfg.topic D r g body (otlp_request now message service)
          (read_body-below body below)
          (unmarshal-otlp_post body (otlp_request now message service) encoded) in
      subst
        (λ (o : Response × Gateway P).
          Sent P L D cfg ctx clock message service g (
            check_status (to_gateway P L D cfg ctx clock base) E now 200 otlp_status (ok o.0, o.1)))
        (sym same)
        (subst
          (λ h. Sent P L D cfg ctx clock message service g (
            if (serve_otlp P cfg.topic D r g).0.status == 200
                then none
                else some (wrong (serve_otlp P cfg.topic D r g).0),
            h,
          ))
          (sym state)
          (subst
            (λ b. Sent P L D cfg ctx clock message service g (
              if b then none else some (wrong (serve_otlp P cfg.topic D r g).0),
              (export P cfg.topic ctx clock (some (otlp_request now message service)) g).1,
            ))
            (sym status)
            (Sent-Exported message service g
              (export P cfg.topic ctx clock (some (otlp_request now message service)) g)
              (wrong (serve_otlp P cfg.topic D r g).0)
              (Exported-export P L cfg.topic ctx clock (some (otlp_request now message service))
                g))))
  Sent-Routed_otlp message service g body out encoded below (inr (inr (same, created, inl page))) =
      absurd (other_page _ (behind-append base (codes "/v1/logs")) page)
  Sent-Routed_otlp message service g body out encoded below
        (inr (inr (same, created, inr status))) =
      rw status (ap (λ (h : Gateway P). L.published h.bus) same)

  -- Against a gateway over a publisher that is a log, with encoders and decoders that agree, and with
  -- a body below the limit: `sendOTLP` gives no error only if the gateway has published one message
  -- more, of an event with the message and the service that were sent; with an error it has
  -- published nothing.
  pub send_otlp-Sent :
      (message service : Text)
      → ((body : List ℕ)
          → E.marshal_proto (otlp_request now message service) ≡ ok body
          → length body < max_body)
      → (g : Gateway P)
      → Sent P L D cfg ctx clock message service g
          (send_otlp (to_gateway P L D cfg ctx clock base) E now base message service g)
  unfolding send_otlp
  send_otlp-Sent message service below g =
      go (E.marshal_proto (otlp_request now message service)) refl
    where
      go :
          (r : Result Err (List ℕ))
          → E.marshal_proto (otlp_request now message service) ≡ r
          → Sent P L D cfg ctx clock message service g (elim r [
            | err x ↦ (some x, g)
            | ok body ↦ check_status (to_gateway P L D cfg ctx clock base) E now 200 otlp_status (
                (to_gateway P L D cfg ctx clock base).post
                  (base ++ codes "/v1/logs")
                  (codes "application/x-protobuf")
                  body
                  g)
          ])
      go (err x) refused = refl
      go (ok body) encoded =
          Sent-Routed_otlp message service g body _ encoded (below body encoded)
            (serve-Routed P D cfg (otlp_post body) g)
