-- ===== src/Gateway/Otlp/Exported.antt =====
-- cmd/gateway/otlp_grpc.go and cmd/gateway/otlp_http.go: what a request to the OTLP handlers
-- publishes and counts.
use apexio.Base.{
  ℕ, ◌<◌, ◌≡◌, refl, sym, append-nil, ◌⊎◌, inl, inr, Bool, true, false, Option, none, some, List,
  [], ◌∷◌, ◌++◌, Result, ok, err, length, take, ◌==◌, Option-cases, Result-cases,
}
use apexio.Base.Text.{Text, Unicode}
use apexio.Errors.{Err, Ctx, wrap, publish_failed}
use apexio.Schema.Time.{Time}
use apexio.Schema.Event.{LogEvent}
use apexio.Schema.Scan.{Floats}
use apexio.Schema.Otlp.{ResourceLogs, log_events_from_otlp}
use apexio.Schema.Wire.{Codec}
use apexio.Broker.Interface.{Publisher, IsLog, Message, CarriesAll}
use apexio.Gateway.Metrics.{inc_otlp_ok, inc_otlp_err}
use apexio.Gateway.Publish.{publish_events, Published, Published-publish_events}
use apexio.Gateway.Ingest.{Decoders, Gateway, write_err}
use apexio.Gateway.Otlp.{
  ExportResponse, export_response, export_events, serve_events, counted, refused, export,
  serve_otlp, serve_request, serve_body, unmarshal, read_body,
}
use apexio.Http.{Request}

module _ ⦃u : Unicode⦄ ⦃f : Floats⦄ ⦃c : Codec⦄ (P : Publisher) (L : IsLog P) (topic : Text) where
  -- What a result says of what is published and of the counters: all events of the request are
  -- published and counted, or an error is counted and those before one of them are published.
  abbrev pub Exported :
      (ℕ → Time)
      → Option (List (Option ResourceLogs))
      → Gateway P
      → Result Err ExportResponse × Gateway P
      → Type 0
  Exported clock req g (ok _, g') =
      (events : List LogEvent) × (log_events_from_otlp clock req ≡ ok events)
      × (msgs : List Message) × CarriesAll topic events msgs
      × (L.published g'.bus ≡ L.published g.bus ++ msgs)
      × (g'.metrics ≡ inc_otlp_ok (length events) g.metrics)
  Exported clock req g (err x, g') =
      ((log_events_from_otlp clock req ≡ err x) × (g'.bus ≡ g.bus)
        ⊎ (events : List LogEvent) × (n : ℕ) × (log_events_from_otlp clock req ≡ ok events)
          × (n < length events)
          × (msgs : List Message) × CarriesAll topic (take n events) msgs
          × (L.published g'.bus ≡ L.published g.bus ++ msgs))
      × (g'.metrics ≡ inc_otlp_err g.metrics)

  Exported-export_events :
      (ctx : ℕ → Ctx) (clock : ℕ → Time) (req : Option (List (Option ResourceLogs)))
      (events : List LogEvent) (g : Gateway P)
      → log_events_from_otlp clock req ≡ ok events
      → Exported clock req g (export_events P topic ctx events g)
  Exported-export_events ctx clock req [] g mapped =
      ([], mapped, [], refl, sym (append-nil (L.published g.bus)), refl)
  Exported-export_events ctx clock req (e ∷ events) g mapped =
      go (publish_events P ctx topic (e ∷ events) g.bus)
        (Published-publish_events P L ctx topic (e ∷ events) g.bus)
    where
      go :
          (o : Option Err × P.State)
          → Published P L 0 topic (e ∷ events) (L.published g.bus) o
          → Exported clock req g (elim o.0 [
            | some x ↦ (err (wrap publish_failed x), refused P topic (record g { bus = o.1 }))
            | none ↦
                (ok export_response, counted P topic (length (e ∷ events)) (record g { bus = o.1 }))
          ])
      go (none, s) (msgs, cs, put) = (e ∷ events, mapped, msgs, cs, put, refl)
      go (some x, s) (n, y, msgs, below, same, cs, put) =
          (inr (e ∷ events, n, mapped, below, msgs, cs, put), refl)

  pub Exported-export :
      (ctx : ℕ → Ctx) (clock : ℕ → Time) (req : Option (List (Option ResourceLogs))) (g : Gateway P)
      → Exported clock req g (export P topic ctx clock req g)
  unfolding export
  Exported-export ctx clock req g = go (log_events_from_otlp clock req) refl
    where
      go :
          (m : Result Err (List LogEvent))
          → log_events_from_otlp clock req ≡ m
          → Exported clock req g (elim m [
            | err x ↦ (err x, refused P topic g)
            | ok events ↦ export_events P topic ctx events g
          ])
      go (ok events) mapped = Exported-export_events ctx clock req events g mapped
      go (err x) mapped = (inl (mapped, refl), refl)

-- A result is a value.
abbrev pub is_ok : {A : Type 0} → Result Err A → Bool
is_ok (ok _) = true
is_ok (err _) = false

module _ ⦃u : Unicode⦄ ⦃f : Floats⦄ (P : Publisher) (topic : Text) (D : Decoders) where
  serve_events-export_events :
      (r : Request) (events : List LogEvent) (g : Gateway P)
      → ((serve_events P topic D r events g).1 ≡ (export_events P topic r.ctx events g).1)
        × (((serve_events P topic D r events g).0.status == 200)
            ≡ is_ok (export_events P topic r.ctx events g).0)
  unfolding write_err
  serve_events-export_events r [] g = (refl, refl)
  serve_events-export_events r (e ∷ events) g =
      elim (Option-cases (publish_events P r.ctx topic (e ∷ events) g.bus).0) [
        | inl done ↦ rw (done, serve_events, export_events) (refl, refl)
        | inr (x, failed) ↦ rw (failed, serve_events, export_events) (refl, refl)
      ]

  -- Where its body is read and decodes, a request over HTTP does what `Export` does with the
  -- decoded request: the bus and the counters are the same behind it, and the answer is 200 exactly
  -- if `Export` gives no error.
  pub serve_otlp-export :
      (r : Request) (g : Gateway P) (body : List ℕ) (req : List (Option ResourceLogs))
      → read_body r.body ≡ ok body
      → unmarshal P topic D r body ≡ ok req
      → ((serve_otlp P topic D r g).1 ≡ (export P topic r.ctx r.clock (some req) g).1)
        × (((serve_otlp P topic D r g).0.status == 200)
            ≡ is_ok (export P topic r.ctx r.clock (some req) g).0)
  unfolding serve_otlp export write_err
  serve_otlp-export r g body req was_read decoded =
      elim (Result-cases (log_events_from_otlp r.clock (some req))) [
        | inl (events, mapped) ↦
            rw (was_read, decoded, mapped, serve_otlp, serve_body, serve_request, export)
              (serve_events-export_events r events g)
        | inr (x, refused_as) ↦
            rw (was_read, decoded, refused_as, serve_otlp, serve_body, serve_request, export)
              (refl, refl)
      ]
