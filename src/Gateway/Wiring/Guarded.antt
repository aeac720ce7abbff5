-- ===== src/Gateway/Wiring/Guarded.antt =====
-- cmd/gateway/main.go: what the settings guarantee.
use apexio.Base.{
  ◌≡◌, refl, ◌∙◌, true, false, [], ok, Bool-cases, ◌∷◌, ◌==◌, ℕ, ◌⊎◌, arith, inl, inr, sym,
}
use apexio.Base.Text.{Text, codes, text_eq, text_eq_iff, split-nonempty, Unicode}
use apexio.Schema.Scan.{Floats}
use apexio.Auth.{chain, api_key, admits, unauthorized, chain-api_key}
use apexio.Broker.Interface.{Publisher}
use apexio.Broker.Redpanda.{KafkaWriter, Redpanda, new_redpanda, config_defaults}
use apexio.Gateway.Ingest.{Decoders, Gateway}
use apexio.Gateway.Wiring.{
  env_or, Settings, settings, open_bus, log_route, otlp_route, routes, serve, healthz, metrics_page,
}
use apexio.Http.{Request, Response, Handler}
use apexio.Http.Mux.{OwnStatus, takes, serve_mux-cases}
use apexio.Gateway.Rest.{serve_rest}
use apexio.Gateway.Otlp.{serve_otlp}
use apexio.Os.{Env}

-- Whatever the environment, the settings name a broker, so the gateway opens its bus, with a writer.
pub open_bus-settings :
    (K : KafkaWriter) (env : Env) (opened : K.State)
    → (r : Redpanda K) × (open_bus K (settings env) opened ≡ ok r)
      × (r.closed ≡ false)
      × (r.has_writer ≡ true)
      × (r.writer ≡ opened)
unfolding open_bus new_redpanda settings
open_bus-settings K env opened = (
  bus,
  rw (split-nonempty b',' (env_or env (codes "REDPANDA_BROKERS") (codes "localhost:19092"))) refl,
  refl,
  refl,
  refl,
)
  where
    bus : Redpanda K
    bus = record {
      cfg = config_defaults (record {
        brokers = (settings env).brokers;
        client_id = (settings env).client_id;
        group_id = [];
      });
      has_writer = true;
      writer = opened;
      closed = false;
    }

module _ ⦃u : Unicode⦄ ⦃f : Floats⦄ (P : Publisher) (D : Decoders) (cfg : Settings) where
  -- On both ingest routes a request without the configured key is answered with 401, and then it
  -- publishes nothing and raises no counter.
  pub routes_guarded :
      (r : Request) (g : Gateway P)
      → admits cfg.key_header cfg.key r ≡ false
      → (log_route P D cfg r g ≡ (unauthorized, g)) × (otlp_route P D cfg r g ≡ (unauthorized, g))
  unfolding log_route otlp_route
  routes_guarded r g refused = (
    chain-api_key cfg.key_header cfg.key _ r g ∙ rw (refused) refl,
    chain-api_key cfg.key_header cfg.key _ r g ∙ rw (refused) refl,
  )

  -- An answer that changes nothing, and is 200 for the two pages at most.
  abbrev pub Unchanged : Request → Gateway P → Response × Gateway P → Type 0
  Unchanged r g out =
      (out.1 ≡ g)
      × ((out.0.status == 201) ≡ false)
      × (((r.path ≡ codes "/healthz") ⊎ (r.path ≡ codes "/metrics"))
          ⊎ ((out.0.status == 200) ≡ false))

  -- What the server does with a request.
  abbrev pub Routed : Request → Gateway P → Response × Gateway P → Type 0
  Routed r g out =
      ((r.path ≡ codes "/api/v1/log")
        × (r.method ≡ codes "POST")
        × (admits cfg.key_header cfg.key r ≡ true)
        × (out ≡ serve_rest P D cfg.topic r g))
      ⊎ ((r.path ≡ codes "/v1/logs")
          × (r.method ≡ codes "POST")
          × (admits cfg.key_header cfg.key r ≡ true)
          × (out ≡ serve_otlp P cfg.topic D r g))
      ⊎ Unchanged r g out

  not_get : text_eq (codes "POST") (codes "GET") ≡ false
  unfolding text_eq
  not_get = refl

  takes-post : (method : Text) → takes (codes "POST") method ≡ true → method ≡ codes "POST"
  takes-post method taken = elim (Bool-cases (text_eq (codes "POST") method)) [
    | inl same ↦ sym ((text_eq_iff (codes "POST") method).0 same)
    | inr other ↦ ground (arith, other, taken, not_get)
  ]

  -- A handler behind the key.
  behind_key :
      (h : Handler (Gateway P)) (r : Request) (g : Gateway P)
      → let out = chain h (api_key cfg.key_header cfg.key ∷ []) r g in
        ((admits cfg.key_header cfg.key r ≡ true) × (out ≡ h r g)) ⊎ Unchanged r g out
  behind_key h r g = elim (Bool-cases (admits cfg.key_header cfg.key r)) [
    | inl admitted ↦ inl (admitted, chain-api_key cfg.key_header cfg.key h r g ∙ rw admitted refl)
    | inr refused ↦
        inr (rw (chain-api_key cfg.key_header cfg.key h r g) (rw refused (refl, refl, inr refl)))
  ]

  own_other : (n : ℕ) → OwnStatus n → ((n == 201) ≡ false) × ((n == 200) ≡ false)
  own_other n own = ground (arith, own)

  -- The server gives a request to the REST handler or to the OTLP handler only if it is a POST to
  -- the path of that handler and has the configured key, if there is one; any other request
  -- publishes nothing, raises no counter, and is answered neither with 201 nor, but for the health and
  -- the metrics page, with 200.
  pub serve-Routed : (r : Request) (g : Gateway P) → Routed r g (serve P D cfg r g)
  unfolding serve routes healthz metrics_page log_route otlp_route
  serve-Routed r g =
      serve_mux-cases (Routed r g) (routes P D cfg) r g
        (
          λ same taken. inr (inr (refl, refl, inl (inl (sym same)))),
          (
            λ same taken. inr (inr (refl, refl, inl (inr (sym same)))),
            (
              λ same taken. elim (behind_key (serve_rest P D cfg.topic) r g) [
                | inl (admitted, out) ↦ inl (sym same, takes-post r.method taken, admitted, out)
                | inr kept ↦ inr (inr kept)
              ],
              (
                λ same taken. elim (behind_key (serve_otlp P cfg.topic D) r g) [
                  | inl (admitted, out) ↦
                      inr (inl (sym same, takes-post r.method taken, admitted, out))
                  | inr kept ↦ inr (inr kept)
                ],
                tt,
              ),
            ),
          ),
        )
        (λ resp own.
          inr (inr (refl, (own_other resp.status own).0, inr (own_other resp.status own).1)))
