-- ===== src/Writer/Health.antt =====
-- cmd/writer/main.go: the health server, whose pages show the counters of the writer.
use apexio.Base.{◌≡◌, refl, sym, ◌⊎◌, inl, inr, List, [], ◌∷◌}
use apexio.Base.Text.{codes}
use apexio.Http.{Request, Response, Handler, ok_page, metrics_reply}
use apexio.Http.Mux.{Route, OwnStatus, serve_mux, serve_mux-cases}
use apexio.Writer.Metrics.{WriterMetrics, metrics_text}

-- `GET /healthz`
unfoldable pub healthz : Handler WriterMetrics
healthz r m = (ok_page, m)

-- `metrics.handler()`
unfoldable pub metrics_page : Handler WriterMetrics
metrics_page r m = (metrics_reply (metrics_text m), m)

-- The patterns of the mux.
unfoldable pub routes : List (Route WriterMetrics)
routes =
    record { method = codes "GET"; path = codes "/healthz"; handler = healthz }
    ∷ record { method = codes "GET"; path = codes "/metrics"; handler = metrics_page }
    ∷ []

-- The handler of the server.
unfoldable pub serve : Handler WriterMetrics
serve = serve_mux routes

-- A page, or an answer of the mux.
abbrev pub Page : Request → WriterMetrics → Response → Type 0
Page r m resp =
    ((r.path ≡ codes "/healthz") × (resp ≡ ok_page))
    ⊎ ((r.path ≡ codes "/metrics") × (resp ≡ metrics_reply (metrics_text m)))
    ⊎ OwnStatus resp.status

-- The health server changes no counter, and answers with the page of the path, with the counters as
-- they are on `/metrics`, or with an answer of the mux itself.
pub serve-Page : (r : Request) (m : WriterMetrics) → ((serve r m).1 ≡ m) × Page r m (serve r m).0
unfolding serve routes healthz metrics_page
serve-Page r m =
    serve_mux-cases (λ out. (out.1 ≡ m) × Page r m out.0) routes r m
      (
        λ same taken. (refl, inl (sym same, refl)),
        (λ same taken. (refl, inr (inl (sym same, refl))), tt),
      )
      (λ resp own. (refl, inr (inr own)))
