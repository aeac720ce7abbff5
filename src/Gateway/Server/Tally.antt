-- ===== src/Gateway/Server/Tally.antt =====
-- cmd/gateway/main.go: over a run of the process, what is published only grows, and the counter of
-- REST requests agrees with the answers.
use mathlib.Core.Path.{subst}
use apexio.Base.{
  ℕ, ◌+◌, ◌%◌, ◌^◌, ◌≤◌, ◌<◌, ◌≡◌, ◌≢◌, refl, sym, ◌∙◌, ap, inl, inr, Bool, false, ◌==◌, Bool-cases,
  Result-cases, Option-cases, Option, some, List, [], ◌∷◌, ◌++◌, append-nil, append_assoc, length,
  length-append, Result, ok, err, arith, if◌then◌else◌,
}
use apexio.Base.Text.{Unicode}
use apexio.Errors.{Err}
use apexio.Broker.Interface.{Publisher, IsLog, Message}
use apexio.Gateway.Ingest.{Decoders, Gateway, write_err}
use apexio.Gateway.Metrics.{inc_rest_ok, inc_rest_err, inc_otlp_ok, inc_otlp_err}
use apexio.Gateway.Otlp.{
  ExportResponse, serve_otlp, serve_body, serve_request, serve_events, read_body, unmarshal,
}
use apexio.Gateway.Otlp.Exported.{Exported, Exported-export, serve_otlp-export}
use apexio.Gateway.Publish.{publish_events}
use apexio.Gateway.Rest.{Answered, serve_rest-Answered}
use apexio.Gateway.Server.{
  Arrival, http_request, grpc_request, Answer, http_answer, grpc_answer, no_answer, serve_arrival,
  serve_arrivals,
}
use apexio.Gateway.Wiring.{Settings, serve}
use apexio.Gateway.Wiring.Guarded.{Routed, serve-Routed}
use apexio.Http.{Request, Response}
use apexio.Schema.Event.{LogEvent}
use apexio.Schema.Otlp.{ResourceLogs, log_events_from_otlp}
use apexio.Schema.Scan.{Floats}
use apexio.Schema.Time.{Time}
use apexio.Schema.Wire.{Codec}

-- The answers that tell a client that its log was created.
abbrev pub is_created : Answer → ℕ
is_created (http_answer resp) = if resp.status == 201 then 1 else 0
is_created (grpc_answer res) = 0
is_created no_answer = 0

abbrev pub created : List Answer → ℕ
created [] = 0
created (a ∷ answers) = is_created a + created answers

other_status : (n : ℕ) → n ≢ 201 → (n == 201) ≡ false
other_status n h = ground (arith, h)

module _ ⦃u : Unicode⦄ ⦃f : Floats⦄ ⦃c : Codec⦄ (P : Publisher) (L : IsLog P) (D : Decoders)
    (cfg : Settings) (has_grpc : Bool) where
  -- What `n` answers of 201 stand for.
  abbrev pub Tallied : Gateway P → ℕ → Gateway P → Type 0
  Tallied g n g' =
      ((new : List Message) × (L.published g'.bus ≡ L.published g.bus ++ new) × (n ≤ length new))
      × (g'.metrics.rest_ok ≡ (g.metrics.rest_ok + n) % 2 ^ 64)

  module _ (g : Gateway P) (fits : g.metrics.rest_ok < 2 ^ 64) where
    same-Tallied : (g' : Gateway P) → g' ≡ g → Tallied g 0 g'
    same-Tallied g' same = (
      (
        [],
        ap (λ (h : Gateway P). L.published h.bus) same ∙ sym (append-nil (L.published g.bus)),
        omega arith,
      ),
      ap (λ (h : Gateway P). h.metrics.rest_ok) same ∙ omega (arith, fits),
    )

    Answered-Tallied :
        (r : Request) (out : Response × Gateway P)
        → Answered P L D cfg.topic r g out
        → Tallied g (is_created (http_answer out.0)) out.1
    unfolding inc_rest_ok inc_rest_err
    Answered-Tallied r out (inl (status, p, e, msg, decoded, mapped, carried, put, counts)) =
        rw status ((msg ∷ [], put, omega arith), ap (λ m. m.rest_ok) counts)
    Answered-Tallied r out (inr (status, put, counts)) = rw (other_status out.0.status status) (
      ([], put ∙ sym (append-nil (L.published g.bus)), omega arith),
      ap (λ m. m.rest_ok) counts ∙ omega (arith, fits),
    )

    Exported-Tallied :
        (clock : ℕ → Time) (req : Option (List (Option ResourceLogs)))
        (out : Result Err ExportResponse × Gateway P)
        → Exported P L cfg.topic clock req g out
        → Tallied g 0 out.1
    unfolding inc_otlp_ok inc_otlp_err
    Exported-Tallied clock req (ok x, g') (events, mapped, msgs, cs, put, counts) =
        ((msgs, put, omega arith), ap (λ m. m.rest_ok) counts ∙ omega (arith, fits))
    Exported-Tallied clock req (err x, g') (inl (mapped, same), counts) = (
      ([], ap L.published same ∙ sym (append-nil (L.published g.bus)), omega arith),
      ap (λ m. m.rest_ok) counts ∙ omega (arith, fits),
    )
    Exported-Tallied clock req (err x, g') (inr (events, n, mapped, below, msgs, cs, put), counts) =
        ((msgs, put, omega arith), ap (λ m. m.rest_ok) counts ∙ omega (arith, fits))

  -- No answer of the OTLP handler is 201.
  serve_events-status :
      (r : Request) (events : List LogEvent) (g : Gateway P)
      → ((serve_events P cfg.topic D r events g).0.status == 201) ≡ false
  unfolding write_err
  serve_events-status r [] g = refl
  serve_events-status r (e ∷ events) g =
      elim (Option-cases (publish_events P r.ctx cfg.topic (e ∷ events) g.bus).0) [
        | inl done ↦ rw (done, serve_events) refl
        | inr (x, failed) ↦ rw (failed, serve_events) refl
      ]

  serve_otlp-status :
      (r : Request) (g : Gateway P) → ((serve_otlp P cfg.topic D r g).0.status == 201) ≡ false
  unfolding serve_otlp write_err
  serve_otlp-status r g = elim (Result-cases (read_body r.body)) [
    | inr (x, unread) ↦ rw (unread, serve_otlp) refl
    | inl (body, was_read) ↦ elim (Result-cases (unmarshal P cfg.topic D r body)) [
      | inr (x, undecoded) ↦ rw (was_read, undecoded, serve_otlp, serve_body) refl
      | inl (req, decoded) ↦ elim (Result-cases (log_events_from_otlp r.clock (some req))) [
        | inr (x, unmapped) ↦
            rw (was_read, decoded, unmapped, serve_otlp, serve_body, serve_request) refl
        | inl (events, mapped) ↦
            rw (was_read, decoded, mapped, serve_otlp, serve_body, serve_request)
              (serve_events-status r events g)
      ]
    ]
  ]

  module _ (g : Gateway P) (fits : g.metrics.rest_ok < 2 ^ 64) where
    serve_otlp-Tallied : (r : Request) → Tallied g 0 (serve_otlp P cfg.topic D r g).1
    unfolding serve_otlp inc_otlp_err
    serve_otlp-Tallied r = elim (Result-cases (read_body r.body)) [
      | inr (x, unread) ↦ rw (unread, serve_otlp) (unchanged refl)
      | inl (body, was_read) ↦ elim (Result-cases (unmarshal P cfg.topic D r body)) [
        | inr (x, undecoded) ↦ rw (was_read, undecoded, serve_otlp, serve_body) (unchanged refl)
        | inl (req, decoded) ↦
            subst (Tallied g 0)
              (sym (serve_otlp-export P cfg.topic D r g body req was_read decoded).0)
              (Exported-Tallied g fits r.clock (some req) _
                (Exported-export P L cfg.topic r.ctx r.clock (some req) g))
      ]
    ]
      where
        unchanged :
            g.metrics.rest_ok ≡ g.metrics.rest_ok
            → Tallied g 0 (record g { metrics = inc_otlp_err g.metrics })
        unchanged same =
            (([], sym (append-nil (L.published g.bus)), omega arith), omega (arith, fits))

    serve-Tallied :
        (r : Request)
        → Tallied g (is_created (http_answer (serve P D cfg r g).0)) (serve P D cfg r g).1
    serve-Tallied r = go (serve P D cfg r g) (serve-Routed P D cfg r g)
      where
        go :
            (out : Response × Gateway P)
            → Routed P D cfg r g out
            → Tallied g (is_created (http_answer out.0)) out.1
        go out (inl (path, method, admitted, same)) = Answered-Tallied g fits r out (
            subst (Answered P L D cfg.topic r g) (sym same)
              (serve_rest-Answered P L D cfg.topic r g))
        go out (inr (inl (path, method, admitted, same))) =
            rw (ap (λ (o : Response × Gateway P). o.0.status == 201) same ∙ serve_otlp-status r g) (
              subst (λ (o : Response × Gateway P). Tallied g 0 o.1) (sym same)
                (serve_otlp-Tallied r))
        go out (inr (inr (same, status, other))) = rw status (same-Tallied g fits out.1 same)

    serve_arrival-Tallied :
        (a : Arrival)
        → Tallied g
            (is_created (serve_arrival P D cfg has_grpc a g).0)
            (serve_arrival P D cfg has_grpc a g).1
    unfolding serve_arrival
    serve_arrival-Tallied (http_request r) = serve-Tallied r
    serve_arrival-Tallied (grpc_request ctx clock req) = elim (Bool-cases has_grpc) [
      | inl runs ↦
          rw runs
            (Exported-Tallied g fits clock req _ (Exported-export P L cfg.topic ctx clock req g))
      | inr off ↦ rw off (same-Tallied g fits g refl)
    ]

  -- Tallies of two parts of a run add up.
  add-Tallied : (g h k : Gateway P) (n m : ℕ) → Tallied g n h → Tallied h m k → Tallied g (n + m) k
  add-Tallied g h k n m ((new, put, le), counts) ((later, put', le'), counts') = (
    (
      new ++ later,
      put' ∙ (ap (λ l. l ++ later) put ∙ append_assoc (L.published g.bus) new later),
      rw (length-append new later) (omega (arith, le, le')),
    ),
    counts' ∙ (ap (λ i. (i + m) % 2 ^ 64) counts ∙ omega arith),
  )

  -- Over a publisher that is a log, whatever requests arrive on both servers: what is published is
  -- what was published before and more behind it, at least one message for each answer of 201; and
  -- the counter of accepted REST requests has grown by the number of these answers, modulo 2^64.
  pub serve_arrivals-Tallied :
      (arrivals : List Arrival) (g : Gateway P)
      → g.metrics.rest_ok < 2 ^ 64
      → let (answers, g') = serve_arrivals P D cfg has_grpc arrivals g in
        Tallied g (created answers) g'
  unfolding serve_arrivals
  serve_arrivals-Tallied [] g fits = same-Tallied g fits g refl
  serve_arrivals-Tallied (a ∷ later) g fits =
      let first = serve_arrival-Tallied g fits a in
      let (answer, h) = serve_arrival P D cfg has_grpc a g in
      let (answers, k) = serve_arrivals P D cfg has_grpc later h in
      add-Tallied g h k (is_created answer) (created answers) first
        (serve_arrivals-Tallied later h (rw (first.1) (omega arith)))
