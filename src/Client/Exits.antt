-- ===== src/Client/Exits.antt =====
-- examples/sample-client/main.go, `main`, against the gateway of cmd/gateway: what its exit code says.
use apexio.Base.{
  ℕ, ◌≡◌, ◌<◌, Bool, true, false, Option, none, some, List, ◌++◌, ok, length, if◌then◌else◌,
}
use apexio.Base.Text.{Text, codes, text_eq, Unicode}
use apexio.Broker.Interface.{Publisher, IsLog, Message}
use apexio.Client.{Now, Encoders, Flags, Transport, otlp_request, message_or_time, exit_code}
use apexio.Client.Sent.{Agree, to_gateway, Sent}
use apexio.Errors.{Err, Ctx}
use apexio.Gateway.Ingest.{Decoders, Gateway}
use apexio.Gateway.Otlp.{max_body}
use apexio.Gateway.Wiring.{Settings}
use apexio.Schema.Scan.{Floats}
use apexio.Schema.Time.{Time}
use apexio.Schema.Wire.{Codec}

module _ ⦃u : Unicode⦄ ⦃f : Floats⦄ ⦃c : Codec⦄ (P : Publisher) (L : IsLog P) (D : Decoders)
    (cfg : Settings) (ctx : ℕ → Ctx) (clock : ℕ → Time) (E : Encoders) (A : Agree E D)
    (now : Now) where
  -- What is published is as many messages as were wanted, or fewer if there is an error.
  abbrev pub Published : ℕ → Gateway P → Bool → Gateway P → Type 0
  Published wanted g good g' =
      (new : List Message) × (L.published g'.bus ≡ L.published g.bus ++ new)
      × (if good then length new ≡ wanted else (length new < wanted))

  abbrev pub is_nil : Option Err → Bool
  is_nil none = true
  is_nil (some x) = false

  -- The number of logs that a mode sends.
  abbrev pub logs_of : Text → ℕ
  logs_of mode = if text_eq mode (codes "both") then 2 else 1

  module _ (base : Text) (mode : Text) (g : Gateway P) (x y z : Option Err × Gateway P) where
    abbrev exits : Option Err × Gateway P → ℕ × Gateway P
    exits o = exit_code (to_gateway P L D cfg ctx clock base) E now o

    -- The switch on the mode, by the results of its three calls.
    abbrev picked : Bool → Bool → Bool → ℕ × Gateway P
    picked rest otlp both =
        if rest then exits x else if otlp then exits y else if both then exits z else (2, g)

  module _
      (below : (message service : Text) (body : List ℕ)
        → E.marshal_proto (otlp_request now message service) ≡ ok body
        → length body < max_body)
      (base : Text) where
    abbrev client : Transport
    client = to_gateway P L D cfg ctx clock base

    abbrev message_of : Flags → Text
    message_of flags = message_or_time client E now flags.message
