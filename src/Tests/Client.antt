-- ===== src/Tests/Client.antt =====
-- examples/sample-client/main.go against a gateway in memory.
use apexio.Base.{
  ℕ, zero, suc, ◌≡◌, refl, sym, ◌∙◌, ap, none, some, List, [], ◌∷◌, ◌++◌, Result, ok, err, ok≢err,
  ok-injective, length, take,
}
use apexio.Base.Int.{ℤ, pos, negsuc}
use apexio.Base.Text.{Text, codes}
use apexio.Broker.Redpanda.Log.{redpanda_publisher-IsLog}
use apexio.Client.{Encoders, Flags, Now, main}
use apexio.Client.Sent.{Agree, to_gateway}
use apexio.Errors.{Err, library}
use apexio.Gateway.Ingest.{Decoders, Gateway}
use apexio.Gateway.Wiring.{settings}
use apexio.Schema.Attrs.{Attrs}
use apexio.Schema.Rest.{RestPayload}
use apexio.Tests.Codec.{codec}
use apexio.Tests.Data.{noon}
use apexio.Tests.Kafka.{writer, writer-Writes}
use apexio.Tests.Platform.{unicode, floats}
use apexio.Tests.Wiring.{publisher, gateway, unset}

-- A text behind its length.
unfoldable pub put : Text → List ℕ → List ℕ
put t rest = length t ∷ t ++ rest

abbrev pub drop : ℕ → List ℕ → List ℕ
drop zero s = s
drop (suc n) [] = []
drop (suc n) (c ∷ s) = drop n s

unfoldable pub get : List ℕ → Text × List ℕ
get [] = ([], [])
get (n ∷ s) = (take n s, drop n s)

take-append : (t rest : List ℕ) → take (length t) (t ++ rest) ≡ t
take-append [] rest = refl
take-append (c ∷ t) rest = ap (λ l. c ∷ l) (take-append t rest)

drop-append : (t rest : List ℕ) → drop (length t) (t ++ rest) ≡ rest
drop-append [] rest = refl
drop-append (c ∷ t) rest = drop-append t rest

get-put : (t rest : List ℕ) → get (put t rest) ≡ (t, rest)
unfolding get put
get-put t rest =
    ap (λ a. (a, drop (length t) (t ++ rest))) (take-append t rest)
    ∙ ap (λ b. (t, b)) (drop-append t rest)

-- The texts of a payload, its numbers in front.
abbrev pub encode : RestPayload → ℕ → List ℕ
encode p status =
    p.id
    ∷ p.timestamp
    ∷ status
    ∷ p.metadata.response_duration
    ∷ put p.log_level (
        put p.message (
          put p.metadata.request_id (
            put p.metadata.client_ip (
              put p.metadata.user_agent (
                put p.metadata.request_method (
                  put p.metadata.request_path
                    (put p.source.host (put p.source.service (put p.source.environment [])))))))))

-- Payloads with attributes or a negative status are not encoded.
abbrev pub marshal_rest : RestPayload → Result Err (List ℕ)
marshal_rest p = elim p.metadata.extra [
  | some m ↦ err (library 1)
  | none ↦ elim p.source.extra [
    | some m ↦ err (library 1)
    | none ↦ elim p.metadata.response_status [
      | negsuc n ↦ err (library 1)
      | pos n ↦ ok (encode p n)
    ]
  ]
]

abbrev pub decode : List ℕ → Result Err RestPayload
decode (id ∷ timestamp ∷ status ∷ duration ∷ s) =
    let (log_level, s) = get s in
    let (message, s) = get s in
    let (request_id, s) = get s in
    let (client_ip, s) = get s in
    let (user_agent, s) = get s in
    let (request_method, s) = get s in
    let (request_path, s) = get s in
    let (host, s) = get s in
    let (service, s) = get s in
    let (environment, s) = get s in
    ok (record {
      id = id;
      timestamp = timestamp;
      log_level = log_level;
      message = message;
      metadata = record {
        request_id = request_id;
        client_ip = client_ip;
        user_agent = user_agent;
        request_method = request_method;
        request_path = request_path;
        response_status = pos status;
        response_duration = duration;
        extra = none;
      };
      source = record { host = host; service = service; environment = environment; extra = none };
    })
decode _ = err (library 2)

abbrev pub encoders : Encoders
encoders = record { marshal_rest = marshal_rest; marshal_proto = λ rls. err (library 3) }

abbrev pub decoders : Decoders
decoders = record {
  decode_rest = λ b. decode b.bytes;
  unmarshal_protojson = λ body. err (library 4);
  unmarshal_proto = λ body. err (library 4);
}

decode-marshal_rest :
    (p : RestPayload) (body : List ℕ) → marshal_rest p ≡ ok body → decode body ≡ ok p
decode-marshal_rest p body h = go p.metadata.extra p.source.extra p.metadata.response_status h
  where
    go :
        (m s : Attrs) (status : ℤ)
        → marshal_rest (record p {
          metadata = record (p.metadata) { extra = m; response_status = status };
          source = record (p.source) { extra = s };
        })
          ≡ ok body
        → decode body
          ≡ ok (record p {
            metadata = record (p.metadata) { extra = m; response_status = status };
            source = record (p.source) { extra = s };
          })
    go (some m) s status h = absurd (ok≢err (sym h))
    go none (some s) status h = absurd (ok≢err (sym h))
    go none none (negsuc n) h = absurd (ok≢err (sym h))
    go none none (pos n) h = ap decode (ok-injective (sym h)) ∙ simp get-put

pub agree : Agree encoders decoders
agree = record {
  decode_rest-marshal_rest = decode-marshal_rest;
  unmarshal_proto-marshal_proto = λ rls body h. absurd (ok≢err (sym h));
}

abbrev pub now : Now
now = record {
  unix = 1_764_000_000;
  unix_milli = 1_764_000_000_000;
  unix_nano = 1_764_000_000_000_000_000;
}

abbrev flags : Flags
flags = record {
  gateway = some (codes "http://gateway:8080");
  mode = codes "rest";
  message = codes "hello";
  service = codes "shop";
}

abbrev sent : ℕ × Gateway publisher
sent =
    main
      (to_gateway publisher (redpanda_publisher-IsLog writer writer-Writes) decoders
        (settings unset) (λ i. none) (λ i. noon) (codes "http://gateway:8080"))
      encoders now unset flags gateway
