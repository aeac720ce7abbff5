-- ===== src/Lib.antt =====
-- A verification library of Apexio: a gateway that takes logs over REST and OTLP and publishes them
-- to a broker, and a writer that consumes them and stores them in batches.
--
-- Files, and the code they model:
--   Schema       pkg/schema/event.go and pkg/schema/otlp.go. Schema/Event is `LogEvent` and
--                `Validate`; Schema/Level the levels; Schema/Time the instants; Schema/Attrs the
--                attribute maps; Schema/Scan the scans of `fmt.Sscanf`; Schema/Rest `FromREST` and
--                `ToREST`; Schema/Wire `MarshalEvent` and `UnmarshalEvent`; Schema/Otlp
--                `LogEventsFromOTLP` and `FromOTLPLike`.
--   Broker       pkg/broker. Broker/Interface is broker.go with the contract of a publisher,
--                Broker/Memory memory.go, with its concurrent calls in Broker/Memory/Interleaved;
--                Broker/Redpanda redpanda.go: `Publish`, `Close` and the loop `consumeTopic`, with
--                `Subscribe` in Broker/Redpanda/Subscribe.
--   Store        pkg/store. Store/Interface is store.go with the contracts of a store,
--                Store/Memory memory.go, Store/ClickHouse clickhouse.go.
--   Auth         pkg/auth/middleware.go, over the requests and responses of Http.
--   Gateway      cmd/gateway: metrics.go, publish.go, rest.go, and both OTLP handlers in
--                Gateway/Otlp; of main.go the settings and the mux in Gateway/Wiring, and `main` with
--                the gRPC server in Gateway/Server. A handler takes a request and a state, the bus
--                and the counters, to a response and a state.
--   Writer       cmd/writer: metrics.go, batch.go, and the loop of consumer.go in Writer/Consumer; of
--                main.go the settings in Writer/Settings, the mux of the health server in
--                Writer/Health, and `main` in Writer/Main.
--   Client       examples/sample-client/main.go, over any HTTP transport; Client/Sent has the gateway
--                as one.
--   Pipeline     the way of an event from Gateway/Publish through the broker to the store of Writer,
--                and in Pipeline/Sample that of a log of Client.
--   Http         net/http as the handlers use it; Http/Mux is its `ServeMux`.
--   Os           the environment of a process.
--   Errors       the error values of all packages, with `errors.Is`.
--   Base         shared types and lemmas; Base/Text is Go's strings as runes, Base/Dict its maps.
--   Tests        runs at concrete inputs, with a codec and clients in memory.
--
-- How the parts interact: the handlers of Gateway publish over any publisher, and the producer of
-- Broker/Redpanda fills that contract, `IsLog`; the loop of Writer writes to any store,
-- Store/Memory fills the contracts `IsAtomic` and `Accepts`, and Store/ClickHouse the weaker
-- `Tracks`, under which rows that a failed attempt has sent may stand twice. Events cross the
-- broker as the bytes of Schema/Wire.
--
-- State and time: a method is a function from a state to its results and a state, and what it does
-- under its lock is one step. Errors are values; a call that returns only an error gives an
-- `Option Err`, with `none` for nil. A context is what `ctx.Err()` gives; where it may change
-- between two readings, it is a function of the reading. A clock is a function of its reading too.
-- An integer of w bits is a natural number, with its wrap-around written out.
--
-- Parameters, for code that is not in this repository: the Unicode tables above ASCII, the parsing
-- and printing of floats, the fractions of durations, encoding/json on one object, protojson and
-- proto, the transport of HTTP, the kafka client and the ClickHouse driver. What the results use
-- of their documented behaviour is a record that they name: `HasCases`, `ReadsBack`, `Writes`,
-- `Inserts`, `Keeps`, `Agree`.
--
-- Loops: a loop over a list recurses on it. The retry loop and the ping loop recurse on the
-- attempts that are left, which the settings give. The digits of a number are printed on fuel, of
-- which one more than the number is enough, and the parts of a duration are read on fuel, of which
-- the length of the text is. The loops of `runConsumer` and `consumeTopic` have no end of their
-- own: they recurse on the list of what the environment does in each turn, of any length, and
-- behind its last turn they are still running. The gateway serves a list of requests in the same
-- way.
--
-- Concurrency: `Subscribe` of redpanda.go starts one `consumeTopic` per topic and waits in a
-- `select`. It is a step relation, in which a goroutine finishes at any time with any result, and
-- any case of the `select` that is ready is taken. What the goroutines do on their way, with the
-- handler that they share, is a second one, in Broker/Redpanda/Topics: a turn of the loop of a
-- topic is one step. The calls on the in-process broker are a step relation too: what is under the
-- lock is one step, and the handlers behind it run in any interleaving. Requests to the gateway
-- are served one behind the other.
--
-- Not modelled: of both `main` functions the listening and the stop of the servers, which serve
-- what is under way to its end, and an HTTP server that cannot listen; percent-escapes in the path
-- of a request and the following of redirects; and the pauses between attempts, which change no
-- state.
pub mod Auth
pub mod Base
pub mod Broker
pub mod Client
pub mod Errors
pub mod Gateway
pub mod Http
pub mod Os
pub mod Pipeline
pub mod Schema
pub mod Store
pub mod Tests
pub mod Writer
