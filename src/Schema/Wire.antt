-- ===== src/Schema/Wire.antt =====
-- The broker payload of pkg/schema/event.go: `MarshalEvent` and `UnmarshalEvent`. The struct tags
-- of `LogEvent` are read here; the text of a JSON object is the work of `encoding/json`.
pub mod RoundTrip
use apexio.Base.{ℕ, ◌≡◌, Bool, true, ◌&&◌, List, [], ◌∷◌, none, some}
use apexio.Base.{Result, ok, err, ◌>>=◌, if◌then◌else◌}
use apexio.Base.Text.{Text, Unicode}
use apexio.Base.Dict.{Dict}
use apexio.Errors.{Err, unsupported_value}
use apexio.Schema.Time.{Time, in_json_years}
use apexio.Schema.Level.{normalize_log_level}
use apexio.Schema.Scan.{Float64, is_finite}
use apexio.Schema.Attrs.{Attrs}
use apexio.Schema.Event.{LogEvent, zero_event, validate}
use apexio.Schema.Rest.{checked}

-- A member of the JSON object of an event, with its value as the field's type.
pub data Member : Type 0 where
  timestamp : Time → Member
  id : ℕ → Member
  log_level message service host environment : Text → Member
  request_id client_ip user_agent request_method request_path : Text → Member
  response_status : ℕ → Member
  response_duration_ms : Float64 → Member
  attrs : Dict Text → Member

-- `omitempty`: no member for a map without entries.
abbrev attrs_members : Attrs → List Member
attrs_members none = []
attrs_members (some []) = []
attrs_members (some (e ∷ m)) = attrs (e ∷ m) ∷ []

-- The members that the struct tags give, in the order of the fields.
unfoldable pub members : LogEvent → List Member
members e =
    timestamp e.timestamp
    ∷ id e.id
    ∷ log_level e.log_level
    ∷ message e.message
    ∷ service e.service
    ∷ host e.host
    ∷ environment e.environment
    ∷ request_id e.request_id
    ∷ client_ip e.client_ip
    ∷ user_agent e.user_agent
    ∷ request_method e.request_method
    ∷ request_path e.request_path
    ∷ response_status e.response_status
    ∷ response_duration_ms e.response_duration_ms
    ∷ attrs_members e.attrs

-- A member that is read sets its field.
unfoldable pub assign : LogEvent → Member → LogEvent
assign e (timestamp t) = record e { timestamp = t }
assign e (id n) = record e { id = n }
assign e (log_level s) = record e { log_level = s }
assign e (message s) = record e { message = s }
assign e (service s) = record e { service = s }
assign e (host s) = record e { host = s }
assign e (environment s) = record e { environment = s }
assign e (request_id s) = record e { request_id = s }
assign e (client_ip s) = record e { client_ip = s }
assign e (user_agent s) = record e { user_agent = s }
assign e (request_method s) = record e { request_method = s }
assign e (request_path s) = record e { request_path = s }
assign e (response_status n) = record e { response_status = n }
assign e (response_duration_ms x) = record e { response_duration_ms = x }
assign e (attrs m) = record e { attrs = some m }

unfoldable pub assign_all : LogEvent → List Member → LogEvent
assign_all e [] = e
assign_all e (m ∷ ms) = assign_all (assign e m) ms

-- A time outside of the years 0 to 9999, a NaN and an infinity have no JSON form.
unfoldable pub has_json : LogEvent → Bool
has_json e = in_json_years e.timestamp && is_finite e.response_duration_ms

-- `encoding/json`: an object to its bytes, and bytes to the members that it read for the tags of
-- the destination, or an error.
pub record Codec : Type 0 where
  pub encode : List Member → List ℕ
  pub decode : List ℕ → Result Err (List Member)

-- The event that has been read, its level in normal form.
abbrev pub with_level : ⦃u : Unicode⦄ → LogEvent → LogEvent
with_level e = record e { log_level = normalize_log_level e.log_level }

module _ ⦃u : Unicode⦄ ⦃c : Codec⦄ where
  -- `json.Marshal(e)`
  unfoldable pub json_marshal : LogEvent → Result Err (List ℕ)
  json_marshal e = if has_json e then ok (c.encode (members e)) else err unsupported_value

  unfoldable pub marshal_event : LogEvent → Result Err (List ℕ)
  marshal_event e = elim (validate e) [ some x ↦ err x | none ↦ json_marshal e ]

  unfoldable pub unmarshal_event : List ℕ → Result Err LogEvent
  unmarshal_event bytes = c.decode bytes >>= λ ms. checked (with_level (assign_all zero_event ms))

-- What `encoding/json` is documented to do: an object whose values have a JSON form is read back
-- member by member.
pub record ReadsBack (c : Codec) : Type 0 where
  pub decode-encode :
      (e : LogEvent) → has_json e ≡ true → c.decode (c.encode (members e)) ≡ ok (members e)
