-- ===== src/Store/ClickHouse.antt =====
-- pkg/store/clickhouse.go, over the driver clickhouse-go, which is a parameter.
pub mod Connect
pub mod Insert
pub mod Tracks
use apexio.Base.{
  ℕ, zero, suc, ◌-◌, Bool, true, false, not, ◌||◌, Option, none, some, List, [], ◌∷◌, ◌++◌, Result,
  ok, err, map_err, if◌then◌else◌,
}
use apexio.Base.Int.{ℤ, pos, pos_part, leb_ℤ}
use apexio.Base.Text.{Text, codes, is_empty, Unicode}
use apexio.Base.Dict.{Dict}
use apexio.Errors.{
  Err, Ctx, wrap, address_required, store_closed, clickhouse_dsn, clickhouse_open, clickhouse_ping,
  clickhouse_event, clickhouse_prepare, clickhouse_append, clickhouse_send,
}
use apexio.Schema.Time.{Time}
use apexio.Schema.Scan.{Float64}
use apexio.Schema.Attrs.{Attrs, entries}
use apexio.Schema.Event.{LogEvent, validate}

pub record ClickHouseConfig : Type 0 where
  pub dsn : Text
  pub addr : Text
  pub database : Text
  pub table : Text
  pub username : Text
  pub password : Text
  pub ping_attempts : ℤ

-- `clickhouse.Options`, as far as it is set here.
pub record Options : Type 0 where
  pub addr : List Text
  pub database : Text
  pub username : Text
  pub password : Text

-- The columns that `Append` is given, in their order.
pub record Row : Type 0 where
  pub timestamp : Time
  pub id : ℕ
  pub log_level : Text
  pub message : Text
  pub service : Text
  pub host : Text
  pub environment : Text
  pub request_id : Text
  pub client_ip : Text
  pub user_agent : Text
  pub request_method : Text
  pub request_path : Text
  pub response_status : ℕ
  pub response_duration_ms : Float64
  pub attrs : Dict Text

-- The row of an event: a nil map of attributes is an empty one.
unfoldable pub row : LogEvent → Row
row e = record {
  timestamp = e.timestamp;
  id = e.id;
  log_level = e.log_level;
  message = e.message;
  service = e.service;
  host = e.host;
  environment = e.environment;
  request_id = e.request_id;
  client_ip = e.client_ip;
  user_agent = e.user_agent;
  request_method = e.request_method;
  request_path = e.request_path;
  response_status = e.response_status;
  response_duration_ms = e.response_duration_ms;
  attrs = entries e.attrs;
}

-- What the driver's calls give. A connection stands for the server behind it as well.
pub record Driver : Type 1 where
  pub Conn : Type 0
  pub Batch : Type 0
  pub parse_dsn : Text → Result Err Options
  pub open_conn : Options → Result Err Conn
  pub ping : Conn → Option Err × Conn
  pub close : Conn → Option Err × Conn
  pub prepare_batch : Ctx → Text → Conn → Result Err Batch × Conn
  pub append : Row → Batch → Option Err × Batch
  pub send : Batch → Conn → Option Err × Conn

abbrev or_default : Text → Text → Text
or_default given fallback = if is_empty given then fallback else given

-- The defaults of `NewClickHouse`.
unfoldable pub config_defaults : ClickHouseConfig → ClickHouseConfig
config_defaults cfg = record cfg {
  database = or_default cfg.database (codes "apexio");
  table = or_default cfg.table (codes "logs");
  username = or_default cfg.username (codes "default");
}

-- The number of pings.
unfoldable pub ping_attempts : ClickHouseConfig → ℕ
ping_attempts cfg = if leb_ℤ cfg.ping_attempts (pos 0) then 30 else pos_part cfg.ping_attempts

-- The query of `WriteBatch`.
unfoldable pub insert_query : ClickHouseConfig → Text
insert_query cfg =
    codes "INSERT INTO "
    ++ cfg.database
    ++ codes "."
    ++ cfg.table
    ++ codes " (\n\t\t\ttimestamp, id, log_level, message, service, host, environment,\n"
    ++ codes "\t\t\trequest_id, client_ip, user_agent, request_method, request_path,\n"
    ++ codes "\t\t\tresponse_status, response_duration_ms, attrs\n\t\t)"

module _ (D : Driver) where
  -- `has_conn` is false once `conn` is nil.
  pub record ClickHouse : Type 0 where
    pub cfg : ClickHouseConfig
    pub has_conn : Bool
    pub conn : D.Conn
    pub closed : Bool

  -- The options that are opened: those of the DSN, or those of the address.
  unfoldable pub connect : ClickHouseConfig → Result Err D.Conn
  connect cfg =
      if not (is_empty cfg.dsn)
      then elim (D.parse_dsn cfg.dsn) [
        | err x ↦ err (wrap clickhouse_dsn x)
        | ok opts ↦
            map_err (wrap clickhouse_open)
              (D.open_conn (record opts { database = or_default opts.database cfg.database }))
      ]
      else if not (is_empty cfg.addr)
      then map_err (wrap clickhouse_open) (
          D.open_conn (record {
            addr = cfg.addr ∷ [];
            database = cfg.database;
            username = cfg.username;
            password = cfg.password;
          }))
      else err address_required

  -- The loop of pings, of `n + 1` turns: the error is that of the last.
  unfoldable pub ping_loop : ℕ → D.Conn → Option Err × D.Conn
  ping_loop zero conn = D.ping conn
  ping_loop (suc n) conn =
      let (e, conn') = D.ping conn in elim e [ none ↦ (none, conn') | some x ↦ ping_loop n conn' ]

  -- What follows the loop. The second component is a connection that was closed.
  abbrev pub connected :
      ClickHouseConfig → Option Err × D.Conn → Result Err ClickHouse × Option D.Conn
  connected cfg (none, conn) =
      (ok (record { cfg = cfg; has_conn = true; conn = conn; closed = false }), none)
  connected cfg (some x, conn) = (err (wrap clickhouse_ping x), some (D.close conn).1)

  unfoldable pub new_clickhouse : ClickHouseConfig → Result Err ClickHouse × Option D.Conn
  new_clickhouse given =
      let cfg = config_defaults given in
      elim (connect cfg) [
        | err x ↦ (err x, none)
        | ok conn ↦ connected cfg (ping_loop (ping_attempts cfg - 1) conn)
      ]

  -- The loop of `batch.Append`, up to the first error.
  unfoldable pub append_all : List LogEvent → D.Batch → Result Err D.Batch
  append_all [] batch = ok batch
  append_all (e ∷ events) batch =
      let (r, batch') = D.append (row e) batch in
      elim r [ some x ↦ err (wrap clickhouse_append x) | none ↦ append_all events batch' ]

  abbrev pub send_batch : D.Batch → D.Conn → Option Err × D.Conn
  send_batch batch conn =
      let (r, conn') = D.send batch conn in
      (elim r [ none ↦ none | some x ↦ some (wrap clickhouse_send x) ], conn')

  -- `WriteBatch` from the query on.
  unfoldable pub insert_events :
      Ctx → ClickHouseConfig → List LogEvent → D.Conn → Option Err × D.Conn
  insert_events ctx cfg events conn =
      let (r, conn') = D.prepare_batch ctx (insert_query cfg) conn in
      elim r [
        | err x ↦ (some (wrap clickhouse_prepare x), conn')
        | ok batch ↦ elim (append_all events batch) [
          | err x ↦ (some x, conn')
          | ok full ↦ send_batch full conn'
        ]
      ]

  unfoldable pub close : ClickHouse → Option Err × ClickHouse
  close c =
      let (e, conn) = D.close c.conn in
      if c.has_conn
      then (e, record c { closed = true; has_conn = false; conn = conn })
      else (none, record c { closed = true })

  module _ ⦃u : Unicode⦄ where
    -- The validation loop at index `i`.
    unfoldable pub validate_from : ℕ → List LogEvent → Option Err
    validate_from i [] = none
    validate_from i (e ∷ events) =
        let rest = validate_from (suc i) events in
        elim (validate e) [ some x ↦ some (wrap (clickhouse_event i) x) | none ↦ rest ]

    abbrev pub write_valid : Ctx → List LogEvent → ClickHouse → Option Err × ClickHouse
    write_valid ctx events c =
        let (r, conn) = insert_events ctx c.cfg events c.conn in (r, record c { conn = conn })

    unfoldable pub write_batch : Ctx → List LogEvent → ClickHouse → Option Err × ClickHouse
    write_batch (some x) events c = (some x, c)
    write_batch none events c =
        if c.closed || not c.has_conn
        then (some store_closed, c)
        else if is_empty events
        then (none, c)
        else elim (validate_from 0 events) [
          | some x ↦ (some x, c)
          | none ↦ write_valid none events c
        ]
