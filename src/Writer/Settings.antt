-- ===== src/Writer/Settings.antt =====
-- cmd/writer/main.go: the settings from the environment.
pub mod Numbers
pub mod Digits
pub mod Units
pub mod Fuel
use apexio.Base.{List, Option, none, some, if◌then◌else◌}
use apexio.Base.Int.{ℤ, pos}
use apexio.Base.Text.{Text, codes, is_empty, split}
use apexio.Broker.Redpanda.{RedpandaConfig}
use apexio.Os.{Env}
use apexio.Schema.Event.{default_topic}
use apexio.Store.ClickHouse.{ClickHouseConfig}
use apexio.Writer.Batch.{BatchConfig}
use apexio.Writer.Settings.Numbers.{Fractions, atoi, parse_duration}

unfoldable pub env_or : Env → Text → Text → Text
env_or env key fallback = let v = env key in if is_empty v then fallback else v

abbrev pub or_fallback : ℤ → Option ℤ → ℤ
or_fallback fallback none = fallback
or_fallback fallback (some n) = n

unfoldable pub env_int : Env → Text → ℤ → ℤ
env_int env key fallback =
    let v = env key in if is_empty v then fallback else or_fallback fallback (atoi v)

unfoldable pub topic : Env → Text
topic env = env_or env (codes "LOG_TOPIC") default_topic

unfoldable pub bus_config : Env → RedpandaConfig
bus_config env = record {
  brokers = split b',' (env_or env (codes "REDPANDA_BROKERS") (codes "localhost:19092"));
  client_id = env_or env (codes "REDPANDA_CLIENT_ID") (codes "apexio-writer");
  group_id = env_or env (codes "REDPANDA_GROUP_ID") (codes "apexio-writer");
}

unfoldable pub store_config : Env → ClickHouseConfig
store_config env = record {
  dsn = codes "";
  addr = env_or env (codes "CLICKHOUSE_ADDR") (codes "localhost:9000");
  database = env_or env (codes "CLICKHOUSE_DATABASE") (codes "apexio");
  table = env_or env (codes "CLICKHOUSE_TABLE") (codes "logs");
  username = env_or env (codes "CLICKHOUSE_USER") (codes "default");
  password = env (codes "CLICKHOUSE_PASSWORD");
  ping_attempts = pos 0;
}

module _ ⦃r : Fractions⦄ where
  unfoldable pub env_duration : Env → Text → ℤ → ℤ
  env_duration env key fallback =
      let v = env key in if is_empty v then fallback else or_fallback fallback (parse_duration v)

  unfoldable pub batch_config : Env → BatchConfig
  batch_config env = record {
    batch_size = env_int env (codes "WRITER_BATCH_SIZE") (pos 50);
    flush_interval = env_duration env (codes "WRITER_FLUSH_INTERVAL") (pos 1_000_000_000);
    max_retries = env_int env (codes "WRITER_MAX_RETRIES") (pos 3);
    retry_backoff = env_duration env (codes "WRITER_RETRY_BACKOFF") (pos 200_000_000);
  }
