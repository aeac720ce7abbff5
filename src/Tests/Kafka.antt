-- ===== src/Tests/Kafka.antt =====
-- A kafka client in memory.
use apexio.Base.{refl, none, List, [], ◌∷◌, ◌++◌, true, false}
use apexio.Base.Text.{codes}
use apexio.Broker.Interface.{Message}
use apexio.Broker.Redpanda.{KafkaWriter, Redpanda}
use apexio.Broker.Redpanda.Log.{Writes}

-- A writer that keeps what it writes, in memory.
abbrev pub writer : KafkaWriter
writer = record {
  State = List Message;
  write_messages = λ ctx msg s. (none, s ++ msg ∷ []);
  close = λ s. (none, s);
}

pub writer-Writes : Writes writer
writer-Writes = record {
  written = λ s. s;
  written-write_messages = λ ctx msg s done. refl;
  written-write_messages_failed = λ ctx msg s x failed. cc;
  written-close = λ s. refl;
}

abbrev pub producer : Redpanda writer
producer = record {
  cfg = record {
    brokers = codes "localhost:19092" ∷ [];
    client_id = codes "apexio";
    group_id = [];
  };
  has_writer = true;
  writer = [];
  closed = false;
}
