-- ===== src/Writer/Consumer/Counts.antt =====
-- What the counters of cmd/writer say of the loop of consumer.go, over any store.
use apexio.Base.{none, some, length}
use apexio.Base.Text.{Text}
use apexio.Store.Interface.{Store}
use apexio.Writer.Batch.{BatchConfig}
use apexio.Writer.Consumer.{Consumer, Outcome, running, stopped}
use apexio.Writer.Consumer.Counters.{Counted, Inv, Ended}

module _ (S : Store) (cfg : BatchConfig) where
  -- What holds after a turn.
  abbrev pub HoldsCounts : Outcome S → Type 0
  HoldsCounts (running c) = Inv S cfg c
  HoldsCounts (stopped none c) = Counted (length c.committed) 0 0 c.sink.metrics
  HoldsCounts (stopped (some x) c) = Ended S cfg x c
