-- ===== src/Writer/Main/Exits.antt =====
-- cmd/writer/main.go: what is on the server when the process ends, and whether it ended well.
use mathlib.Core.List.{Sublistᴰ, map-append}
use mathlib.Core.List.Sublistᴰ
use mathlib.Core.Path.{subst}
use apexio.Base.{
  ◌≡◌, sym, ◌∙◌, ap, inl, inr, Bool-cases, true, false, none, some, List, ◌++◌, map, ok, err,
  Result, append-nil, arith,
}
use apexio.Base.Text.{Unicode}
use apexio.Errors.{Err, is_canceled}
use apexio.Os.{Env}
use apexio.Schema.Wire.{Codec}
use apexio.Store.ClickHouse.{Driver, Row, ClickHouse, row, new_clickhouse, close}
use apexio.Store.ClickHouse.Insert.{Inserts}
use apexio.Store.ClickHouse.Tracks.{Keeps, clickhouse_store, clickhouse_tracks}
use apexio.Writer.Batch.{BatchConfig, with_defaults}
use apexio.Writer.Consumer.{KafkaMessage, Turn, Consumer, Outcome, running, stopped, run_consumer}
use apexio.Writer.Consumer.ClickHouse.{run_consumer-HasRows}
use apexio.Writer.Consumer.Delivery.{Holds, fetched_all}
use apexio.Writer.Consumer.Flush.{Inv-Safe, Safe}
use apexio.Writer.Consumer.Messages.{AllRead, events_of, events_of-append}
use apexio.Writer.Main.{
  Process, store_failed, consuming, subscribe_failed, clean, close_store, end_of, main, sink_over,
}
use apexio.Writer.Settings.{topic, store_config, batch_config}
use apexio.Writer.Settings.Numbers.{Fractions}

-- What closing a connection is documented to do to the server: nothing.
pub record ClosesOnly (D : Driver) (I : Inserts D) : Type 0 where
  pub inserted-close : (conn : D.Conn) → I.inserted (D.close conn).1 ≡ I.inserted conn

module _ ⦃u : Unicode⦄ ⦃d : Codec⦄ ⦃r : Fractions⦄ (D : Driver) (I : Inserts D) (K : Keeps D I)
    (C : ClosesOnly D I) where
  -- The messages that were committed are the first of those that were fetched, they could all be
  -- read, and the rows of their events are on the server in this order.
  abbrev pub Delivered : List KafkaMessage → Consumer (clickhouse_store D) → Type 0
  Delivered fetched c =
      ((rest : List KafkaMessage) × (fetched ≡ c.committed ++ rest))
      × AllRead (c.committed ++ c.msgs)
      × Sublistᴰ (map row (events_of c.committed)) (I.inserted c.sink.store.conn)

  -- What a process has left: without a store it has fetched nothing.
  abbrev pub Left : List KafkaMessage → Process D → Type 0
  Left fetched (store_failed x) = Unit
  Left fetched (consuming c) = Delivered fetched c
  Left fetched (subscribe_failed x c) = Delivered fetched c × (is_canceled x ≡ false)
  Left fetched (clean c) = Delivered fetched c × (c.sink.store.closed ≡ true)

  close-inserted : (c : ClickHouse D) → I.inserted (close D c).1.conn ≡ I.inserted c.conn
  unfolding close
  close-inserted c = ground (arith, C.inserted-close c.conn)

  close-closed : (c : ClickHouse D) → (close D c).1.closed ≡ true
  unfolding close
  close-closed c = ground arith

  -- Rows that stand for more messages stand for the first of them.
  fewer :
      (ms ns : List KafkaMessage) (rows : List Row)
      → Sublistᴰ (map row (events_of (ms ++ ns))) rows
      → Sublistᴰ (map row (events_of ms)) rows
  fewer ms ns rows h =
      Sublistᴰ.trans
        (subst (λ l. Sublistᴰ l (map row (events_of ms) ++ map row (events_of ns)))
          (append-nil (map row (events_of ms)))
          (Sublistᴰ.append (Sublistᴰ.refl (map row (events_of ms)))
            (Sublistᴰ.nil-sublist (map row (events_of ns)))))
        (subst (λ l. Sublistᴰ l rows)
          (ap (map row) (events_of-append ms ns) ∙ map-append row (events_of ms) (events_of ns)) h)

  module _ (cfg : BatchConfig) where
    Delivered-Safe :
        {fetched : List KafkaMessage} {c : Consumer (clickhouse_store D)}
        → Safe (clickhouse_store D) (clickhouse_tracks D I K) cfg fetched c
        → Delivered fetched c
    Delivered-Safe {c} s = (
      (c.msgs ++ s.dropped, s.all_fetched),
      s.readable,
      elim s.stored [ inl got ↦ got | inr got ↦ fewer c.committed c.msgs _ got ],
    )

    Delivered-close_store :
        (fetched : List KafkaMessage) (c : Consumer (clickhouse_store D))
        → Delivered fetched c
        → Delivered fetched (close_store D c)
    unfolding close_store
    Delivered-close_store fetched c (first, readable, rows) = (
      first,
      readable,
      subst (Sublistᴰ (map row (events_of c.committed))) (sym (close-inserted c.sink.store)) rows,
    )

    closed-close_store :
        (c : Consumer (clickhouse_store D)) → (close_store D c).sink.store.closed ≡ true
    unfolding close_store
    closed-close_store c = close-closed c.sink.store

    end_of-Left :
        (fetched : List KafkaMessage) (o : Outcome (clickhouse_store D))
        → Holds (clickhouse_store D) (clickhouse_tracks D I K) cfg fetched o
        → Left fetched (end_of D o)
    unfolding end_of
    end_of-Left fetched (running c) v =
        Delivered-Safe (Inv-Safe (clickhouse_store D) (clickhouse_tracks D I K) cfg v)
    end_of-Left fetched (stopped none c) s =
        (Delivered-close_store fetched c (Delivered-Safe s), closed-close_store c)
    end_of-Left fetched (stopped (some x) c) s = elim (Bool-cases (is_canceled x)) [
      | inl done ↦
          rw (done) (Delivered-close_store fetched c (Delivered-Safe s), closed-close_store c)
      | inr other ↦ rw (other) (Delivered-Safe s, other)
    ]

  -- Whatever the environment, the server, the reader, the ticker and the context: unless the store
  -- could not be opened, at every moment and when the process ends, the messages that were
  -- committed are the first of those that were fetched, they could all be read, and the rows of
  -- their events are on the server in this order, with others among them at most. A clean end has
  -- closed the store, and the process fails only with an error that is no cancellation.
  pub main-Left : (env : Env) (ts : List Turn) → Left (fetched_all ts) (main D env ts)
  unfolding main
  main-Left env ts = go (new_clickhouse D (store_config env)).0
    where
      go :
          (o : Result Err (ClickHouse D))
          → Left (fetched_all ts) (elim o [
            | err x ↦ store_failed x
            | ok c ↦ end_of D (
                run_consumer
                  (clickhouse_store D)
                  (with_defaults (batch_config env))
                  (topic env)
                  ts
                  (sink_over D c))
          ])
      go (err x) = tt
      go (ok c) = end_of-Left (with_defaults (batch_config env)) (fetched_all ts) _ (
          run_consumer-HasRows D I K (with_defaults (batch_config env)) (topic env) ts
            (sink_over D c))
