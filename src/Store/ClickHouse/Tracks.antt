-- ===== src/Store/ClickHouse/Tracks.antt =====
-- pkg/store/clickhouse.go as the store of the writer: what is inserted stays inserted.
use mathlib.Core.List.{Sublistᴰ}
use mathlib.Core.List.Sublistᴰ
use mathlib.Core.Path.{subst}
use mathlib.Core.List.{map-append}
use apexio.Base.{
  ◌≡◌, sym, ◌∙◌, ap, inl, inr, Bool-cases, Option, Option-cases, none, some, List, [], ◌∷◌, ◌++◌,
  map, append-nil, Result, ok, err, not, ◌||◌, if◌then◌else◌,
}
use apexio.Base.Text.{is_empty, Unicode}
use apexio.Errors.{Err, Ctx, wrap, clickhouse_prepare}
use apexio.Schema.Event.{LogEvent}
use apexio.Store.Interface.{Store, Tracks}
use apexio.Store.ClickHouse.{
  Driver, Row, row, ClickHouse, ClickHouseConfig, append_all, insert_events, insert_query,
  write_batch, close, validate_from, send_batch, write_valid,
}
use apexio.Store.ClickHouse.Insert.{Inserts, Written, write_batch-Written}

-- What the server is documented to do when `Send` fails: some rows may have been inserted, and
-- none of those that were there is taken away.
pub record Keeps (D : Driver) (I : Inserts D) : Type 0 where
  pub inserted-send_any :
      (batch : D.Batch) (conn : D.Conn)
      → (more : List Row) × (I.inserted (D.send batch conn).1 ≡ I.inserted conn ++ more)

module _ (D : Driver) (I : Inserts D) (K : Keeps D I) where
  -- Rows are at most added.
  abbrev pub Grown : List Row → D.Conn → Type 0
  Grown before conn = (more : List Row) × (I.inserted conn ≡ before ++ more)

  insert_events-Grown :
      (ctx : Ctx) (cfg : ClickHouseConfig) (events : List LogEvent) (conn : D.Conn)
      → Grown (I.inserted conn) (insert_events D ctx cfg events conn).1
  unfolding insert_events
  insert_events-Grown ctx cfg events conn =
      go (D.prepare_batch ctx (insert_query cfg) conn)
        (I.inserted-prepare_batch ctx (insert_query cfg) conn)
    where
      filled :
          (r : Result Err D.Batch) (conn' : D.Conn)
          → I.inserted conn' ≡ I.inserted conn
          → Grown
              (I.inserted conn)
              (elim r as (λ _. Option Err × D.Conn) [
                | err x ↦ (some x, conn')
                | ok full ↦ send_batch D full conn'
              ]).1
      filled (err x) conn' kept = ([], kept ∙ sym (append-nil (I.inserted conn)))
      filled (ok full) conn' kept =
          let (more, added) = K.inserted-send_any full conn' in
          (more, added ∙ ap (λ l. l ++ more) kept)

      go :
          (o : Result Err D.Batch × D.Conn)
          → I.inserted o.1 ≡ I.inserted conn
          → Grown
              (I.inserted conn)
              (elim o.0 as (λ _. Option Err × D.Conn) [
                | err x ↦ (some (wrap clickhouse_prepare x), o.1)
                | ok batch ↦ elim (append_all D events batch) [
                  | err x ↦ (some x, o.1)
                  | ok full ↦ send_batch D full o.1
                ]
              ]).1
      go (err x, c) kept = ([], kept ∙ sym (append-nil (I.inserted conn)))
      go (ok batch, c) kept = filled (append_all D events batch) c kept

module _ ⦃u : Unicode⦄ (D : Driver) where
  abbrev pub clickhouse_store : Store
  clickhouse_store = record { State = ClickHouse D; write_batch = write_batch D; close = close D }

  module _ (I : Inserts D) (K : Keeps D I) where
    pub write_batch-Grown :
        (ctx : Ctx) (events : List LogEvent) (c : ClickHouse D)
        → Grown D I K (I.inserted c.conn) (write_batch D ctx events c).1.conn
    unfolding write_batch
    write_batch-Grown (some x) events c = ([], sym (append-nil (I.inserted c.conn)))
    write_batch-Grown none events c = elim (Bool-cases (c.closed || not c.has_conn)) [
      | inl shut ↦ rw (shut, write_batch) ([], sym (append-nil (I.inserted c.conn)))
      | inr is_open ↦ rw (is_open, write_batch) (go events)
    ]
      where
        go :
            (l : List LogEvent)
            → Grown D I K
                (I.inserted c.conn)
                (if is_empty l
                  then (none, c)
                  else elim (validate_from D 0 l) as (λ _. Option Err × ClickHouse D) [
                    | some x ↦ (some x, c)
                    | none ↦ write_valid D none l c
                  ]).1.conn
        go [] = ([], sym (append-nil (I.inserted c.conn)))
        go (e ∷ l) = elim (Option-cases (validate_from D 0 (e ∷ l))) [
          | inl good ↦ rw (good) (insert_events-Grown D I K none c.cfg (e ∷ l) c.conn)
          | inr (x, bad) ↦ rw (bad) ([], sym (append-nil (I.inserted c.conn)))
        ]

    -- The rows of the events, in their order, are among those on the server.
    abbrev pub HasRows : List LogEvent → ClickHouse D → Type 0
    HasRows events c = Sublistᴰ (map row events) (I.inserted c.conn)

    pub inserted-Written :
        (events : List LogEvent) (c : ClickHouse D) (o : Option Err × ClickHouse D)
        → o.0 ≡ none
        → Written D I events c o
        → I.inserted o.1.conn ≡ I.inserted c.conn ++ map row events
    inserted-Written events c (none, c') h w = w.0
    inserted-Written events c (some x, c') h w = cc

    -- The production store, as one that may hold more than it has acknowledged.
    abbrev pub clickhouse_tracks : Tracks clickhouse_store
    clickhouse_tracks = record {
      Got = HasRows;
      got-write_batch = λ ctx done events c got written.
          subst (λ l. Sublistᴰ l (I.inserted (write_batch D ctx events c).1.conn))
            (sym (map-append row done events))
            (subst (Sublistᴰ (map row done ++ map row events))
              (sym (inserted-Written events c _ written (write_batch-Written D I ctx events c)))
              (Sublistᴰ.append got (Sublistᴰ.refl (map row events))));
      got-write_batch_failed = λ ctx done events c x got failed.
          let (more, added) = write_batch-Grown ctx events c in
          subst (Sublistᴰ (map row done)) (sym added) (
            subst (λ l. Sublistᴰ l (I.inserted c.conn ++ more)) (append-nil (map row done))
              (Sublistᴰ.append got (Sublistᴰ.nil-sublist more)));
    }
