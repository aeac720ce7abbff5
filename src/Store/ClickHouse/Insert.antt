-- ===== src/Store/ClickHouse/Insert.antt =====
-- pkg/store/clickhouse.go, `WriteBatch`: what it inserts.
use apexio.Base.{
  ℕ, suc, ◌≡◌, refl, sym, ◌∙◌, ap, ◌↔◌, ◌⊎◌, inl, inr, Bool, false, not, ◌||◌, Option, none, some,
  List, [], ◌∷◌, ◌++◌, map, append-nil, append_assoc, Result, ok, err, All, arith, Bool-cases,
  if◌then◌else◌, Option-cases, ok-injective, ok≢err,
}
use apexio.Base.Text.{Text, is_empty, Unicode}
use apexio.Errors.{Err, Ctx, wrap, clickhouse_send, clickhouse_append, clickhouse_prepare}
use apexio.Schema.Event.{LogEvent}
use apexio.Schema.Event.Valid.{IsValid, validate-none_iff}
use apexio.Store.ClickHouse.{
  Driver, Row, row, ClickHouse, append_all, insert_events, write_batch, validate_from, insert_query,
  send_batch, ClickHouseConfig, write_valid,
}

-- What the driver is documented to do: a batch is empty when it is prepared, `Append` adds a row to
-- it, and `Send` inserts its rows. What the server has when `Send` gives an error is not known.
pub record Inserts (D : Driver) : Type 0 where
  pub inserted : D.Conn → List Row
  pub pending : D.Batch → List Row
  pub inserted-prepare_batch :
      (ctx : Ctx) (query : Text) (conn : D.Conn)
      → inserted (D.prepare_batch ctx query conn).1 ≡ inserted conn
  pub pending-prepare_batch :
      (ctx : Ctx) (query : Text) (conn : D.Conn) (batch : D.Batch)
      → (D.prepare_batch ctx query conn).0 ≡ ok batch
      → pending batch ≡ []
  pub pending-append :
      (r : Row) (batch : D.Batch)
      → (D.append r batch).0 ≡ none
      → pending (D.append r batch).1 ≡ pending batch ++ r ∷ []
  pub inserted-send :
      (batch : D.Batch) (conn : D.Conn)
      → (D.send batch conn).0 ≡ none
      → inserted (D.send batch conn).1 ≡ inserted conn ++ pending batch

module _ (D : Driver) (I : Inserts D) where
  -- The rows of the events are inserted behind what was there, or nothing is, unless `Send` failed.
  abbrev pub Wrote : List LogEvent → List Row → Option Err × D.Conn → Type 0
  Wrote events before (none, conn) = I.inserted conn ≡ before ++ map row events
  Wrote events before (some x, conn) =
      (I.inserted conn ≡ before) ⊎ ((y : Err) × (x ≡ wrap clickhouse_send y))

  pending-append_all :
      (events : List LogEvent) (batch full : D.Batch)
      → append_all D events batch ≡ ok full
      → I.pending full ≡ I.pending batch ++ map row events
  unfolding append_all
  pending-append_all [] batch full h =
      sym (ap I.pending (ok-injective h)) ∙ sym (append-nil (I.pending batch))
  pending-append_all (e ∷ events) batch full h =
      go (D.append (row e) batch) refl (pending-append_all events) h
    where
      go :
          (o : Option Err × D.Batch)
          → D.append (row e) batch ≡ o
          → ((b : D.Batch) (l : D.Batch)
              → append_all D events b ≡ ok l
              → I.pending l ≡ I.pending b ++ map row events)
          → elim o.0 [ some x ↦ err (wrap clickhouse_append x) | none ↦ append_all D events o.1 ]
            ≡ ok full
          → I.pending full ≡ I.pending batch ++ map row (e ∷ events)
      go (some x, b) same rest failed = elim (ok≢err (sym failed)) [ ]
      go (none, b) same rest done =
          rest b full done
          ∙ ap (λ l. l ++ map row events)
              (sym (ap (λ o. I.pending o.1) same)
                ∙ I.pending-append (row e) batch (ap (λ o. o.0) same))
          ∙ append_assoc (I.pending batch) (row e ∷ []) (map row events)

  Wrote-send_batch :
      (events : List LogEvent) (batch : D.Batch) (conn : D.Conn) (before : List Row)
      → I.inserted conn ≡ before
      → I.pending batch ≡ map row events
      → Wrote events before (send_batch D batch conn)
  Wrote-send_batch events batch conn before same_rows filled = go (D.send batch conn) refl
    where
      go :
          (o : Option Err × D.Conn)
          → D.send batch conn ≡ o
          → Wrote events before
              (elim o.0 [ none ↦ none | some x ↦ some (wrap clickhouse_send x) ], o.1)
      go (none, c) same =
          sym (ap (λ o. I.inserted o.1) same)
          ∙ I.inserted-send batch conn (ap (λ o. o.0) same)
          ∙ ap (λ l. l ++ I.pending batch) same_rows
          ∙ ap (λ l. before ++ l) filled
      go (some x, c) same = inr (x, refl)

  Wrote-insert_events :
      (ctx : Ctx) (cfg : ClickHouseConfig) (events : List LogEvent) (conn : D.Conn)
      → Wrote events (I.inserted conn) (insert_events D ctx cfg events conn)
  unfolding insert_events
  Wrote-insert_events ctx cfg events conn = go (D.prepare_batch ctx (insert_query cfg) conn) refl
    where
      filled_as :
          (batch : D.Batch) (conn' : D.Conn) (r : Result Err D.Batch)
          → I.inserted conn' ≡ I.inserted conn
          → I.pending batch ≡ []
          → append_all D events batch ≡ r
          → Wrote events
              (I.inserted conn)
              (elim r [ err x ↦ (some x, conn') | ok full ↦ send_batch D full conn' ])
      filled_as batch conn' (err x) kept empty filled = inl kept
      filled_as batch conn' (ok full) kept empty filled =
          Wrote-send_batch events full conn' (I.inserted conn) kept
            (pending-append_all events batch full filled ∙ ap (λ l. l ++ map row events) empty)

      go :
          (o : Result Err D.Batch × D.Conn)
          → D.prepare_batch ctx (insert_query cfg) conn ≡ o
          → Wrote events (I.inserted conn) (elim o.0 [
            | err x ↦ (some (wrap clickhouse_prepare x), o.1)
            | ok batch ↦ elim (append_all D events batch) [
              | err x ↦ (some x, o.1)
              | ok full ↦ send_batch D full o.1
            ]
          ])
      go (err x, c) same = inl (
          sym (ap (λ o. I.inserted o.1) same)
          ∙ I.inserted-prepare_batch ctx (insert_query cfg) conn)
      go (ok batch, c) same =
          filled_as batch c (append_all D events batch)
            (sym (ap (λ o. I.inserted o.1) same)
              ∙ I.inserted-prepare_batch ctx (insert_query cfg) conn)
            (I.pending-prepare_batch ctx (insert_query cfg) conn batch (ap (λ o. o.0) same)) refl

module _ ⦃u : Unicode⦄ (D : Driver) where
  validate_from-none_iff :
      (i : ℕ) (events : List LogEvent) → (validate_from D i events ≡ none) ↔ All IsValid events
  unfolding validate_from
  validate_from-none_iff i [] = (λ _. tt, λ _. refl)
  validate_from-none_iff i (e ∷ events) =
      ground (arith, validate-none_iff e, validate_from-none_iff (suc i) events)

  module _ (I : Inserts D) where
    -- What a result says of the rows on the server and of the call.
    abbrev pub Written : List LogEvent → ClickHouse D → Option Err × ClickHouse D → Type 0
    Written events c (none, c') =
        (I.inserted c'.conn ≡ I.inserted c.conn ++ map row events)
        × All IsValid events
        × (c.closed ≡ false)
    Written events c (some x, c') =
        (I.inserted c'.conn ≡ I.inserted c.conn) ⊎ ((y : Err) × (x ≡ wrap clickhouse_send y))

    Written-some :
        (events : List LogEvent) (c : ClickHouse D) (x : Err) → Written events c (some x, c)
    Written-some events c x = inl refl

    Written-inserted :
        (events : List LogEvent) (c : ClickHouse D)
        → All IsValid events
        → c.closed ≡ false
        → (o : Option Err × D.Conn) → Wrote D I events (I.inserted c.conn) o
        → Written events c (o.0, record c { conn = o.1 })
    Written-inserted events c valid is_open (none, conn) wrote = (wrote, valid, is_open)
    Written-inserted events c valid is_open (some x, conn) wrote = wrote

    or_false : (a b : Bool) → a || b ≡ false → a ≡ false
    or_false a b h = ground arith

    -- Over a driver that inserts what was appended to a batch: if `WriteBatch` gives no error, the
    -- store is open, every event is valid, and the rows of the events stand in their order behind
    -- those that were there; with an error nothing is inserted, unless it is the error of `Send`.
    pub write_batch-Written :
        (ctx : Ctx) (events : List LogEvent) (c : ClickHouse D)
        → Written events c (write_batch D ctx events c)
    unfolding write_batch
    write_batch-Written (some x) events c = Written-some events c x
    write_batch-Written none events c = elim (Bool-cases (c.closed || not c.has_conn)) [
      | inl shut ↦ rw (shut, write_batch) (Written-some events c _)
      | inr is_open ↦ rw (is_open, write_batch) (go events (or_false _ _ is_open))
    ]
      where
        go :
            (l : List LogEvent)
            → c.closed ≡ false
            → Written l c (
                if is_empty l then (none, c) else elim (validate_from D 0 l) [
                  | some x ↦ (some x, c)
                  | none ↦ write_valid D none l c
                ])
        go [] is_open = (sym (append-nil (I.inserted c.conn)), tt, is_open)
        go (e ∷ l) is_open = elim (Option-cases (validate_from D 0 (e ∷ l))) [
          | inl good ↦ rw (good) (
              Written-inserted (e ∷ l) c ((validate_from-none_iff 0 (e ∷ l)).0 good) is_open _
                (Wrote-insert_events D I none c.cfg (e ∷ l) c.conn))
          | inr (x, bad) ↦ rw (bad) (Written-some (e ∷ l) c x)
        ]
