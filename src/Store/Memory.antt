-- ===== src/Store/Memory.antt =====
-- The in-process store of pkg/store/memory.go. Each method is one step, as its lock makes it.
use apexio.Base.{
  ℕ, ◌≡◌, refl, sym, ◌∙◌, ap, ◌↔◌, Bool, true, false, Option, none, some, List, [], ◌∷◌, ◌++◌,
  append-nil, arith, length, All, if◌then◌else◌,
}
use apexio.Base.Text.{Unicode}
use apexio.Errors.{Err, Ctx, store_closed}
use apexio.Schema.Event.{LogEvent, validate}
use apexio.Schema.Event.Valid.{IsValid, validate-none_iff}
use apexio.Store.Interface.{Store, IsAtomic, Accepts, ChecksContext}

pub record Memory : Type 0 where
  pub closed : Bool
  pub events : List LogEvent

-- `NewMemory`
abbrev pub new_memory : Memory
new_memory = record { closed = false; events = [] }

module _ ⦃u : Unicode⦄ where
  -- The validation loop: the error of the first event that has one.
  unfoldable pub validate_all : List LogEvent → Option Err
  validate_all [] = none
  validate_all (e ∷ events) =
      let rest = validate_all events in elim (validate e) [ some x ↦ some x | none ↦ rest ]

  -- The part of `WriteBatch` under the lock.
  abbrev append_events : List LogEvent → Memory → Option Err × Memory
  append_events events m =
      if m.closed then (some store_closed, m) else (none, record m { events = m.events ++ events })

  unfoldable pub write_batch : Ctx → List LogEvent → Memory → Option Err × Memory
  write_batch (some x) events m = (some x, m)
  write_batch none [] m = (none, m)
  write_batch none (e ∷ events) m = elim (validate_all (e ∷ events)) [
    | some x ↦ (some x, m)
    | none ↦ append_events (e ∷ events) m
  ]

-- `All` and `Len`
abbrev pub all : Memory → List LogEvent
all m = m.events

abbrev pub len : Memory → ℕ
len m = length m.events

unfoldable pub close : Memory → Option Err × Memory
close m = (none, record m { closed = true })

abbrev pub memory_store : ⦃u : Unicode⦄ → Store
memory_store = record { State = Memory; write_batch = write_batch; close = close }

module _ ⦃u : Unicode⦄ where
  pub validate_all-none_iff :
      (events : List LogEvent) → (validate_all events ≡ none) ↔ All IsValid events
  unfolding validate_all
  validate_all-none_iff [] = (λ _. tt, λ _. refl)
  validate_all-none_iff (e ∷ events) =
      ground (arith, validate-none_iff e, validate_all-none_iff events)

  -- A batch that is not empty is stored exactly if the context is live, every event is valid and
  -- the store is open; it then stands behind what was stored.
  pub write_batch-ok_iff :
      (ctx : Ctx) (e : LogEvent) (events : List LogEvent) (m : Memory)
      → (write_batch ctx (e ∷ events) m ≡ (none, record m { events = m.events ++ (e ∷ events) }))
        ↔ ((ctx ≡ none) × All IsValid (e ∷ events) × (m.closed ≡ false))
  unfolding write_batch
  write_batch-ok_iff ctx e events m = ground (arith, validate_all-none_iff (e ∷ events))

  -- A write that gives an error leaves the in-process store as it was.
  pub write_batch_failed :
      (ctx : Ctx) (events : List LogEvent) (m : Memory) (x : Err)
      → (write_batch ctx events m).0 ≡ some x
      → (write_batch ctx events m).1 ≡ m
  unfolding write_batch
  write_batch_failed (some y) events m x h = refl
  write_batch_failed none [] m x h = refl
  write_batch_failed none (e ∷ events) m x h = ground arith

  write_batch_stored :
      (ctx : Ctx) (events : List LogEvent) (m : Memory)
      → (write_batch ctx events m).0 ≡ none
      → (write_batch ctx events m).1.events ≡ m.events ++ events
  unfolding write_batch
  write_batch_stored (some y) events m h = cc
  write_batch_stored none [] m h = sym (append-nil m.events)
  write_batch_stored none (e ∷ events) m h = ground arith

  pub memory_store-IsAtomic : IsAtomic memory_store
  memory_store-IsAtomic = record {
    stored = λ m. m.events;
    stored-write_batch = write_batch_stored;
    stored-write_batch_failed =
        λ ctx events m x h. ap (λ (t : Memory). t.events) (write_batch_failed ctx events m x h);
  }

  pub memory_store-ChecksContext : ChecksContext memory_store
  unfolding write_batch
  memory_store-ChecksContext = record { write_batch_done = λ x events m. refl }

  -- An open store takes valid events.
  pub write_batch_open :
      (events : List LogEvent) (m : Memory)
      → All IsValid events
      → m.closed ≡ false
      → ((write_batch none events m).0 ≡ none) × ((write_batch none events m).1.closed ≡ false)
  unfolding write_batch
  write_batch_open [] m valid is_open = (refl, is_open)
  write_batch_open (e ∷ events) m valid is_open =
      let stored = (write_batch-ok_iff none e events m).1 (refl, valid, is_open) in
      (
        ap (λ (o : Option Err × Memory). o.0) stored,
        ap (λ (o : Option Err × Memory). o.1.closed) stored ∙ is_open,
      )

  abbrev pub memory_store-Accepts : Accepts memory_store
  memory_store-Accepts = record {
    Ready = λ m. m.closed ≡ false;
    write_batch-accepts = λ events m valid is_open. write_batch_open events m valid is_open;
  }
