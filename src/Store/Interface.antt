-- ===== src/Store/Interface.antt =====
-- The `Store` interface of pkg/store/store.go over an unknown state.
use apexio.Base.{◌≡◌, ◌∙◌, ap, Option, none, some, List, ◌++◌, append_assoc, All}
use apexio.Base.Text.{Unicode}
use apexio.Errors.{Err, Ctx}
use apexio.Schema.Event.{LogEvent}
use apexio.Schema.Event.Valid.{IsValid}

pub record Store : Type 1 where
  pub State : Type 0
  pub write_batch : Ctx → List LogEvent → State → Option Err × State
  pub close : State → Option Err × State

-- A batch is stored as a whole, behind what is there, or not at all.
pub record IsAtomic (S : Store) : Type 0 where
  pub stored : S.State → List LogEvent
  pub stored-write_batch :
      (ctx : Ctx) (events : List LogEvent) (s : S.State)
      → (S.write_batch ctx events s).0 ≡ none
      → stored (S.write_batch ctx events s).1 ≡ stored s ++ events
  pub stored-write_batch_failed :
      (ctx : Ctx) (events : List LogEvent) (s : S.State) (x : Err)
      → (S.write_batch ctx events s).0 ≡ some x
      → stored (S.write_batch ctx events s).1 ≡ stored s

-- A context that is done stops a write before it begins.
pub record ChecksContext (S : Store) : Type 0 where
  pub write_batch_done :
      (x : Err) (events : List LogEvent) (s : S.State)
      → S.write_batch (some x) events s ≡ (some x, s)

-- A store that is ready takes every batch of valid events, and is ready again.
pub record Accepts ⦃u : Unicode⦄ (S : Store) : Type 1 where
  pub Ready : S.State → Type 0
  pub write_batch-accepts :
      (events : List LogEvent) (s : S.State)
      → All IsValid events
      → Ready s
      → ((S.write_batch none events s).0 ≡ none) × Ready (S.write_batch none events s).1

-- What a store has got, as a predicate of its own: it grows by the events of a batch that was
-- written, and a batch that was not takes nothing away.
pub record Tracks (S : Store) : Type 1 where
  pub Got : List LogEvent → S.State → Type 0
  pub got-write_batch :
      (ctx : Ctx) (done events : List LogEvent) (s : S.State)
      → Got done s
      → (S.write_batch ctx events s).0 ≡ none
      → Got (done ++ events) (S.write_batch ctx events s).1
  pub got-write_batch_failed :
      (ctx : Ctx) (done events : List LogEvent) (s : S.State) (x : Err)
      → Got done s
      → (S.write_batch ctx events s).0 ≡ some x
      → Got done (S.write_batch ctx events s).1

-- An atomic store tracks what it has got behind a log.
abbrev pub atomic_tracks : (S : Store) → IsAtomic S → List LogEvent → Tracks S
atomic_tracks S A log = record {
  Got = λ done s. A.stored s ≡ log ++ done;
  got-write_batch = λ ctx done events s got written.
      A.stored-write_batch ctx events s written
      ∙ (ap (λ l. l ++ events) got ∙ append_assoc log done events);
  got-write_batch_failed =
      λ ctx done events s x got failed. A.stored-write_batch_failed ctx events s x failed ∙ got;
}
