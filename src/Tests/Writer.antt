-- ===== src/Tests/Writer.antt =====
-- cmd/writer at concrete inputs.
use apexio.Base.{
  ℕ, ◌≡◌, ◌↔◌, ◌≤◌, refl, none, some, [], ◌∷◌, true, false, ok, err, List, arith, leb,
  if◌then◌else◌,
}
use apexio.Base.Int.{pos}
use apexio.Errors.{Ctx, canceled, deadline_exceeded, is_canceled, root}
use apexio.Schema.Event.{default_topic}
use apexio.Store.Interface.{atomic_tracks}
use apexio.Store.Memory.{
  new_memory, memory_store, memory_store-IsAtomic, memory_store-ChecksContext,
}
use apexio.Writer.Batch
use apexio.Writer.Batch.{BatchConfig, Sink, with_defaults, to_nat}
use apexio.Writer.Batch.Retry.{attempt, flush-none_iff}
use apexio.Writer.Consumer.{Turn, Consumer, stopped, step, run, run_consumer}
use apexio.Writer.Consumer.Delivery.{Holds, fetched_all, run_consumer-Holds}
use apexio.Writer.Consumer.Bounds.{InBounds, run-InBounds}
use apexio.Writer.Consumer.Shutdown.{given_up, unwritten, step-canceled}
use apexio.Tests.Codec.{codec}
use apexio.Tests.Platform.{unicode}
use apexio.Tests.Data.{event, event_bytes, second_bytes}

abbrev pub settings : BatchConfig
settings = record {
  batch_size = pos 2;
  flush_interval = pos 1_000_000_000;
  max_retries = pos 3;
  retry_backoff = pos 200_000_000;
}

abbrev sink : Sink memory_store
sink = record {
  store = new_memory;
  metrics = record { events_written = 0; batches_flush = 0; decode_errors = 0; write_errors = 0 };
}

-- Messages come in, the second fills the batch, and the context is then cancelled.
abbrev pub fetches : ℕ → List ℕ → Turn
fetches offset value = record {
  fetched = ok (record { topic = default_topic; offset = offset; value = value });
  ctx = λ n. none;
  commit_error = none;
  ticked = false;
  done = false;
}

abbrev pub cancels : Turn
cancels = record {
  fetched = err canceled;
  ctx = λ n. some canceled;
  commit_error = none;
  ticked = false;
  done = true;
}

abbrev pub turns : List Turn
turns = fetches 0 event_bytes ∷ fetches 1 second_bytes ∷ fetches 2 event_bytes ∷ cancels ∷ []

abbrev idle : Consumer memory_store
idle = record { events = []; msgs = []; committed = []; sink = sink }

run_consumer-Holds_example :
    Holds memory_store
      (atomic_tracks memory_store memory_store-IsAtomic (memory_store-IsAtomic.stored new_memory))
      settings
      (fetched_all turns)
      (run_consumer memory_store settings default_topic turns sink)
run_consumer-Holds_example =
    run_consumer-Holds memory_store memory_store-IsAtomic settings
      (memory_store-IsAtomic.stored new_memory) default_topic turns sink refl

run-InBounds_example : InBounds memory_store settings (run memory_store settings turns idle)
run-InBounds_example = run-InBounds memory_store settings (omega arith) turns idle (omega arith)

-- A batch of one event waits when the context is cancelled.
abbrev waiting : Consumer memory_store
waiting = record idle { events = event ∷ [] }

is_canceled-canceled : is_canceled canceled ≡ true
unfolding is_canceled root
is_canceled-canceled = refl

step-canceled_example :
    (step memory_store settings cancels waiting
      ≡ stopped
          (some (given_up memory_store memory_store-ChecksContext settings canceled))
          (unwritten memory_store memory_store-ChecksContext settings waiting))
    × (is_canceled (given_up memory_store memory_store-ChecksContext settings canceled) ≡ true)
step-canceled_example =
    step-canceled memory_store memory_store-ChecksContext settings cancels waiting canceled event []
      refl is_canceled-canceled refl (λ n. refl)

-- The first two attempts find a context that is done.
abbrev twice_late : ℕ → Ctx
twice_late n = if leb n 2 then some deadline_exceeded else none

flush-none_iff_example :
    ((Batch.flush memory_store settings twice_late (event ∷ []) sink).0 ≡ none)
    ↔ ((n : ℕ) × (n ≤ 2) × (attempt memory_store twice_late (event ∷ []) n 1 new_memory ≡ none))
flush-none_iff_example = flush-none_iff memory_store settings twice_late event [] sink
