-- ===== src/Broker/Redpanda/Subscribe.antt =====
-- pkg/broker/redpanda.go, `Subscribe`: one goroutine per topic and the `select` that waits for them,
-- as a step relation. What a goroutine's `consumeTopic` does on its way is in Broker/Redpanda; here
-- it returns at any time, with any result.
pub mod Returns
use apexio.Base.{
  ◌≡◌, Bool, true, false, Option, none, some, List, [], ◌∷◌, ◌++◌, Result, ok, err, if◌then◌else◌,
}
use apexio.Base.Text.{Text, is_empty}
use apexio.Errors.{Err, Ctx, is_canceled, broker_closed, topics_required, handler_nil}
use apexio.Broker.Redpanda.{KafkaWriter, Redpanda}

-- A goroutine, and where `Subscribe` itself stands: in its `select`, at `<-done` with the result it
-- will return, or returned.
pub data Worker : Type 0 where
  working : Worker
  finished : Option Err → Worker

pub data Place : Type 0 where
  selecting : Place
  waiting : Option Err → Place
  returned : Option Err → Place

-- `parent` is `ctx.Err()`, `canceled` whether `subCtx` is done, and `errors` what `errCh` holds.
pub record Fanin : Type 0 where
  pub parent : Ctx
  pub canceled : Bool
  pub workers : List Worker
  pub errors : List Err
  pub place : Place

abbrev workers_of : List Text → List Worker
workers_of [] = []
workers_of (topic ∷ topics) = working ∷ workers_of topics

-- `Subscribe` up to its `select`. `has_handler` is false for a nil handler.
unfoldable pub start : {K : KafkaWriter} → Ctx → List Text → Bool → Redpanda K → Result Err Fanin
start (some x) topics has_handler r = err x
start none topics has_handler r =
    if r.closed
    then err broker_closed
    else if is_empty topics
    then err topics_required
    else if has_handler
    then ok (record {
      parent = none;
      canceled = false;
      workers = workers_of topics;
      errors = [];
      place = selecting;
    })
    else err handler_nil

-- What a goroutine does with the result of `consumeTopic`.
unfoldable pub report : Option Err → Fanin → Fanin
report none s = s
report (some x) s =
    if is_canceled x then s else record s { errors = s.errors ++ x ∷ []; canceled = true }

-- `done` is closed once every goroutine has finished.
abbrev pub AllFinished : List Worker → Type 0
AllFinished [] = Unit
AllFinished (working ∷ ws) = ⊥
AllFinished (finished e ∷ ws) = AllFinished ws

-- The context is done; a goroutine finishes; one of the three cases of the `select` is taken, where
-- Go takes any that is ready; or the wait for `done` is over.
pub data Step : Fanin → Fanin → Type 0 where
  parent_done :
      {s : Fanin} (x : Err)
      → s.parent ≡ none
      → Step s (record s { parent = some x; canceled = true })
  worker_returns :
      {s : Fanin} (before after : List Worker) (e : Option Err)
      → s.workers ≡ before ++ working ∷ after
      → Step s (report e (record s { workers = before ++ finished e ∷ after }))
  take_ctx :
      {s : Fanin} (x : Err)
      → s.place ≡ selecting
      → s.parent ≡ some x
      → Step s (record s { place = waiting (some x); canceled = true })
  take_error :
      {s : Fanin} (x : Err) (rest : List Err)
      → s.place ≡ selecting
      → s.errors ≡ x ∷ rest
      → Step s (record s { place = waiting (some x); errors = rest; canceled = true })
  take_done :
      {s : Fanin}
      → s.place ≡ selecting
      → AllFinished s.workers
      → Step s (record s { place = returned none; canceled = true })
  waited :
      {s : Fanin} (e : Option Err)
      → s.place ≡ waiting e
      → AllFinished s.workers
      → Step s (record s { place = returned e })

pub data Reaches : Fanin → Fanin → Type 0 where
  here : {s : Fanin} → Reaches s s
  next : {s t v : Fanin} → Reaches s t → Step t v → Reaches s v
