-- ===== src/Tests/Subscribe.antt =====
-- `Subscribe` of pkg/broker/redpanda.go on one topic.
use apexio.Base.{◌≡◌, refl, none, some, [], ◌∷◌, true, false, ok}
use apexio.Errors.{library, is_canceled, root}
use apexio.Schema.Event.{default_topic}
use apexio.Broker.Redpanda.Subscribe.{
  Fanin, working, finished, selecting, waiting, returned, start, report, AllFinished, Reaches, here,
  next, worker_returns, take_error, waited,
}
use apexio.Broker.Redpanda.Subscribe.Returns.{IsCause, Failed, Reaches-returned, Reaches-lost_error}
use apexio.Tests.Kafka.{producer}

abbrev begun : Fanin
begun = record {
  parent = none;
  canceled = false;
  workers = working ∷ [];
  errors = [];
  place = selecting;
}

abbrev failed : Fanin
failed = record {
  parent = none;
  canceled = true;
  workers = finished (some (library 1)) ∷ [];
  errors = [];
  place = waiting (some (library 1));
}

abbrev ended : Fanin
ended = record failed { place = returned (some (library 1)) }

start-producer : start none (default_topic ∷ []) true producer ≡ ok begun
unfolding start
start-producer = refl

-- The consumer fails, its error is taken, and it is waited for.
Reaches-ended : Reaches begun ended
unfolding report is_canceled root
Reaches-ended =
    next
      (next (next here (worker_returns [] [] (some (library 1)) refl))
        (take_error (library 1) [] refl refl))
      (waited (some (library 1)) refl tt)

Reaches-returned_example : IsCause ended (some (library 1)) × AllFinished ended.workers
Reaches-returned_example =
    Reaches-returned none (default_topic ∷ []) true producer (some (library 1)) start-producer
      Reaches-ended refl

Reaches-lost_error_example :
    (s : Fanin) × (t : Fanin) × (start none (default_topic ∷ []) true producer ≡ ok s)
    × Reaches s t
    × (t.place ≡ returned none)
    × Failed (library 1) t.workers
Reaches-lost_error_example = Reaches-lost_error default_topic producer (library 1) refl
