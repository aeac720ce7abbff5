-- ===== src/Tests/Interleaved.antt =====
-- A subscription that comes between a publication and the call of its first handler.
use mathlib.Core.List.{Perm}
use apexio.Base.{false, refl, none, List, [], ◌∷◌, ◌++◌}
use apexio.Base.Text.{Text, codes, text_eq}
use apexio.Base.Dict.{lookup, insert}
use apexio.Broker.Interface.{Message, Handler}
use apexio.Broker.Memory.{slice_at, append_at, register}
use apexio.Broker.Memory.Interleaved.{
  Delivery, System, lock_publish, lock_subscribe, Reaches, publishes, subscribes, handles, here,
  next,
}
use apexio.Broker.Memory.Interleaved.Exact.{new_system, everything, everything-all_pairs}
use apexio.Broker.Memory.Interleaved.Pairs.{on_topic, all_pairs}

abbrev Seen : Type 0
Seen = List Message

abbrev keeps : Handler Seen
keeps ctx msg seen = (none, seen ++ msg ∷ [])

abbrev logs : Text
logs = codes "logs"

abbrev one : Message
one = record { topic = logs; key = []; value = 1 ∷ [] }

abbrev to_one : Delivery Seen
to_one = record { handler = keeps; msg = one }

abbrev late : System Seen
late = record {
  memory = record {
    closed = false;
    topics = (logs, one ∷ []) ∷ [];
    handlers = (logs, keeps ∷ keeps ∷ []) ∷ [];
  };
  world = one ∷ [];
  calls = [] ∷ (to_one ∷ []) ∷ [] ∷ [];
  delivered = to_one ∷ [];
  dropped = [];
}

-- The first handler subscribes, a message is published, a second handler subscribes, and it is the
-- first to be called.
late-Reaches : Reaches Seen (new_system Seen []) late
unfolding lock_publish lock_subscribe register slice_at append_at lookup insert text_eq
late-Reaches =
    next
      (next (next (next here (subscribes (logs ∷ []) keeps refl)) (publishes logs (1 ∷ []) refl))
        (subscribes (logs ∷ []) keeps refl))
      (handles ([] ∷ (to_one ∷ []) ∷ []) [] to_one [] none refl refl)

everything-all_pairs_example :
    Perm
      (on_topic Seen logs (everything Seen late))
      (all_pairs Seen (slice_at logs late.memory.handlers) (slice_at logs late.memory.topics))
everything-all_pairs_example = everything-all_pairs Seen [] late logs late-Reaches
