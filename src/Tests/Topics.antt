-- ===== src/Tests/Topics.antt =====
-- Two topics of one subscription, whose goroutines take turns.
use apexio.Base.{◌≡◌, map, refl, none, some, List, [], ◌∷◌, ◌++◌, ok}
use apexio.Base.Text.{Text, codes}
use apexio.Errors.{library}
use apexio.Broker.Interface.{Message, Handler}
use apexio.Broker.Redpanda.{Delivery, consume_step, handle_message}
use apexio.Broker.Redpanda.Topics.{
  Reading, Readings, takes_turn, Reaches, here, next, advance, session_of, turn, message_of,
}
use apexio.Broker.Redpanda.Topics.Sound.{Sound, fresh, subscribed, Reaches-Sound}

-- A handler that keeps the messages it is given.
abbrev keep : Handler (List Message)
keep ctx msg w = (none, w ++ msg ∷ [])

abbrev message : Text → Message
message topic = record { topic = topic; key = []; value = 1 ∷ [] }

abbrev delivery : Text → Delivery
delivery topic = record { fetched = ok (message topic); ctx_error = none; commit_error = none }

-- A message that is handled, and whose commit fails.
abbrev uncommitted : Delivery
uncommitted = record (delivery (codes "a")) { commit_error = some (library 1) }

abbrev begin : Readings (List Message)
begin = subscribed keep (codes "a" ∷ codes "b" ∷ []) []

abbrev behind :
    List Reading
    → Reading
    → List Reading
    → Delivery
    → Readings (List Message)
    → Readings (List Message)
behind before r after d s = record {
  world = (session_of keep (turn keep r d s.world)).world;
  calls = s.calls ++ message_of keep d.fetched;
  readings = before ++ advance keep r d s.world ∷ after;
}

abbrev a : Reading
a = fresh keep (codes "a")

abbrev b : Reading
b = fresh keep (codes "b")

-- The second topic takes the first turn.
abbrev first : Readings (List Message)
first = behind (a ∷ []) b [] (delivery (codes "b")) begin

abbrev second : Readings (List Message)
second = behind [] a (advance keep b (delivery (codes "b")) [] ∷ []) uncommitted first

path : Reaches keep begin second
path =
    next (next here (takes_turn (a ∷ []) [] b (delivery (codes "b")) refl refl))
      (takes_turn [] (advance keep b (delivery (codes "b")) [] ∷ []) a uncommitted refl refl)

committed-second :
    map (λ (r : Reading). r.committed) second.readings ≡ [] ∷ (message (codes "b") ∷ []) ∷ []
unfolding consume_step handle_message
committed-second = refl

Reaches-Sound_example : Sound keep [] second
Reaches-Sound_example = Reaches-Sound keep (codes "a" ∷ codes "b" ∷ []) [] second path
