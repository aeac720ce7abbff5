-- ===== src/Writer/Consumer/Messages.antt =====
-- The events that the messages of the broker carry.
use mathlib.Core.List.{map-append}
use apexio.Base.{◌≡◌, refl, List, [], ◌∷◌, ◌++◌, map, sym, ◌∙◌, ap, ok, err, arith}
use apexio.Base.Text.{Unicode}
use apexio.Schema.Event.{LogEvent}
use apexio.Schema.Wire.{Codec, unmarshal_event}
use apexio.Writer.Consumer.{KafkaMessage}

module _ ⦃u : Unicode⦄ ⦃d : Codec⦄ where
  -- The events of the messages that can be read.
  unfoldable pub events_of : List KafkaMessage → List LogEvent
  events_of [] = []
  events_of (m ∷ ms) =
      let rest = events_of ms in elim (unmarshal_event m.value) [ ok ev ↦ ev ∷ rest | err x ↦ rest ]

  pub events_of-append :
      (ms ns : List KafkaMessage) → events_of (ms ++ ns) ≡ events_of ms ++ events_of ns
  unfolding events_of
  events_of-append [] ns = refl
  events_of-append (m ∷ ms) ns = ground (arith, events_of-append ms ns)

  pub events_of-one :
      (m : KafkaMessage) {ev : LogEvent}
      → unmarshal_event m.value ≡ ok ev
      → events_of (m ∷ []) ≡ ev ∷ []
  unfolding events_of
  events_of-one m e = rw (e, events_of)

  pub events_of-nil : events_of [] ≡ []
  unfolding events_of
  events_of-nil = refl

  -- Every message can be read.
  abbrev pub AllRead : List KafkaMessage → Type 0
  AllRead ms = map (λ m. unmarshal_event m.value) ms ≡ map ok (events_of ms)

  pub nil-AllRead : AllRead []
  unfolding events_of
  nil-AllRead = refl

  pub append-AllRead :
      (ms : List KafkaMessage) (m : KafkaMessage) {ev : LogEvent}
      → unmarshal_event m.value ≡ ok ev
      → AllRead ms
      → AllRead (ms ++ m ∷ [])
  append-AllRead ms m {ev} read h =
      map-append _ ms (m ∷ [])
      ∙ (ap (λ l. l ++ unmarshal_event m.value ∷ []) h
          ∙ (ap (λ r. map ok (events_of ms) ++ r ∷ []) read
              ∙ (sym (map-append ok (events_of ms) (ev ∷ []))
                  ∙ ap (map ok) (
                      ap (λ l. events_of ms ++ l) (sym (events_of-one m read))
                      ∙ sym (events_of-append ms (m ∷ []))))))
