-- ===== src/Broker/Memory/Interleaved/Pairs.antt =====
-- Handlers paired with the messages of their topic.
use mathlib.Core.List.{
  filter_map, filter_map-cons-some, filter_map-cons-none, map-append, perm_middle,
}
use mathlib.Core.List.{Perm}
use mathlib.Core.List.Perm
use mathlib.Core.Path.{subst}
use apexio.Base.{
  ◌≡◌, refl, sym, ◌∙◌, ap, inl, inr, Bool-cases, Option, none, some, List, [], ◌∷◌, ◌++◌,
  append-nil, append_assoc, All, arith, if◌then◌else◌,
}
use apexio.Base.Text.{Text, text_eq}
use apexio.Broker.Interface.{Message, Handler}
use apexio.Broker.Memory.Interleaved.{Delivery, to_each, each_to}

module _ (W : Type 0) where
  -- The deliveries of the messages of one topic.
  abbrev pub if_topic : Text → Delivery W → Option (Delivery W)
  if_topic topic d = if text_eq d.msg.topic topic then some d else none

  abbrev pub on_topic : Text → List (Delivery W) → List (Delivery W)
  on_topic topic ds = filter_map (if_topic topic) ds

  -- Each handler with each message.
  abbrev pub all_pairs : List (Handler W) → List Message → List (Delivery W)
  all_pairs [] msgs = []
  all_pairs (h ∷ hs) msgs = each_to W h msgs ++ all_pairs hs msgs

  pub all_pairs-append :
      (hs : List (Handler W)) (h : Handler W) (msgs : List Message)
      → all_pairs (hs ++ h ∷ []) msgs ≡ all_pairs hs msgs ++ each_to W h msgs
  all_pairs-append [] h msgs = append-nil (each_to W h msgs)
  all_pairs-append (k ∷ hs) h msgs =
      ap (λ l. each_to W k msgs ++ l) (all_pairs-append hs h msgs)
      ∙ sym (append_assoc (each_to W k msgs) (all_pairs hs msgs) (each_to W h msgs))

  pub all_pairs-append_perm :
      (hs : List (Handler W)) (msgs : List Message) (msg : Message)
      → Perm (all_pairs hs msgs ++ to_each W hs msg) (all_pairs hs (msgs ++ msg ∷ []))
  all_pairs-append_perm [] msgs msg = Perm.rfl
  all_pairs-append_perm (h ∷ hs) msgs msg =
      let x : Delivery W = record { handler = h; msg = msg } in
      subst (λ l. Perm l (all_pairs (h ∷ hs) (msgs ++ msg ∷ [])))
        (sym (append_assoc (each_to W h msgs) (all_pairs hs msgs) (x ∷ to_each W hs msg)))
        (subst (Perm (each_to W h msgs ++ (all_pairs hs msgs ++ x ∷ to_each W hs msg)))
          (sym (append_assoc (each_to W h msgs) (x ∷ []) (all_pairs hs (msgs ++ msg ∷ [])))
            ∙ ap (λ l. l ++ all_pairs hs (msgs ++ msg ∷ [])) (sym (map-append _ msgs (msg ∷ []))))
          (Perm.append_left (each_to W h msgs) (
            Perm.trans (perm_middle (all_pairs hs msgs) (to_each W hs msg))
              (Perm.cons x (all_pairs-append_perm hs msgs msg)))))

  pub on_topic-same :
      (topic j : Text) (ds : List (Delivery W))
      → All (λ (d : Delivery W). d.msg.topic ≡ topic) ds
      → on_topic j ds ≡ (if text_eq topic j then ds else [])
  unfolding filter_map
  on_topic-same topic j [] same = ground arith
  on_topic-same topic j (d ∷ ds) (same, rest) = elim (Bool-cases (text_eq topic j)) [
    | inl equal ↦ rw equal (
        filter_map-cons-some (if_topic j) d ds (rw (same, equal) refl)
        ∙ ap (λ l. d ∷ l) (on_topic-same topic j ds rest ∙ rw equal refl))
    | inr other ↦ rw other (
        filter_map-cons-none (if_topic j) d ds (rw (same, other) refl)
        ∙ (on_topic-same topic j ds rest ∙ rw other refl))
  ]

  pub to_each-same :
      (hs : List (Handler W)) (msg : Message) {topic : Text}
      → msg.topic ≡ topic
      → All (λ (d : Delivery W). d.msg.topic ≡ topic) (to_each W hs msg)
  to_each-same [] msg same = tt
  to_each-same (h ∷ hs) msg same = (same, to_each-same hs msg same)

  pub each_to-same :
      (h : Handler W) (msgs : List Message) (topic : Text)
      → All (λ (m : Message). m.topic ≡ topic) msgs
      → All (λ (d : Delivery W). d.msg.topic ≡ topic) (each_to W h msgs)
  each_to-same h [] topic same = tt
  each_to-same h (m ∷ msgs) topic (same, rest) = (same, each_to-same h msgs topic rest)
