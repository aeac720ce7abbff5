-- ===== src/Broker/Memory/Interleaved/Due.antt =====
-- What a call under the lock of pkg/broker/memory.go makes due, topic by topic.
use mathlib.Core.List.{filter_map, filter_map-append, map-append}
use mathlib.Core.List.{Perm}
use mathlib.Core.List.Perm
use mathlib.Core.Path.{subst}
use apexio.Base.{
  All-append_one, ℕ, ◌≡◌, refl, sym, ◌∙◌, ap, Bool, true, false, List, [], ◌∷◌, ◌++◌, append-nil,
  append_assoc, All, if◌then◌else◌,
}
use apexio.Base.Text.{Text, text_eq, text_eq_iff}
use apexio.Broker.Interface.{Message, Handler}
use apexio.Broker.Memory.{Memory, slice_at, append_at, register}
use apexio.Broker.Memory.Delivery.{slice_at-append_at}
use apexio.Broker.Memory.Interleaved.{Delivery, to_each, each_to}
use apexio.Broker.Memory.Interleaved.Pairs.{
  if_topic, on_topic, all_pairs, all_pairs-append, all_pairs-append_perm, on_topic-same,
  to_each-same, each_to-same,
}

module _ (W : Type 0) where
  pub on_topic-nil : (j : Text) → on_topic W j [] ≡ []
  unfolding filter_map
  on_topic-nil j = refl

  pub on_topic-append :
      (j : Text) (ds es : List (Delivery W))
      → on_topic W j (ds ++ es) ≡ on_topic W j ds ++ on_topic W j es
  on_topic-append j ds es = filter_map-append (if_topic W j) ds es

  pub register-due :
      (j : Text) (topics : List Text) (h : Handler W) (m : Memory W) (replay : List Message)
      (base : List (Delivery W))
      → ((topic : Text) → All (λ (n : Message). n.topic ≡ topic) (slice_at topic m.topics))
      → Perm
          (base ++ on_topic W j (each_to W h replay))
          (all_pairs W (slice_at j m.handlers) (slice_at j m.topics))
      → Perm
          (base ++ on_topic W j (each_to W h (register W topics h m replay).1))
          (all_pairs W (slice_at j (register W topics h m replay).0.handlers) (slice_at j m.topics))
  unfolding register
  register-due j [] h m replay base tagged due = due
  register-due j (topic ∷ topics) h m replay base tagged due =
      register-due j topics h (record m { handlers = append_at topic h m.handlers })
        (replay ++ slice_at topic m.topics) base tagged
        (rw (slice_at-append_at topic j h m.handlers) (
          subst
            (λ l. Perm (base ++ l) (
              all_pairs W
                (if text_eq topic j
                  then slice_at topic m.handlers ++ h ∷ []
                  else slice_at j m.handlers)
                (slice_at j m.topics)))
            (sym (
              ap (on_topic W j) (map-append _ replay (slice_at topic m.topics))
              ∙ (on_topic-append j (each_to W h replay) (each_to W h (slice_at topic m.topics))
                  ∙ ap (λ l. on_topic W j (each_to W h replay) ++ l)
                      (on_topic-same W topic j (each_to W h (slice_at topic m.topics))
                        (each_to-same W h (slice_at topic m.topics) topic (tagged topic))))))
            (go (text_eq topic j) (λ equal. (text_eq_iff topic j).0 equal))))
    where
      go :
          (b : Bool)
          → (b ≡ true → topic ≡ j)
          → Perm
              (base
                ++ (on_topic W j (each_to W h replay)
                    ++ (if b then each_to W h (slice_at topic m.topics) else [])))
              (all_pairs W
                (if b then slice_at topic m.handlers ++ h ∷ [] else slice_at j m.handlers)
                (slice_at j m.topics))
      go true same =
          subst
            (λ k.
              Perm
                (base ++ (on_topic W j (each_to W h replay) ++ each_to W h (slice_at k m.topics)))
                (all_pairs W (slice_at k m.handlers ++ h ∷ []) (slice_at j m.topics)))
            (sym (same refl))
            (subst
              (λ l. Perm l (all_pairs W (slice_at j m.handlers ++ h ∷ []) (slice_at j m.topics)))
              (append_assoc base (on_topic W j (each_to W h replay))
                (each_to W h (slice_at j m.topics)))
              (subst
                (Perm (
                  (base ++ on_topic W j (each_to W h replay)) ++ each_to W h (slice_at j m.topics)))
                (sym (all_pairs-append W (slice_at j m.handlers) h (slice_at j m.topics)))
                (Perm.append_right (each_to W h (slice_at j m.topics)) due)))
      go false same = rw (append-nil (on_topic W j (each_to W h replay))) due

  pub register-topics :
      (topics : List Text) (h : Handler W) (m : Memory W) (replay : List Message)
      → (register W topics h m replay).0.topics ≡ m.topics
  unfolding register
  register-topics [] h m replay = refl
  register-topics (topic ∷ topics) h m replay = register-topics topics h _ _

  -- The message of a publication joins those of its topic, and is due to each of its handlers.
  pub publish-due :
      (topic j : Text) (payload : List ℕ) (m : Memory W) (base : List (Delivery W))
      → Perm base (all_pairs W (slice_at j m.handlers) (slice_at j m.topics))
      → let msg : Message = record { topic = topic; key = []; value = payload } in
        Perm
          (base ++ on_topic W j (to_each W (slice_at topic m.handlers) msg))
          (all_pairs W (slice_at j m.handlers) (slice_at j (append_at topic msg m.topics)))
  publish-due topic j payload m base due =
      rw
        (
          slice_at-append_at topic j (record { topic = topic; key = []; value = payload }) m.topics,
          on_topic-same W topic j
              (to_each W (slice_at topic m.handlers)
                (record { topic = topic; key = []; value = payload }))
              (to_each-same W (slice_at topic m.handlers)
                (record { topic = topic; key = []; value = payload }) refl),
        )
        (go (record { topic = topic; key = []; value = payload }) (text_eq topic j)
          (λ equal. (text_eq_iff topic j).0 equal))
    where
      go :
          (msg : Message) (b : Bool)
          → (b ≡ true → topic ≡ j)
          → Perm (base ++ (if b then to_each W (slice_at topic m.handlers) msg else [])) (
              all_pairs W
                (slice_at j m.handlers)
                (if b then slice_at topic m.topics ++ msg ∷ [] else slice_at j m.topics))
      go msg true same =
          subst
            (λ k.
              Perm (base ++ to_each W (slice_at k m.handlers) msg)
                (all_pairs W (slice_at j m.handlers) (slice_at k m.topics ++ msg ∷ [])))
            (sym (same refl))
            (Perm.trans (Perm.append_right (to_each W (slice_at j m.handlers) msg) due)
              (all_pairs-append_perm W (slice_at j m.handlers) (slice_at j m.topics) msg))
      go msg false same = rw (append-nil base) due

  pub publish-tagged :
      (topic j : Text) (msg : Message) (m : Memory W)
      → msg.topic ≡ topic
      → ((k : Text) → All (λ (n : Message). n.topic ≡ k) (slice_at k m.topics))
      → All (λ (n : Message). n.topic ≡ j) (slice_at j (append_at topic msg m.topics))
  publish-tagged topic j msg m same tagged =
      rw (slice_at-append_at topic j msg m.topics)
        (go (text_eq topic j) (λ equal. (text_eq_iff topic j).0 equal))
    where
      go :
          (b : Bool)
          → (b ≡ true → topic ≡ j)
          → All
              (λ (n : Message). n.topic ≡ j)
              (if b then slice_at topic m.topics ++ msg ∷ [] else slice_at j m.topics)
      go true equal =
          subst (λ k. All (λ (n : Message). n.topic ≡ k) (slice_at topic m.topics ++ msg ∷ []))
            (equal refl) (All-append_one _ (slice_at topic m.topics) (tagged topic) same)
      go false equal = tagged j
