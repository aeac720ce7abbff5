-- ===== src/Broker/Memory/Interleaved/Exact.antt =====
-- No interleaving loses or repeats a delivery.
use mathlib.Core.List.{Perm}
use mathlib.Core.List.Perm
use mathlib.Core.Path.{subst}
use apexio.Base.{ℕ, ◌≡◌, refl, sym, ◌∙◌, ap, List, [], ◌∷◌, ◌++◌, append-nil, append_assoc, All}
use apexio.Base.Text.{Text}
use apexio.Base.Dict.{lookup}
use apexio.Broker.Interface.{Message, Handler}
use apexio.Broker.Memory.{Memory, new_memory, slice_at, register, close}
use apexio.Broker.Memory.Interleaved.{
  Delivery, System, called, each_to, lock_publish, lock_subscribe, Step, publishes, subscribes,
  handles, fails, closes, Reaches, here, next,
}
use apexio.Broker.Memory.Interleaved.Lists.{concat, concat-append, moved, moved_with}
use apexio.Broker.Memory.Interleaved.Pairs.{if_topic, on_topic, all_pairs}
use apexio.Broker.Memory.Interleaved.Due.{
  on_topic-nil, on_topic-append, register-due, register-topics, publish-due, publish-tagged,
}

module _ (W : Type 0) where
  -- All deliveries of a system: made, left out and to be made.
  abbrev pub everything : System W → List (Delivery W)
  everything s = s.delivered ++ (s.dropped ++ concat s.calls)

  -- Each message of the broker stands under its own topic; and for every topic, what was delivered,
  -- left out or is to be delivered is each handler of the topic with each of its messages, once.
  pub record Exact (s : System W) : Type 0 where
    pub tagged :
        (topic : Text) → All (λ (m : Message). m.topic ≡ topic) (slice_at topic s.memory.topics)
    pub due :
        (topic : Text)
        → Perm
            (on_topic W topic (everything s))
            (all_pairs W (slice_at topic s.memory.handlers) (slice_at topic s.memory.topics))

  everything-called :
      (s : System W) (m : Memory W) (ds : List (Delivery W))
      → everything (called W m ds s) ≡ everything s ++ ds
  everything-called s m ds =
      ap (λ l. s.delivered ++ (s.dropped ++ l))
        (concat-append s.calls (ds ∷ []) ∙ ap (λ l. concat s.calls ++ l) (append-nil ds))
      ∙ (ap (λ l. s.delivered ++ l) (sym (append_assoc s.dropped (concat s.calls) ds))
          ∙ sym (append_assoc s.delivered (s.dropped ++ concat s.calls) ds))

  -- A call that leaves the lock with deliveries that are due.
  called-Exact :
      (s : System W) (m : Memory W) (ds : List (Delivery W))
      → ((j : Text) → All (λ (n : Message). n.topic ≡ j) (slice_at j m.topics))
      → ((j : Text)
          → Perm
              (on_topic W j (everything s) ++ on_topic W j ds)
              (all_pairs W (slice_at j m.handlers) (slice_at j m.topics)))
      → Exact (called W m ds s)
  called-Exact s m ds tagged due = record {
    tagged = tagged;
    due = λ j.
        subst (λ l. Perm l (all_pairs W (slice_at j m.handlers) (slice_at j m.topics)))
          (sym
            (ap (on_topic W j) (everything-called s m ds) ∙ on_topic-append W j (everything s) ds))
          (due j);
  }

  lock_publish-Exact :
      (topic : Text) (payload : List ℕ) (s : System W)
      → Exact s
      → Exact (lock_publish W topic payload s)
  unfolding lock_publish
  lock_publish-Exact topic payload s v =
      called-Exact s _ _ (λ j. publish-tagged W topic j _ s.memory refl v.tagged)
        (λ j. publish-due W topic j payload s.memory (on_topic W j (everything s)) (v.due j))

  lock_subscribe-Exact :
      (topics : List Text) (h : Handler W) (s : System W)
      → Exact s
      → Exact (lock_subscribe W topics h s)
  unfolding lock_subscribe
  lock_subscribe-Exact topics h s v =
      called-Exact s (register W topics h s.memory []).0
        (each_to W h (register W topics h s.memory []).1)
        (λ j. rw (register-topics W topics h s.memory []) (v.tagged j))
        (λ j. rw (register-topics W topics h s.memory []) (
          register-due W j topics h s.memory [] (on_topic W j (everything s)) v.tagged
            (rw (on_topic-nil W j, append-nil (on_topic W j (everything s))) (v.due j))))

  same-Exact :
      (s t : System W)
      → t.memory.topics ≡ s.memory.topics
      → t.memory.handlers ≡ s.memory.handlers
      → Perm (everything t) (everything s)
      → Exact s
      → Exact t
  same-Exact s t topics handlers perm v = record {
    tagged = λ j. rw topics (v.tagged j);
    due = λ j. rw (topics, handlers) (Perm.trans (Perm.filter_map (if_topic W j) perm) (v.due j));
  }

  Exact-Step : {s t : System W} → Exact s → Step W s t → Exact t
  unfolding close
  Exact-Step v (publishes {s} topic payload is_open) = lock_publish-Exact topic payload s v
  Exact-Step v (subscribes {s} topics h is_open) = lock_subscribe-Exact topics h s v
  Exact-Step v (handles {s} before after d rest ctx same done) =
      same-Exact s _ refl refl
        (rw (same, concat-append before ((d ∷ rest) ∷ after), concat-append before (rest ∷ after))
          (moved s.delivered s.dropped (concat before) (rest ++ concat after) d))
        v
  Exact-Step v (fails {s} before after d rest ctx x same failed) =
      same-Exact s _ refl refl
        (rw (same, concat-append before ((d ∷ rest) ∷ after), concat-append before ([] ∷ after))
          (moved_with s.delivered s.dropped (concat before) rest (concat after) d))
        v
  Exact-Step v (closes {s}) = same-Exact s _ refl refl Perm.rfl v

  Exact-Reaches : {s t : System W} → Exact s → Reaches W s t → Exact t
  Exact-Reaches v here = v
  Exact-Reaches v (next path st) = Exact-Step (Exact-Reaches v path) st

  -- A broker at its start, in any world.
  abbrev pub new_system : W → System W
  new_system w = record {
    memory = new_memory W;
    world = w;
    calls = [];
    delivered = [];
    dropped = [];
  }

  new_system-Exact : (w : W) → Exact (new_system w)
  unfolding slice_at lookup
  new_system-Exact w = record { tagged = λ j. tt; due = λ j. rw (on_topic-nil W j) Perm.rfl }

  -- From an empty broker, at every point of every interleaving of the calls, and for each topic:
  -- the calls of handlers that were made, that were left out behind an error and that are still to
  -- be made are, taken together, each registered handler with each message of the topic, once,
  -- whether the message came before the handler or after it.
  pub everything-all_pairs :
      (w : W) (s : System W) (topic : Text)
      → Reaches W (new_system w) s
      → Perm
          (on_topic W topic (everything s))
          (all_pairs W (slice_at topic s.memory.handlers) (slice_at topic s.memory.topics))
  everything-all_pairs w s topic path = (Exact-Reaches (new_system-Exact w) path).due topic

  -- Once every call has run all its handlers and none has given an error, each handler was called
  -- with each message of its topics, exactly once.
  pub delivered-all_pairs :
      (w : W) (s : System W) (topic : Text)
      → Reaches W (new_system w) s
      → concat s.calls ≡ []
      → s.dropped ≡ []
      → Perm
          (on_topic W topic s.delivered)
          (all_pairs W (slice_at topic s.memory.handlers) (slice_at topic s.memory.topics))
  delivered-all_pairs w s topic path quiet none_failed =
      subst
        (λ l.
          Perm (on_topic W topic l)
            (all_pairs W (slice_at topic s.memory.handlers) (slice_at topic s.memory.topics)))
        (ap (λ l. s.delivered ++ (l ++ concat s.calls)) none_failed
          ∙ (ap (λ l. s.delivered ++ l) quiet ∙ append-nil s.delivered))
        (everything-all_pairs w s topic path)
