-- ===== src/Broker/Memory/Interleaved/Sequential.antt =====
-- `Publish` and `Subscribe` of pkg/broker/memory.go, run alone, are runs of the steps.
use mathlib.Core.Path.{subst}
use apexio.Base.{
  ℕ, ◌≡◌, refl, sym, ◌∙◌, ap, inl, inr, false, Option, Option-cases, none, some, List, [], ◌∷◌,
  ◌++◌, if◌then◌else◌,
}
use apexio.Base.Text.{Text}
use apexio.Errors.{Err, Ctx, broker_closed}
use apexio.Broker.Interface.{Message, Handler}
use apexio.Broker.Memory.{
  Memory, slice_at, deliver, replay_all, publish_payload, subscribe, register,
}
use apexio.Broker.Memory.Interleaved.{
  Delivery, System, to_each, each_to, handle, lock_publish, lock_subscribe, publishes, subscribes,
  handles, fails, Reaches, here, next,
}

module _ (W : Type 0) where
  -- The deliveries of a call in turn, up to the first error.
  run_call : List (Delivery W) → Ctx → W → Option Err × W
  run_call [] ctx w = (none, w)
  run_call (d ∷ ds) ctx w =
      let (e, w') = handle W d ctx w in elim e [ some x ↦ (some x, w') | none ↦ run_call ds ctx w' ]

  deliver-run_call :
      (hs : List (Handler W)) (ctx : Ctx) (msg : Message) (w : W)
      → deliver W hs ctx msg w ≡ run_call (to_each W hs msg) ctx w
  unfolding deliver run_call
  deliver-run_call [] ctx msg w = refl
  deliver-run_call (h ∷ hs) ctx msg w = elim (Option-cases (h ctx msg w).0) [
    | inl done ↦ rw (done, deliver, run_call) (deliver-run_call hs ctx msg (h ctx msg w).1)
    | inr (x, failed) ↦ rw (failed, deliver, run_call) refl
  ]

  replay_all-run_call :
      (h : Handler W) (ctx : Ctx) (msgs : List Message) (w : W)
      → replay_all W h ctx msgs w ≡ run_call (each_to W h msgs) ctx w
  unfolding replay_all run_call
  replay_all-run_call h ctx [] w = refl
  replay_all-run_call h ctx (msg ∷ msgs) w = elim (Option-cases (h ctx msg w).0) [
    | inl done ↦ rw (done, replay_all, run_call) (replay_all-run_call h ctx msgs (h ctx msg w).1)
    | inr (x, failed) ↦ rw (failed, replay_all, run_call) refl
  ]

  -- From `s` the system reaches one with that broker and that world.
  abbrev pub Ends : System W → Memory W → W → Type 0
  Ends s m w = (t : System W) × Reaches W s t × (t.memory ≡ m) × (t.world ≡ w)

  run_call-Ends :
      (before : List (List (Delivery W))) (ds : List (Delivery W)) (ctx : Ctx) (r s : System W)
      → Reaches W r s
      → s.calls ≡ before ++ ds ∷ []
      → Ends r s.memory (run_call ds ctx s.world).1
  unfolding run_call
  run_call-Ends before [] ctx r s path same = (s, path, refl, refl)
  run_call-Ends before (d ∷ ds) ctx r s path same = elim (Option-cases (handle W d ctx s.world).0) [
    | inl done ↦
        rw (done, run_call)
          (run_call-Ends before ds ctx r _ (next path (handles before [] d ds ctx same done)) refl)
    | inr (x, failed) ↦
        rw (failed, run_call) (_, next path (fails before [] d ds ctx x same failed), refl, refl)
  ]

  -- `Publish` of an open broker, run without another call between its steps, leaves the broker and
  -- the world that the steps of its call lead to.
  pub publish_payload-Ends :
      (ctx : Ctx) (topic : Text) (payload : List ℕ) (s : System W)
      → s.memory.closed ≡ false
      → let (_, m, w) = publish_payload W ctx topic payload s.memory s.world in Ends s m w
  unfolding publish_payload lock_publish
  publish_payload-Ends ctx topic payload s is_open =
      rw
        (deliver-run_call (slice_at topic s.memory.handlers) ctx
          (record { topic = topic; key = []; value = payload }) s.world)
        (run_call-Ends s.calls _ ctx s (lock_publish W topic payload s)
          (next here (publishes topic payload is_open)) refl)

  -- So does `Subscribe`.
  pub subscribe-Ends :
      (topics : List Text) (h : Handler W) (s : System W)
      → s.memory.closed ≡ false
      → let (_, m, w) = subscribe W none topics (some h) s.memory s.world in Ends s m w
  unfolding subscribe lock_subscribe
  subscribe-Ends topics h s is_open =
      subst (λ (r : Option Err × Memory W × W). Ends s r.1 r.2)
        (sym (
          ap
            (λ b. if b then (some broker_closed, s.memory, s.world) else (
              (replay_all W h none (register W topics h s.memory []).1 s.world).0,
              (register W topics h s.memory []).0,
              (replay_all W h none (register W topics h s.memory []).1 s.world).1,
            ))
            is_open
          ∙ ap (λ (r : Option Err × W). (r.0, (register W topics h s.memory []).0, r.1))
              (replay_all-run_call h none (register W topics h s.memory []).1 s.world)))
        (run_call-Ends s.calls _ none s (lock_subscribe W topics h s)
          (next here (subscribes topics h is_open)) refl)
