-- ===== src/Broker/Redpanda/Topics/Sound.antt =====
-- What the goroutines of one subscription have committed, in any interleaving of their turns.
use mathlib.Core.List.{perm_append_comm}
use mathlib.Core.List.{Perm}
use mathlib.Core.List.Perm
use mathlib.Core.Path.{subst}
use apexio.Base.{
  ◌≡◌, refl, sym, ◌∙◌, ap, inl, inr, false, Option, none, some, List, [], ◌∷◌, ◌++◌, append-nil,
  append_assoc, All, Result, ok, err,
}
use apexio.Base.Text.{Text}
use apexio.Errors.{Err}
use apexio.Broker.Interface.{Message, Handler}
use apexio.Broker.Redpanda.{Delivery}
use apexio.Broker.Redpanda.Topics.{
  Reading, Readings, called_with, all_called, message_of, taken, turned_down, answer, advance, ran,
  Kept, Step, takes_turn, Reaches, here, next, turn-KeptTurn,
}

all_called-append : (rs qs : List Reading) → all_called (rs ++ qs) ≡ all_called rs ++ all_called qs
all_called-append [] qs = refl
all_called-append (r ∷ rs) qs =
    ap (λ l. called_with r ++ l) (all_called-append rs qs)
    ∙ sym (append_assoc (called_with r) (all_called rs) (all_called qs))

All-middle :
    (P : Reading → Type 0) (before : List Reading) (r : Reading) (after : List Reading)
    → All P (before ++ r ∷ after)
    → P r
All-middle P [] r after (p, all) = p
All-middle P (q ∷ before) r after (p, all) = All-middle P before r after all

All-replace :
    (P : Reading → Type 0) (before : List Reading) (r q : Reading) (after : List Reading)
    → All P (before ++ r ∷ after)
    → P q
    → All P (before ++ q ∷ after)
All-replace P [] r q after (p, all) pq = (pq, all)
All-replace P (x ∷ before) r q after (p, all) pq = (p, All-replace P before r q after all pq)

-- Elements join a list in the middle of two others.
joined {ℓ} :
    {A : Type ℓ} (before mid after new : List A)
    → Perm ((before ++ (mid ++ after)) ++ new) (before ++ ((mid ++ new) ++ after))
joined before mid after new =
    subst (λ l. Perm l (before ++ ((mid ++ new) ++ after)))
      (sym (append_assoc before (mid ++ after) new))
      (Perm.append_left before (
        subst (λ l. Perm l ((mid ++ new) ++ after)) (sym (append_assoc mid after new))
          (subst (Perm (mid ++ (after ++ new))) (sym (append_assoc mid new after))
            (Perm.append_left mid (perm_append_comm after new)))))

module _ {W : Type 0} (h : Handler W) where
  ran-append : (ms ns : List Message) (w : W) → ran h (ms ++ ns) w ≡ ran h ns (ran h ms w)
  ran-append [] ns w = refl
  ran-append (m ∷ ms) ns w = ran-append ms ns (h none m w).1

  called_with-advance :
      (r : Reading) (d : Delivery) (w : W)
      → r.refused ≡ []
      → called_with (advance h r d w) ≡ called_with r ++ message_of h d.fetched
  called_with-advance r d w quiet = go d.fetched (answer h d.fetched w)
    where
      go :
          (f : Result Err Message) (e : Option Err)
          → (r.handled ++ taken h f e) ++ (r.refused ++ turned_down h f e)
            ≡ (r.handled ++ r.refused) ++ message_of h f
      go (ok msg) none = rw quiet (
          append-nil (r.handled ++ msg ∷ []) ∙ ap (λ l. l ++ msg ∷ []) (sym (append-nil r.handled)))
      go (ok msg) (some x) = rw quiet refl
      go (err x) none = rw quiet refl
      go (err x) (some y) = rw quiet refl

  -- What a goroutine that runs has kept.
  running-Kept :
      (r : Reading) → r.ended ≡ false → Kept h r → (r.committed ≡ r.handled) × (r.refused ≡ [])
  running-Kept r runs (inl same, inl quiet) = (same, quiet)
  running-Kept r runs (inr (over, k), q) = cc
  running-Kept r runs (inl same, inr (over, k)) = cc

  -- From a world at the start: every topic has kept what it should; the world is what the calls of
  -- the handler have made of it, one behind the other; and these are the calls for the messages that
  -- were taken and refused, each once.
  pub record Sound (start : W) (s : Readings W) : Type 0 where
    pub kept : All (Kept h) s.readings
    pub world_ran : s.world ≡ ran h s.calls start
    pub all_calls : Perm s.calls (all_called s.readings)

  Sound-Step : {start : W} {s t : Readings W} → Sound start s → Step h s t → Sound start t
  Sound-Step {start} v (takes_turn {s} before after r d at_r runs) =
      let all = subst (All (Kept h)) at_r v.kept in
      let (same, quiet) = running-Kept r runs (All-middle (Kept h) before r after all) in
      let (kept, moved) = turn-KeptTurn h r s.world same quiet d in
      record {
        kept = All-replace (Kept h) before r (advance h r d s.world) after all kept;
        world_ran =
            moved
            ∙ (ap (ran h (message_of h d.fetched)) v.world_ran
                ∙ sym (ran-append s.calls (message_of h d.fetched) start));
        all_calls =
            subst (Perm (s.calls ++ message_of h d.fetched))
              (sym (
                all_called-append before (advance h r d s.world ∷ after)
                ∙ ap (λ l. all_called before ++ (l ++ all_called after))
                    (called_with-advance r d s.world quiet)))
              (Perm.trans
                (Perm.append_right (message_of h d.fetched) (
                  subst (Perm s.calls) (ap all_called at_r ∙ all_called-append before (r ∷ after))
                    v.all_calls))
                (joined (all_called before) (called_with r) (all_called after)
                  (message_of h d.fetched)));
      }

  Sound-Reaches : {start : W} {s t : Readings W} → Sound start s → Reaches h s t → Sound start t
  Sound-Reaches v here = v
  Sound-Reaches v (next path st) = Sound-Step (Sound-Reaches v path) st

  -- The goroutines as `Subscribe` starts them.
  abbrev pub fresh : Text → Reading
  fresh topic = record { topic = topic; handled = []; refused = []; committed = []; ended = false }

  abbrev pub all_fresh : List Text → List Reading
  all_fresh [] = []
  all_fresh (topic ∷ topics) = fresh topic ∷ all_fresh topics

  abbrev pub subscribed : List Text → W → Readings W
  subscribed topics w = record { world = w; calls = []; readings = all_fresh topics }

  subscribed-Sound : (topics : List Text) (w : W) → Sound w (subscribed topics w)
  subscribed-Sound topics w = record {
    kept = fresh_kept topics;
    world_ran = refl;
    all_calls = subst (Perm []) (sym (no_calls topics)) Perm.rfl;
  }
    where
      fresh_kept : (topics : List Text) → All (Kept h) (all_fresh topics)
      fresh_kept [] = tt
      fresh_kept (topic ∷ topics) = ((inl refl, inl refl), fresh_kept topics)

      no_calls : (topics : List Text) → all_called (all_fresh topics) ≡ []
      no_calls [] = refl
      no_calls (topic ∷ topics) = no_calls topics

  -- With the goroutines of any topics, a handler that they share, and any interleaving of their
  -- turns: each topic has committed the messages that the handler took from it, in their order, but
  -- for the last one if its commit has failed, and then its goroutine has returned; a message that
  -- the handler refused is not committed, and its goroutine has returned. The world is what the calls
  -- of the handler have made of it one behind the other, and these are the calls for the messages
  -- that were taken or refused, each once.
  pub Reaches-Sound :
      (topics : List Text) (w : W) (s : Readings W) → Reaches h (subscribed topics w) s → Sound w s
  Reaches-Sound topics w s path = Sound-Reaches (subscribed-Sound topics w) path
