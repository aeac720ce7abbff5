-- ===== src/Broker/Redpanda/Subscribe/Returns.antt =====
-- pkg/broker/redpanda.go, `Subscribe`: with what it returns.
use mathlib.Core.Path.{subst}
use apexio.Base.{
  arith, ◌≡◌, refl, sym, ◌⊎◌, inl, inr, Bool, true, false, Option, none, some, List, [], ◌∷◌, ◌++◌,
  ok, Bool-cases, All,
}
use apexio.Base.Text.{Text}
use apexio.Errors.{Err, Ctx, is_canceled}
use apexio.Broker.Redpanda.{KafkaWriter, Redpanda}
use apexio.Broker.Redpanda.Subscribe.{
  Worker, working, finished, Place, selecting, waiting, returned, Fanin, start, report, AllFinished,
  Step, parent_done, worker_returns, take_ctx, take_error, take_done, waited, Reaches, here, next,
}

-- The consumer of a topic has failed with an error.
abbrev pub Failed : Err → List Worker → Type 0
Failed x [] = ⊥
Failed x (w ∷ ws) = (w ≡ finished (some x)) ⊎ Failed x ws

-- A result that `Subscribe` may return: nil, the error of its context, or that of a topic.
abbrev pub IsCause : Fanin → Option Err → Type 0
IsCause s none = Unit
IsCause s (some x) = (s.parent ≡ some x) ⊎ Failed x s.workers

abbrev pub AtPlace : Fanin → Place → Type 0
AtPlace s selecting = Unit
AtPlace s (waiting e) = IsCause s e
AtPlace s (returned e) = IsCause s e × AllFinished s.workers

pub record Inv (s : Fanin) : Type 0 where
  pub reported : All (λ x. Failed x s.workers) s.errors
  pub at_place : AtPlace s s.place

Failed-finish :
    (x : Err) (before after : List Worker) (e : Option Err)
    → Failed x (before ++ working ∷ after)
    → Failed x (before ++ finished e ∷ after)
Failed-finish x [] after e (inl never) = cc
Failed-finish x [] after e (inr f) = inr f
Failed-finish x (w ∷ before) after e (inl is) = inl is
Failed-finish x (w ∷ before) after e (inr f) = inr (Failed-finish x before after e f)

Failed-here :
    (x : Err) (before after : List Worker) → Failed x (before ++ finished (some x) ∷ after)
Failed-here x [] after = inl refl
Failed-here x (w ∷ before) after = inr (Failed-here x before after)

not_finished : (before after : List Worker) → AllFinished (before ++ working ∷ after) → ⊥
not_finished [] after h = h
not_finished (working ∷ before) after h = h
not_finished (finished e ∷ before) after h = not_finished before after h

All-map : {A : Type 0} {P Q : A → Type 0} (l : List A) → ((a : A) → P a → Q a) → All P l → All Q l
All-map [] f h = tt
All-map (a ∷ l) f (p, h) = (f a p, All-map l f h)

All-snoc : {A : Type 0} (P : A → Type 0) (l : List A) (a : A) → All P l → P a → All P (l ++ a ∷ [])
All-snoc P [] a h p = (p, tt)
All-snoc P (b ∷ l) a (q, h) p = (q, All-snoc P l a h p)

-- What holds of a place survives a step that leaves it: the channel, the context and a worker may
-- change.
AtPlace-errors :
    (s : Fanin) (p : Place) (errors : List Err) (b : Bool)
    → AtPlace s p
    → AtPlace (record s { errors = errors; canceled = b }) p
AtPlace-errors s selecting errors b h = tt
AtPlace-errors s (waiting none) errors b h = tt
AtPlace-errors s (waiting (some x)) errors b h = h
AtPlace-errors s (returned none) errors b h = h
AtPlace-errors s (returned (some x)) errors b h = h

IsCause-parent :
    (s : Fanin) (x : Err) (e : Option Err)
    → s.parent ≡ none
    → IsCause s e
    → IsCause (record s { parent = some x; canceled = true }) e
IsCause-parent s x none live h = tt
IsCause-parent s x (some y) live (inl gone) = cc
IsCause-parent s x (some y) live (inr f) = inr f

AtPlace-parent :
    (s : Fanin) (p : Place) (x : Err)
    → s.parent ≡ none
    → AtPlace s p
    → AtPlace (record s { parent = some x; canceled = true }) p
AtPlace-parent s selecting x live h = tt
AtPlace-parent s (waiting e) x live h = IsCause-parent s x e live h
AtPlace-parent s (returned e) x live (h, all) = (IsCause-parent s x e live h, all)

module _ (s : Fanin) (before after : List Worker) (e : Option Err) where
  abbrev behind : Fanin
  behind = record s { workers = before ++ finished e ∷ after }

  IsCause-finish :
      (r : Option Err) → s.workers ≡ before ++ working ∷ after → IsCause s r → IsCause behind r
  IsCause-finish none same h = tt
  IsCause-finish (some x) same (inl gone) = inl gone
  IsCause-finish (some x) same (inr f) =
      inr (Failed-finish x before after e (subst (Failed x) same f))

  AtPlace-finish :
      (p : Place) → s.workers ≡ before ++ working ∷ after → AtPlace s p → AtPlace behind p
  AtPlace-finish selecting same h = tt
  AtPlace-finish (waiting r) same h = IsCause-finish r same h
  AtPlace-finish (returned r) same (h, all) =
      elim (not_finished before after (subst AllFinished same all)) [ ]

  finish-Inv : s.workers ≡ before ++ working ∷ after → Inv s → Inv behind
  finish-Inv same v = record {
    reported =
        All-map s.errors (λ x f. Failed-finish x before after e (subst (Failed x) same f))
          v.reported;
    at_place = AtPlace-finish s.place same v.at_place;
  }

report-Inv :
    (s : Fanin) (e : Option Err)
    → ((x : Err) → e ≡ some x → Failed x s.workers)
    → Inv s
    → Inv (report e s)
unfolding report
report-Inv s none failed v = v
report-Inv s (some x) failed v = elim (Bool-cases (is_canceled x)) [
  | inl c ↦ rw (c) v
  | inr c ↦ rw (c) (record {
    reported = All-snoc (λ y. Failed y s.workers) s.errors x v.reported (failed x refl);
    at_place = AtPlace-errors s s.place (s.errors ++ x ∷ []) true v.at_place;
  })
]

Inv-Step : {s t : Fanin} → Inv s → Step s t → Inv t
Inv-Step v (parent_done {s} x live) = record {
  reported = v.reported;
  at_place = AtPlace-parent s s.place x live v.at_place;
}
Inv-Step v (worker_returns {s} before after e same) =
    report-Inv (record s { workers = before ++ finished e ∷ after }) e
      (λ x is.
        subst (λ r. Failed x (before ++ finished r ∷ after)) (sym is) (Failed-here x before after))
      (finish-Inv s before after e same v)
Inv-Step v (take_ctx {s} x now gone) = record { reported = v.reported; at_place = inl gone }
Inv-Step v (take_error {s} x rest now same) =
    let (f, fs) = subst (All (λ y. Failed y s.workers)) same v.reported in
    record { reported = fs; at_place = inr f }
Inv-Step v (take_done {s} now all) = record { reported = v.reported; at_place = (tt, all) }
Inv-Step v (waited {s} e now all) = record {
  reported = v.reported;
  at_place = (subst (AtPlace s) now v.at_place, all);
}

Inv-Reaches : {s t : Fanin} → Inv s → Reaches s t → Inv t
Inv-Reaches v here = v
Inv-Reaches v (next path st) = Inv-Step (Inv-Reaches v path) st

report-workers : (e : Option Err) (s : Fanin) → (report e s).workers ≡ s.workers
unfolding report
report-workers none s = refl
report-workers (some x) s = elim (Bool-cases (is_canceled x)) [
  | inl c ↦ rw (c) refl
  | inr c ↦ rw (c) refl
]

report-place : (e : Option Err) (s : Fanin) → (report e s).place ≡ s.place
unfolding report
report-place none s = refl
report-place (some x) s = elim (Bool-cases (is_canceled x)) [
  | inl c ↦ rw (c) refl
  | inr c ↦ rw (c) refl
]

module _ {K : KafkaWriter} where
  start-Inv :
      (ctx : Ctx) (topics : List Text) (has_handler : Bool) (r : Redpanda K) {s : Fanin}
      → start ctx topics has_handler r ≡ ok s
      → Inv s
  unfolding start
  start-Inv ctx topics has_handler r {s} begun =
      let (no_errors, now) = begins begun in
      record {
        reported = subst (All (λ x. Failed x s.workers)) (sym no_errors) tt;
        at_place = subst (AtPlace s) (sym now) tt;
      }
    where
      begins : start ctx topics has_handler r ≡ ok s → (s.errors ≡ []) × (s.place ≡ selecting)
      begins begun = ground arith

  -- Once `Subscribe` has returned, every goroutine that it started has finished; and an error that
  -- it returns is that of its context, or one with which the consumer of a topic has failed.
  pub Reaches-returned :
      (ctx : Ctx) (topics : List Text) (has_handler : Bool) (r : Redpanda K) {s t : Fanin}
      (e : Option Err)
      → start ctx topics has_handler r ≡ ok s
      → Reaches s t
      → t.place ≡ returned e
      → IsCause t e × AllFinished t.workers
  Reaches-returned ctx topics has_handler r {s} {t} e begun path now =
      subst (AtPlace t) now (Inv-Reaches (start-Inv ctx topics has_handler r begun) path).at_place

  -- `Subscribe` may return nil although the consumer of a topic has failed: once that was the last
  -- one to finish, its error and `done` are both ready, and the `select` may take `done`.
  pub Reaches-lost_error :
      (topic : Text) (r : Redpanda K) (x : Err)
      → r.closed ≡ false
      → (s : Fanin) × (t : Fanin) × (start none (topic ∷ []) true r ≡ ok s)
        × Reaches s t
        × (t.place ≡ returned none)
        × Failed x t.workers
  unfolding start
  Reaches-lost_error topic r x is_open = (
    begun,
    record failed { place = returned none; canceled = true },
    rw (is_open) refl,
    next (next here (worker_returns [] [] (some x) refl)) (
        take_done (report-place (some x) _)
          (subst AllFinished (sym (report-workers (some x) _)) tt)),
    refl,
    subst (Failed x) (sym (report-workers (some x) _)) (inl refl),
  )
    where
      begun : Fanin
      begun = record {
        parent = none;
        canceled = false;
        workers = working ∷ [];
        errors = [];
        place = selecting;
      }

      failed : Fanin
      failed = report (some x) (record begun { workers = finished (some x) ∷ [] })
