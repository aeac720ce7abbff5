-- ===== src/Schema/Otlp/Convert.antt =====
-- The three nested loops of `LogEventsFromOTLP` are one pass over the records of the request.
use mathlib.Core.Path.{subst}
use apexio.Base.{
  ℕ, suc, ◌≡◌, refl, sym, ◌∙◌, ap, ◌↔◌, Option, some, List, [], ◌∷◌, ◌++◌, append-nil, append_assoc,
  Result, ok, ◌>>=◌, map_err, ok-injective, map_err-eq-ok, >>=-eq-ok, >>=_assoc, >>=_congr, length,
  All,
}
use apexio.Base.Text.{Unicode, HasCases}
use apexio.Errors.{Err, wrap, otlp_record}
use apexio.Schema.Time.{Time}
use apexio.Schema.Level.Normal.{IsLevel}
use apexio.Schema.Scan.{Floats}
use apexio.Schema.Attrs.{Attrs}
use apexio.Schema.Event.{LogEvent}
use apexio.Schema.Event.Valid.{IsValid}
use apexio.Schema.Rest.Accepts.{checked-ok, normalize_log_level-IsLevel}
use apexio.Schema.Otlp.{
  LogRecord, ScopeLogs, ResourceLogs, get_record, get_log_records, get_resource_logs,
  resource_attributes, event_of_record, record_severity, from_otlp_like, otlp_event,
  convert_records, convert_scopes, convert_resources, log_events_from_otlp,
}

-- A record with the attributes of its resource.
abbrev pub Located : Type 0
Located = Attrs × LogRecord

abbrev pub locate_records : Attrs → List (Option LogRecord) → List Located
locate_records attrs [] = []
locate_records attrs (lr ∷ lrs) = (attrs, get_record lr) ∷ locate_records attrs lrs

abbrev pub locate_scopes : Attrs → List (Option ScopeLogs) → List Located
locate_scopes attrs [] = []
locate_scopes attrs (sl ∷ sls) =
    locate_records attrs (get_log_records sl) ++ locate_scopes attrs sls

module _ ⦃u : Unicode⦄ ⦃f : Floats⦄ where
  -- All records of a request, in the order in which they stand.
  abbrev pub locate_resources : List (Option ResourceLogs) → List Located
  locate_resources [] = []
  locate_resources (rl ∷ rls) =
      locate_scopes (resource_attributes (get_resource_logs rl)) (get_resource_logs rl).scope_logs
      ++ locate_resources rls

  -- The event of a record, when `events` stand before it.
  abbrev converted : (ℕ → Time) → List LogEvent → Attrs → LogRecord → Result Err LogEvent
  converted now events attrs lr =
      map_err (wrap otlp_record) (event_of_record (now (length events)) attrs lr)

  -- One pass: the first record that is refused ends it, with its error.
  pub convert_all : (ℕ → Time) → List Located → List LogEvent → Result Err (List LogEvent)
  convert_all now [] events = ok events
  convert_all now ((attrs, lr) ∷ rs) events = do
    ev ← converted now events attrs lr
    convert_all now rs (events ++ ev ∷ [])

  convert_all-append :
      (now : ℕ → Time) (rs qs : List Located) (events : List LogEvent)
      → convert_all now (rs ++ qs) events ≡ (convert_all now rs events >>= convert_all now qs)
  unfolding convert_all
  convert_all-append now [] qs events = refl
  convert_all-append now ((attrs, lr) ∷ rs) qs events =
      >>=_congr _ _ _ (λ ev. convert_all-append now rs qs (events ++ ev ∷ []))
      ∙ sym (
          >>=_assoc (converted now events attrs lr) (λ ev. convert_all now rs (events ++ ev ∷ []))
            (convert_all now qs))

  convert_records-convert_all :
      (now : ℕ → Time) (attrs : Attrs) (lrs : List (Option LogRecord)) (events : List LogEvent)
      → convert_records now attrs lrs events ≡ convert_all now (locate_records attrs lrs) events
  unfolding convert_records convert_all
  convert_records-convert_all now attrs [] events = refl
  convert_records-convert_all now attrs (lr ∷ lrs) events =
      >>=_congr _ _ _ (λ ev. convert_records-convert_all now attrs lrs (events ++ ev ∷ []))

  convert_scopes-convert_all :
      (now : ℕ → Time) (attrs : Attrs) (sls : List (Option ScopeLogs)) (events : List LogEvent)
      → convert_scopes now attrs sls events ≡ convert_all now (locate_scopes attrs sls) events
  unfolding convert_scopes convert_all
  convert_scopes-convert_all now attrs [] events = refl
  convert_scopes-convert_all now attrs (sl ∷ sls) events =
      ap (λ m. m >>= convert_scopes now attrs sls)
        (convert_records-convert_all now attrs (get_log_records sl) events)
      ∙ (>>=_congr _ _ _ (convert_scopes-convert_all now attrs sls)
          ∙ sym (
              convert_all-append now (locate_records attrs (get_log_records sl))
                (locate_scopes attrs sls) events))

  convert_resources-convert_all :
      (now : ℕ → Time) (rls : List (Option ResourceLogs)) (events : List LogEvent)
      → convert_resources now rls events ≡ convert_all now (locate_resources rls) events
  unfolding convert_resources convert_all
  convert_resources-convert_all now [] events = refl
  convert_resources-convert_all now (rl ∷ rls) events =
      ap (λ m. m >>= convert_resources now rls)
        (convert_scopes-convert_all now (resource_attributes (get_resource_logs rl))
          (get_resource_logs rl).scope_logs events)
      ∙ (>>=_congr _ _ _ (convert_resources-convert_all now rls)
          ∙ sym (convert_all-append now _ (locate_resources rls) events))

  -- The nested loops convert the records of the request in one pass, in their order.
  pub log_events_from_otlp-convert_all :
      (now : ℕ → Time) (rls : List (Option ResourceLogs))
      → log_events_from_otlp now (some rls) ≡ convert_all now (locate_resources rls) []
  unfolding log_events_from_otlp
  log_events_from_otlp-convert_all now rls = convert_resources-convert_all now rls []

  -- Each event is that of its record, at the clock's reading of its turn.
  abbrev pub Converts : (ℕ → Time) → List Located → List LogEvent → List LogEvent → Type 0
  Converts now [] before events = events ≡ []
  Converts now (_ ∷ _) before [] = ⊥
  Converts now ((attrs, lr) ∷ rs) before (ev ∷ events) =
      (event_of_record (now (length before)) attrs lr ≡ ok ev)
      × Converts now rs (before ++ ev ∷ []) events

  convert_all-ok :
      (now : ℕ → Time) (rs : List Located) (before : List LogEvent) {all : List LogEvent}
      → convert_all now rs before ≡ ok all
      → (events : List LogEvent) × (all ≡ before ++ events) × Converts now rs before events
  unfolding convert_all
  convert_all-ok now [] before same = ([], sym (append-nil before ∙ ok-injective same), refl)
  convert_all-ok now ((attrs, lr) ∷ rs) before same =
      let (ev, conv, rest) = >>=-eq-ok (converted now before attrs lr) _ same in
      let (events, all_eq, cs) = convert_all-ok now rs (before ++ ev ∷ []) rest in
      (ev ∷ events, all_eq ∙ append_assoc before (ev ∷ []) events, (map_err-eq-ok _ _ conv, cs))

  Converts-convert_all :
      (now : ℕ → Time) (rs : List Located) (before events : List LogEvent)
      → Converts now rs before events
      → convert_all now rs before ≡ ok (before ++ events)
  unfolding convert_all
  Converts-convert_all now [] before events h =
      ap ok (sym (append-nil before) ∙ ap (λ t. before ++ t) (sym h))
  Converts-convert_all now (_ ∷ _) before [] h = elim h [ ]
  Converts-convert_all now ((attrs, lr) ∷ rs) before (ev ∷ events) (here, later) = rw here (
      Converts-convert_all now rs (before ++ ev ∷ []) events later
      ∙ ap ok (append_assoc before (ev ∷ []) events))

  -- `LogEventsFromOTLP` succeeds with these events exactly if there is one for each record of the
  -- request, in their order, which is the event of the record.
  pub log_events_from_otlp-ok_iff :
      (now : ℕ → Time) (rls : List (Option ResourceLogs)) (events : List LogEvent)
      → (log_events_from_otlp now (some rls) ≡ ok events)
        ↔ Converts now (locate_resources rls) [] events
  log_events_from_otlp-ok_iff now rls events = (
    λ same.
        let (es, all_eq, cs) =
          convert_all-ok now (locate_resources rls) []
            (sym (log_events_from_otlp-convert_all now rls) ∙ same) in
        subst (Converts now (locate_resources rls) []) (sym all_eq) cs,
    λ cs.
        log_events_from_otlp-convert_all now rls
        ∙ Converts-convert_all now (locate_resources rls) [] events cs,
  )

  length-Converts :
      (now : ℕ → Time) (rs : List Located) (before events : List LogEvent)
      → Converts now rs before events
      → length events ≡ length rs
  length-Converts now [] before events h = ap length h
  length-Converts now (_ ∷ _) before [] h = elim h [ ]
  length-Converts now (r ∷ rs) before (ev ∷ events) (_, later) =
      ap suc (length-Converts now rs _ events later)

  -- An event that the pipeline accepts, with one of the five levels.
  abbrev pub IsAccepted : LogEvent → Type 0
  IsAccepted e = IsValid e × IsLevel e.log_level

  event_of_record-IsAccepted :
      HasCases u
      → (now : Time) (attrs : Attrs) (lr : LogRecord) {ev : LogEvent}
      → event_of_record now attrs lr ≡ ok ev
      → IsAccepted ev
  unfolding event_of_record from_otlp_like otlp_event
  event_of_record-IsAccepted h now attrs lr same =
      let (is_event, v) = checked-ok _ same in
      subst IsAccepted (sym is_event)
        (v, normalize_log_level-IsLevel h (record_severity lr) v.level_known)

  All-Converts :
      HasCases u
      → (now : ℕ → Time) (rs : List Located) (before events : List LogEvent)
      → Converts now rs before events
      → All IsAccepted events
  All-Converts h now [] before events none_left = subst (All IsAccepted) (sym none_left) tt
  All-Converts h now (_ ∷ _) before [] c = elim c [ ]
  All-Converts h now ((attrs, lr) ∷ rs) before (ev ∷ events) (here, later) =
      (event_of_record-IsAccepted h _ attrs lr here, All-Converts h now rs _ events later)

  -- With case tables as documented, the events of a request that is converted are as many as its
  -- records, and each is valid and has one of the five levels.
  pub log_events_from_otlp-IsAccepted :
      HasCases u
      → (now : ℕ → Time) (rls : List (Option ResourceLogs)) {events : List LogEvent}
      → log_events_from_otlp now (some rls) ≡ ok events
      → (length events ≡ length (locate_resources rls)) × All IsAccepted events
  log_events_from_otlp-IsAccepted h now rls {events} same =
      let cs = (log_events_from_otlp-ok_iff now rls events).0 same in
      (length-Converts now _ [] events cs, All-Converts h now _ [] events cs)
