-- ===== src/User/DriverBenchmark/Calls.antt =====
-- The calls of the driver's benchmark, and its handle.
use project_ram_crisis.Prelude.{
  ℕ, zero, suc, ◌<◌, ◌≡◌, inl, inr, refl, sym, ap, ◌∙◌, Bool, true, false, ◌&&◌, List, [], ◌∷◌, leb,
  arith, Bool-cases, subst, if◌then◌else◌,
}
use project_ram_crisis.User.Controller.{
  IoCall, Event, opened, closed, called, Session, leave, close_handle, opened_session,
}
use project_ram_crisis.User.DriverBenchmark.{
  Outside, stats_call, health_call, iterations, device_path, run_query, benchmark_query, benchmark,
  benchmark_wmain,
}

-- The device answers the call, and fills the whole output.
abbrev pub is_full : Outside → List Event → IoCall → Bool
is_full o events c =
    (o.answer events c).succeeded && leb c.output_size (o.answer events c).bytes_returned

-- So many calls in front of the events.
unfoldable pub after_calls : ℕ → IoCall → List Event → List Event
after_calls zero c events = events
after_calls (suc n) c events = called c ∷ after_calls n c events

after_calls-called :
    (n : ℕ) (c : IoCall) (events : List Event)
    → after_calls n c (called c ∷ events) ≡ after_calls (suc n) c events
unfolding after_calls
after_calls-called zero c events = refl
after_calls-called (suc n) c events = ap (λ l. called c ∷ l) (after_calls-called n c events)

module _ (o : Outside) where
  -- The rounds made: all in full, or the first that was not is the last.
  pub data Rounds (rounds : ℕ) (c : IoCall) (events : List Event) : Bool → ℕ → Type 0 where
    all_full :
        ((i : ℕ) → i < rounds → is_full o (after_calls i c events) c ≡ true)
        → Rounds rounds c events true rounds
    not_full :
        (n : ℕ)
        → n < rounds
        → ((i : ℕ) → i < n → is_full o (after_calls i c events) c ≡ true)
        → is_full o (after_calls n c events) c ≡ false
        → Rounds rounds c events false (suc n)

  shift_full :
      (n : ℕ) (c : IoCall) (events : List Event)
      → is_full o events c ≡ true
      → ((i : ℕ) → i < n → is_full o (after_calls i c (called c ∷ events)) c ≡ true)
      → (i : ℕ) → i < suc n
      → is_full o (after_calls i c events) c ≡ true
  unfolding after_calls
  shift_full n c events first later zero low = first
  shift_full n c events first later (suc i) low =
      ap (λ l. is_full o l c) (sym (after_calls-called i c events)) ∙ later i (omega arith)

  Rounds-suc :
      (rounds n : ℕ) (c : IoCall) (events : List Event) (done : Bool)
      → is_full o events c ≡ true
      → Rounds rounds c (called c ∷ events) done n
      → Rounds (suc rounds) c events done (suc n)
  Rounds-suc rounds _ c events _ first (all_full later) =
      all_full (shift_full rounds c events first later)
  Rounds-suc rounds _ c events _ first (not_full n low later last) =
      not_full (suc n) (omega arith) (shift_full n c events first later)
        (ap (λ l. is_full o l c) (sym (after_calls-called n c events)) ∙ last)

  benchmark_query-Rounds :
      (rounds : ℕ) (c : IoCall) (s : Session)
      → (done : Bool) × (n : ℕ) × (benchmark_query o rounds c s
          ≡ (done, record s { events = after_calls n c s.events }))
        × Rounds rounds c s.events done n
  unfolding benchmark_query run_query after_calls
  benchmark_query-Rounds zero c s = (true, zero, refl, all_full (λ i low. absurd (omega arith)))
  benchmark_query-Rounds (suc rounds) c s = elim (Bool-cases (is_full o s.events c)) [
    | inl full ↦
        let t : Session = record s { events = called c ∷ s.events } in
        let (done, n, run, made) = benchmark_query-Rounds rounds c t in
        (
          done,
          suc n,
          simp full (
              run
              ∙ ap (λ (l : List Event). (done, record s { events = l }))
                  (after_calls-called n c s.events)),
          Rounds-suc rounds n c s.events done full made,
        )
    | inr short ↦
        (false, 1, simp short, not_full zero (omega arith) (λ i low. absurd (omega arith)) short)
  ]

  -- How a run ends, with its exit code and its events.
  pub data IsEnd (arguments : List (List ℕ)) : ℕ → List Event → Type 0 where
    not_opened : o.opens (device_path o arguments) ≡ false → IsEnd arguments 1 []
    stats_failed :
        (n : ℕ)
        → o.opens (device_path o arguments) ≡ true
        → Rounds iterations stats_call (opened ∷ []) false n
        → IsEnd arguments 1 (closed ∷ after_calls n stats_call (opened ∷ []))
    health_failed :
        (n m : ℕ)
        → o.opens (device_path o arguments) ≡ true
        → Rounds iterations stats_call (opened ∷ []) true m
        → Rounds iterations health_call (after_calls m stats_call (opened ∷ [])) false n
        → IsEnd arguments 1
            (closed ∷ after_calls n health_call (after_calls m stats_call (opened ∷ [])))
    all_answered :
        (n m : ℕ)
        → o.opens (device_path o arguments) ≡ true
        → Rounds iterations stats_call (opened ∷ []) true m
        → Rounds iterations health_call (after_calls m stats_call (opened ∷ [])) true n
        → IsEnd arguments 0
            (closed ∷ after_calls n health_call (after_calls m stats_call (opened ∷ [])))

  -- The exit by what the two loops return.
  abbrev exit_by : Bool → Bool → Session → Session → ℕ × Session
  exit_by stats_done health_done t u =
      if stats_done then (if health_done then leave 0 u else leave 1 u) else leave 1 t

  benchmark-by :
      (s t u : Session) (stats_done health_done : Bool)
      → benchmark_query o iterations stats_call s ≡ (stats_done, t)
      → benchmark_query o iterations health_call t ≡ (health_done, u)
      → benchmark o s ≡ exit_by stats_done health_done t u
  unfolding benchmark
  benchmark-by s t u stats_done health_done e f = simp (e, f)

  -- A session with these events.
  abbrev having : List Event → Session
  having events = record opened_session { events = events }

  module _ (arguments : List (List ℕ)) (opens : o.opens (device_path o arguments) ≡ true)
      (m n : ℕ) where
    abbrev asked : List Event
    asked = after_calls m stats_call (opened ∷ [])

    exit_by-IsEnd :
        (stats_done health_done : Bool)
        → Rounds iterations stats_call (opened ∷ []) stats_done m
        → Rounds iterations health_call asked health_done n
        → (let q : ℕ × Session =
              exit_by stats_done health_done
                (having asked)
                (having (after_calls n health_call asked)) in
            IsEnd arguments q.0 q.1.events)
    unfolding leave close_handle
    exit_by-IsEnd true true stats health = all_answered n m opens stats health
    exit_by-IsEnd true false stats health = health_failed n m opens stats health
    exit_by-IsEnd false health_done stats health = stats_failed m opens stats

  benchmark-IsEnd :
      (arguments : List (List ℕ))
      → o.opens (device_path o arguments) ≡ true
      → IsEnd arguments (benchmark o opened_session).0 (benchmark o opened_session).1.events
  benchmark-IsEnd arguments opens =
      let (stats_done, m, run, stats) =
        benchmark_query-Rounds iterations stats_call opened_session in
      let t = having (after_calls m stats_call (opened ∷ [])) in
      let (health_done, n, again, health) = benchmark_query-Rounds iterations health_call t in
      subst (λ (q : ℕ × Session). IsEnd arguments q.0 q.1.events)
        (sym (benchmark-by opened_session t _ stats_done health_done run again))
        (exit_by-IsEnd arguments opens m n stats_done health_done stats health)

  -- Whatever the device answers, a run of the driver's benchmark ends. It exits with 1 and the
  -- device untouched if the device does not open; otherwise it closes the handle once, as the last,
  -- and has made 50 calls for the statistics and 50 for the health, all answered in full, and exits
  -- with 0, or has stopped at the first call that was not, and exits with 1.
  pub benchmark_wmain-IsEnd :
      (arguments : List (List ℕ))
      → IsEnd arguments (benchmark_wmain o arguments).0 (benchmark_wmain o arguments).1.events
  unfolding benchmark_wmain
  benchmark_wmain-IsEnd arguments = elim (Bool-cases (o.opens (device_path o arguments))) [
    | inl opens ↦ rw opens (benchmark-IsEnd arguments opens)
    | inr shut ↦ rw shut (not_opened shut)
  ]
