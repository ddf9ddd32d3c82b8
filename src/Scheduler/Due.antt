-- ===== src/Scheduler/Due.antt =====
-- Which rows are due after a tick of src/scheduler/tick.ts, and what the counters say.
use ai_model_arena.Common.{
  ℕ, ◌+◌, ◌≤◌, ◌<◌, ◌≡◌, refl, Bool, true, false, ◌&&◌, Option, none, some, String, List, [], ◌∷◌,
  leb, All, All-append, arith, subst, sym,
}
use ai_model_arena.Common.Dict.{Dict}
use ai_model_arena.Scheduler.{
  Counters, ScheduleState, DbSchedule, TickEnv, Tick, next_counters, is_due, begin_row, failure_of,
  settle_row, note, tick_row, abandon, tick_parsed, tick_rows, tick_scheduler,
}

-- The cron parser answers with a later time, and the delay after a failure is positive.
pub record IsForward (e : TickEnv) (now : ℕ) : Type 0 where
  pub later : (cron : String) (next : ℕ) → e.compute_next_run cron ≡ some next → now < next
  pub delays : 0 < e.backoff_ms

-- In a row, failures in a row are among all failures, and these among all runs.
abbrev pub IsCounted : Counters → Type 0
IsCounted c = c.consecutive_failures ≤ c.total_failures × c.total_failures ≤ c.total_runs

next_counters-IsCounted :
    (c : Counters) (failed : Bool) → IsCounted c → IsCounted (next_counters c failed)
unfolding next_counters
next_counters-IsCounted c true h = (omega (arith, h.0), omega (arith, h.1))
next_counters-IsCounted c false h = (omega arith, omega (arith, h.1))

-- A row that is not due, with counters in order.
abbrev pub IsSettled : ℕ → DbSchedule → Type 0
IsSettled now row = is_due now row ≡ false × IsCounted row.counters

not_due : (enabled : Bool) (now t : ℕ) → now < t → (enabled && leb t now) ≡ false
not_due enabled now t h = ground arith

module _ (e : TickEnv) (now : ℕ) (f : IsForward e now) where
  settle_row-IsSettled_later :
      (next : ℕ) (failure : Option String) (row : DbSchedule)
      → now < next
      → IsCounted row.counters
      → IsSettled now (settle_row e now (some next) failure row)
  settle_row-IsSettled_later next none row h c =
      (not_due row.enabled now next h, next_counters-IsCounted row.counters false c)
  settle_row-IsSettled_later next (some reason) row h c = (
    not_due row.enabled now (now + e.backoff_ms) (omega (arith, f.delays)),
    next_counters-IsCounted row.counters true c,
  )

  settle_row-IsSettled :
      (next : Option ℕ) (row : DbSchedule) (models : List String)
      → e.compute_next_run row.cron ≡ next
      → IsCounted row.counters
      → IsSettled now
          (settle_row e now next (failure_of e now next row models) (begin_row e now next row))
  settle_row-IsSettled none row models eq c = (
    not_due row.enabled now (now + e.backoff_ms) (omega (arith, f.delays)),
    next_counters-IsCounted row.counters true c,
  )
  settle_row-IsSettled (some next) row models eq c =
      settle_row-IsSettled_later next (e.start row models) (begin_row e now (some next) row)
        (f.later row.cron next eq) c

  note-rows :
      (failure : Option String) (id : String) (t : Tick) → (note e now failure id t).rows ≡ t.rows
  note-rows none id t = refl
  note-rows (some reason) id t = refl

  tick_row-IsSettled :
      (row : DbSchedule) (models : List String) (t : Tick)
      → IsCounted row.counters
      → All (IsSettled now) t.rows
      → All (IsSettled now) (tick_row e now row models t).rows
  unfolding tick_row
  tick_row-IsSettled row models t c h =
      let next = e.compute_next_run row.cron in
      let settled =
        settle_row e now next (failure_of e now next row models) (begin_row e now next row) in
      subst (All (IsSettled now)) (sym (note-rows (failure_of e now next row models) row.id _)) (
        All-append (IsSettled now) t.rows (settled ∷ []) h
          (settle_row-IsSettled next row models refl c, tt))

  tick_parsed-IsSettled :
      (parsed : Option (List String)) (row : DbSchedule) (rest : List DbSchedule) (t : Tick)
      (go_on : Tick → Tick × Bool)
      → ((t' : Tick)
          → All (IsSettled now) t'.rows
          → (go_on t').1 ≡ true
          → All (IsSettled now) (go_on t').0.rows)
      → IsCounted row.counters
      → All (IsSettled now) t.rows
      → (tick_parsed e now parsed row rest t go_on).1 ≡ true
      → All (IsSettled now) (tick_parsed e now parsed row rest t go_on).0.rows
  tick_parsed-IsSettled none row rest t go_on k c h ended = ground arith
  tick_parsed-IsSettled (some models) row rest t go_on k c h ended =
      k (tick_row e now row models t) (tick_row-IsSettled row models t c h) ended

  tick_rows-IsSettled :
      (rows : List DbSchedule) (t : Tick)
      → All (λ row. IsCounted row.counters) rows
      → All (IsSettled now) t.rows
      → (tick_rows e now rows t).1 ≡ true
      → All (IsSettled now) (tick_rows e now rows t).0.rows
  unfolding tick_rows
  tick_rows-IsSettled [] t c h ended = h
  tick_rows-IsSettled (row ∷ rest) t c h ended =
      tick_parsed-IsSettled (e.parse_models row.models) row rest t (tick_rows e now rest)
        (λ t' h' ended'. tick_rows-IsSettled rest t' c.1 h' ended') c.0 h ended

  -- A tick that comes to its end leaves no row due, whether its run started, failed to start or has a bad cron
  -- expression, and keeps each row's counters in order: failures in a row, then all failures, then all runs. This
  -- asks for a cron parser that answers with later times and a positive delay.
  pub tick_scheduler-IsSettled :
      (states : Dict ScheduleState) (rows : List DbSchedule)
      → All (λ row. IsCounted row.counters) rows
      → (tick_scheduler e now states rows).1 ≡ true
      → All (IsSettled now) (tick_scheduler e now states rows).0.rows
  tick_scheduler-IsSettled states rows c ended = tick_rows-IsSettled rows _ c tt ended

begun-due :
    (e : TickEnv) (now : ℕ) (next : Option ℕ) (row : DbSchedule)
    → is_due now row ≡ true
    → is_due now (begin_row e now next row) ≡ true
begun-due e now none row h = h
begun-due e now (some next) row h = h

-- A due row that is listed first and whose models do not parse ends the tick: it stays due, and the rows after it
-- stay as they were.
pub tick_scheduler-abandon :
    (e : TickEnv) (now : ℕ) (states : Dict ScheduleState) (row : DbSchedule)
    (rest : List DbSchedule)
    → e.parse_models row.models ≡ none
    → is_due now row ≡ true
    → (row' : DbSchedule) × (is_due now row' ≡ true
        × (tick_scheduler e now states (row ∷ rest)).0.rows ≡ row' ∷ rest
        × (tick_scheduler e now states (row ∷ rest)).1 ≡ false)
unfolding tick_rows abandon
tick_scheduler-abandon e now states row rest bad due =
    let next = e.compute_next_run row.cron in
    (begin_row e now next row, (begun-due e now next row due, rw bad refl, rw bad refl))
