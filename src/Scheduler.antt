-- ===== src/Scheduler.antt =====
-- One tick of src/scheduler/tick.ts over the rows that are due. Times, which the program keeps as ISO texts, are
-- milliseconds. The wording of errors is left out, and so is the race of the first status update, which the program
-- does not await.
pub mod Due
mod Examples
use ai_model_arena.Common.{
  ℕ, ◌+◌, Bool, true, false, ◌&&◌, Option, none, some, String, List, [], ◌∷◌, ◌++◌, leb,
  if◌then◌else◌,
}
use ai_model_arena.Common.Dict.{Dict, get, put, or_default}

pub data ScheduleStatus : Type 0 where
  idle running error : ScheduleStatus

pub record Counters : Type 0 where
  pub consecutive_failures : ℕ
  pub total_runs : ℕ
  pub total_failures : ℕ

pub record ScheduleState : Type 0 where
  pub status : ScheduleStatus
  pub last_run : Option ℕ
  pub next_run : Option ℕ
  pub last_error : Option String
  pub counters : Counters

pub record DbSchedule : Type 0 where
  pub id : String
  pub scenario : String
  pub models : String
  pub cron : String
  pub enabled : Bool
  pub last_run : Option ℕ
  pub next_run : Option ℕ
  pub last_status : Option ScheduleStatus
  pub last_error : Option String
  pub counters : Counters

-- What the tick calls: the cron parser, the JSON parser, the start of a run, which may fail, and the delay after a
-- failure.
pub record TickEnv : Type 0 where
  pub compute_next_run : String → Option ℕ
  pub parse_models : String → Option (List String)
  pub start : DbSchedule → List String → Option String
  pub backoff_ms : ℕ

pub record Tick : Type 0 where
  pub states : Dict ScheduleState
  pub rows : List DbSchedule
  pub ticked : List String
  pub failures : List String

unfoldable pub next_counters : Counters → Bool → Counters
next_counters base failed = record {
  consecutive_failures = if failed then base.consecutive_failures + 1 else 0;
  total_runs = base.total_runs + 1;
  total_failures = base.total_failures + (if failed then 1 else 0);
}

abbrev pub no_runs : Counters
no_runs = record { consecutive_failures = 0; total_runs = 0; total_failures = 0 }

abbrev pub idle_state : Counters → ScheduleState
idle_state counters = record {
  status = idle;
  last_run = none;
  next_run = none;
  last_error = none;
  counters = counters;
}

abbrev pub has_passed : ℕ → Option ℕ → Bool
has_passed now none = true
has_passed now (some t) = leb t now

-- `listDueSchedules`
abbrev pub is_due : ℕ → DbSchedule → Bool
is_due now row = row.enabled && has_passed now row.next_run

module _ (e : TickEnv) (now : ℕ) where
  -- The state while the run is being started.
  abbrev pub begin_state : Option ℕ → ScheduleState → ScheduleState
  begin_state none s = record s { status = error; last_run = some now }
  begin_state (some next) s = record s {
    status = running;
    last_run = some now;
    next_run = some next;
  }

  abbrev pub begin_row : Option ℕ → DbSchedule → DbSchedule
  begin_row none row = record row {
    last_status = some error;
    last_error = some "invalid cron expression";
  }
  begin_row (some next) row = record row { last_status = some running; last_error = none }

  abbrev pub failure_of : Option ℕ → DbSchedule → List String → Option String
  failure_of none row models = some "invalid cron expression"
  failure_of (some next) row models = e.start row models

  abbrev pub settle_row : Option ℕ → Option String → DbSchedule → DbSchedule
  settle_row next none row = record row {
    last_run = some now;
    next_run = next;
    last_status = some idle;
    counters = next_counters row.counters false;
  }
  settle_row next (some reason) row = record row {
    last_run = some now;
    next_run = some (now + e.backoff_ms);
    last_status = some error;
    last_error = some reason;
    counters = next_counters row.counters true;
  }

  abbrev pub settle_state : Option String → Counters → ScheduleState → ScheduleState
  settle_state none base s = record s { status = idle; counters = next_counters base false }
  settle_state (some reason) base s = record s {
    status = error;
    last_error = some reason;
    counters = next_counters base true;
  }

  abbrev pub note : Option String → String → Tick → Tick
  note none id t = record t { ticked = t.ticked ++ id ∷ [] }
  note (some reason) id t = record t { failures = t.failures ++ id ∷ [] }

  abbrev pub states_after : DbSchedule → Option String → Dict ScheduleState → Dict ScheduleState
  states_after row failure states =
      let state = or_default (get row.id states) (idle_state row.counters) in
      let begun =
        begin_state (e.compute_next_run row.cron)
          (or_default (get row.id states) (idle_state no_runs)) in
      put row.id (settle_state failure state.counters begun) states

  -- A row whose models parse.
  unfoldable pub tick_row : DbSchedule → List String → Tick → Tick
  tick_row row models t =
      let next = e.compute_next_run row.cron in
      let failure = failure_of next row models in
      note failure row.id (record t {
        states = states_after row failure t.states;
        rows = t.rows ++ settle_row next failure (begin_row next row) ∷ [];
      })

  -- A row whose models do not parse throws: the tick ends, and neither this row nor the ones after it is settled.
  pub abandon : DbSchedule → List DbSchedule → Tick → Tick
  abandon row rest t =
      let next = e.compute_next_run row.cron in
      let begun = begin_state next (or_default (get row.id t.states) (idle_state no_runs)) in
      record t { states = put row.id begun t.states; rows = t.rows ++ begin_row next row ∷ rest }

  abbrev pub tick_parsed :
      Option (List String)
      → DbSchedule
      → List DbSchedule
      → Tick
      → (Tick → Tick × Bool)
      → Tick × Bool
  tick_parsed none row rest t go_on = (abandon row rest t, false)
  tick_parsed (some models) row rest t go_on = go_on (tick_row row models t)

  -- The tick, and whether it came to its end.
  unfoldable pub tick_rows : List DbSchedule → Tick → Tick × Bool
  tick_rows [] t = (t, true)
  tick_rows (row ∷ rest) t = tick_parsed (e.parse_models row.models) row rest t (tick_rows rest)

abbrev pub tick_scheduler : TickEnv → ℕ → Dict ScheduleState → List DbSchedule → Tick × Bool
tick_scheduler e now states rows =
    tick_rows e now rows (record { states = states; rows = []; ticked = []; failures = [] })
