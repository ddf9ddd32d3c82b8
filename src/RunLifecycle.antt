-- ===== src/RunLifecycle.antt =====
-- The lifecycle of a run in src/orchestrator/run-lifecycle.ts, the watcher's part of it in
-- src/dashboard-server/live.ts and the runner's in src/runner.ts, over the tables of Runs. A run
-- that is not found throws in some of these functions: that is `none`.
pub mod Steps
pub mod Claims
pub mod Settled
pub mod Gate
pub mod Recovery
pub mod Rows
mod Examples
use ai_model_arena.Common.{
  ℕ, ◌+◌, ◌-◌, ◌*◌, Bool, true, false, not, ◌&&◌, ◌||◌, Option, none, some, String, str_eq, List,
  [], ◌∷◌, ◌++◌, map, if◌then◌else◌, leb, ltb, ◌==◌,
}
use ai_model_arena.Runs.{
  RunStatus, running, finalizing, completed, stopped, failed, errored, RunModel, Run, RunTables,
  is_terminal, same_status, is_finalizing, update_where, update_models, finalize_stale_ms,
  mark_run_cancelled, clear_run_cancelled, upsert_run,
}

abbrev pub all_rows : (RunModel → Bool) → List RunModel → Bool
all_rows test [] = true
all_rows test (m ∷ ms) = test m && all_rows test ms

abbrev pub some_row : (RunModel → Bool) → List RunModel → Bool
some_row test [] = false
some_row test (m ∷ ms) = test m || some_row test ms

abbrev pub row_is_terminal : RunModel → Bool
row_is_terminal m = is_terminal m.status

abbrev pub all_terminal : List RunModel → Bool
all_terminal [] = false
all_terminal (m ∷ ms) = all_rows row_is_terminal (m ∷ ms)

abbrev pub is_complete_found : Option Run → Bool
is_complete_found none = false
is_complete_found (some r) = all_terminal r.per_model

unfoldable pub is_run_complete_by_run_id : RunTables → Bool
is_run_complete_by_run_id t = is_complete_found t.run

abbrev older_than : ℕ → ℕ → Option ℕ → Bool
older_than age now none = true
older_than age now (some at) = leb age (now - at)

unfoldable pub should_attempt_finalize : ℕ → Run → Bool
should_attempt_finalize now r =
    if same_status r.status running || same_status r.status stopped
    then true
    else if not (is_finalizing r.status)
    then false
    else older_than finalize_stale_ms now r.finished_at

abbrev pub stop_finalize_grace_ms : ℕ
stop_finalize_grace_ms = 10 * 60 * 1000

abbrev within : ℕ → ℕ → Option ℕ → Bool
within age now none = false
within age now (some at) = ltb (now - at) age

unfoldable pub is_stop_awaiting_runner : ℕ → Bool → Run → Bool
is_stop_awaiting_runner now cancel_signal_active r =
    if not (same_status r.status stopped) || not cancel_signal_active
    then false
    else within stop_finalize_grace_ms now r.finished_at

unfoldable pub is_stop_grace_elapsed : ℕ → Run → Bool
is_stop_grace_elapsed now r =
    if not (same_status r.status stopped)
    then false
    else older_than stop_finalize_grace_ms now r.finished_at

abbrev pub set_status : RunStatus → RunModel → RunModel
set_status status m = record m { status = status }

unfoldable pub force_stop_non_terminal_models : RunTables → RunTables
force_stop_non_terminal_models t =
    update_models (λ m. not (row_is_terminal m)) (set_status stopped) t

unfoldable pub fail_non_terminal_models : RunTables → RunTables
fail_non_terminal_models t = update_models (λ m. not (row_is_terminal m)) (set_status failed) t

-- `stale_after` is what `runStaleAfterMs` reads from the environment.
unfoldable pub is_stale_running_run : ℕ → ℕ → Run → Bool
is_stale_running_run stale_after now r =
    if not (same_status r.status running) then false else leb stale_after (now - r.started_at)

abbrev pub run_stale_after_ms : ℕ
run_stale_after_ms = 6 * 60 * 60 * 1000

unfoldable pub mark_run_reaped : ℕ → RunTables → RunTables × Bool
mark_run_reaped now t =
    update_where (λ r. same_status r.status running) (λ r. record r { reaped_at = some now }) t

abbrev pub prepare_found : ℕ → Option Run → RunTables → RunTables × Bool
prepare_found now none t = (t, false)
prepare_found now (some r) t =
    if is_stop_awaiting_runner now t.cancelled r
    then (t, false)
    else if is_run_complete_by_run_id t
    then (t, true)
    else if same_status r.status stopped && is_stop_grace_elapsed now r
    then (force_stop_non_terminal_models t, true)
    else (t, false)

-- Whether the caller may attempt finalization, with the tables after forced stops.
unfoldable pub prepare_run_finalization : ℕ → RunTables → RunTables × Bool
prepare_run_finalization now t = prepare_found now t.run t

abbrev if_found : Option Run → RunTables → Option RunTables
if_found none t = none
if_found (some r) t = some t

abbrev stop_written : RunTables × Bool → Option RunTables
stop_written (t, true) = some (mark_run_cancelled t)
stop_written (t, false) = if_found t.run t

-- `none` is the error that the run is not found.
unfoldable pub stop_run : ℕ → RunTables → Option RunTables
stop_run now t = stop_written (
    update_where (λ r. not (is_terminal r.status || is_finalizing r.status))
      (λ r. record r { status = stopped; finished_at = some now }) t)

abbrev pub reset_row : RunModel → RunModel
reset_row m = record m { status = running; success = none }

abbrev pub reset : ℕ → Run → Run
reset now r = record r {
  status = running;
  started_at = now;
  finished_at = none;
  reaped_at = none;
  per_model = map reset_row r.per_model;
}

abbrev restart_found : ℕ → Option Run → RunTables → Option RunTables
restart_found now none t = none
restart_found now (some r) t = some (clear_run_cancelled (upsert_run (reset now r) t))

-- What `restartRun` does to the tables with nothing between its read, its upsert and its removal of the
-- signal. The tasks that it enqueues are left out.
unfoldable pub restart_run : ℕ → RunTables → Option RunTables
restart_run now t = restart_found now t.run t

abbrev pub fresh_row : String → RunModel
fresh_row model = record {
  model = model;
  status = running;
  success = none;
  turns_used = none;
  total_tool_calls = none;
  stop_reason = none;
  duration_ms = none;
  claimed_at = none;
  started_at = none;
  completed_at = none;
  runner_id = none;
}

abbrev terminal_in : String → List RunModel → Bool
terminal_in model [] = false
terminal_in model (m ∷ ms) =
    if str_eq m.model model then row_is_terminal m else terminal_in model ms

-- The rows that a registration writes: those of the models without a terminal row.
unfoldable pub new_rows : List RunModel → List String → List RunModel
new_rows existing [] = []
new_rows existing (model ∷ models) =
    let rest = new_rows existing models in
    if terminal_in model existing then rest else fresh_row model ∷ rest

abbrev pub registered : ℕ → ℕ → List RunModel → Run
registered started_at attempt rows = record {
  status = running;
  started_at = started_at;
  finished_at = none;
  reaped_at = none;
  finalization_attempt = attempt;
  comparison = none;
  per_model = rows;
}

-- The record that a registration upserts, if it does, from the one that it read.
abbrev pub register_record : ℕ → List String → Option Run → Option Run
register_record started_at models none = some (registered started_at 0 (new_rows [] models))
register_record started_at models (some r) =
    if is_terminal r.status || is_finalizing r.status
    then none
    else some (registered started_at r.finalization_attempt (new_rows r.per_model models))

abbrev pub upsert_if : Option Run → RunTables → RunTables
upsert_if none t = t
upsert_if (some r) t = upsert_run r t

-- `registerRun` with nothing between its read and its upsert.
unfoldable pub register_run : ℕ → List String → RunTables → RunTables
register_run started_at models t = upsert_if (register_record started_at models t.run) t

-- The watcher's look at one run: `r` is the record that it read, which may be older than the tables.
unfoldable pub reconcile_stale_running_run : ℕ → ℕ → Run → RunTables → RunTables × Bool
reconcile_stale_running_run stale_after now r t =
    if not (is_stale_running_run stale_after now r)
    then (t, false)
    else if t.cancelled
    then (t, false)
    else (fail_non_terminal_models (mark_run_reaped now t).0, true)

-- The runner's acknowledgement of a stop.
unfoldable pub acknowledge_stop : RunTables → RunTables
acknowledge_stop t =
    if not t.cancelled
    then t
    else if not (is_run_complete_by_run_id t)
    then t
    else clear_run_cancelled t
