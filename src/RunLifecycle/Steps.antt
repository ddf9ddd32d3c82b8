-- ===== src/RunLifecycle/Steps.antt =====
-- Histories of one run: the updates that the runners, the watcher, the command line and the
-- dashboard make of its tables, in src/orchestrator/run-lifecycle.ts,
-- src/orchestrator/finalize/aggregate.ts, src/db/query/runs.ts, src/db/runs.ts and src/runner.ts, in any
-- order. A call that reads the record and upserts it later is two events, with any others in between.
use ai_model_arena.Common.{
  ℕ, Bool, Option, none, some, String, List, [], ◌∷◌, ◌++◌, if◌then◌else◌, get_elem?,
}
use ai_model_arena.Runs.{
  RunStatus, completed, errored, Run, RunTables, ModelEntry, finalize_stale_ms,
  transition_task_state, claim_run_finalization, complete_run_finalization, patched, update_run,
  clear_run_cancelled,
}
use ai_model_arena.RunLifecycle.{
  stop_run, reset, register_record, upsert_if, mark_run_reaped, fail_non_terminal_models,
  prepare_run_finalization, acknowledge_stop,
}

-- The tables, and what each read of the record has returned, in the order of the reads.
pub record World : Type 0 where
  pub tables : RunTables
  pub seen : List (Option Run)

-- `read` is the number of the read whose record a call writes back.
pub data Event : Type 0 where
  claims : Event
  reads : Event
  patches : (read : ℕ) → String × String → List ModelEntry → Event
  completes : (as_errored : Bool) → Event
  stops clears : Event
  restarts : (read : ℕ) → Event
  registers : (read started_at : ℕ) → List String → Event
  reaps fails_rows prepares acknowledges : Event
  transitions : (model : String) → RunStatus → Option String → Event

abbrev pub or_same : RunTables → Option RunTables → RunTables
or_same t none = t
or_same t (some t') = t'

-- The upsert of a mutated record; a read that is not there writes nothing.
abbrev pub write_back : (Run → Run) → Option (Option Run) → RunTables → RunTables
write_back mutator none t = t
write_back mutator (some o) t = update_run mutator o t

abbrev pub register_read : ℕ → List String → Option (Option Run) → RunTables → RunTables
register_read started_at models none t = t
register_read started_at models (some o) t = upsert_if (register_record started_at models o) t

-- An event on the tables, by the reads so far.
unfoldable pub update : ℕ → Event → List (Option Run) → RunTables → RunTables
update now claims seen t = (claim_run_finalization now finalize_stale_ms t).0
update now reads seen t = t
update now (patches read paths entries) seen t =
    write_back (patched now paths entries) (get_elem? seen read) t
update now (completes as_errored) seen t =
    (complete_run_finalization (if as_errored then errored else completed) t).0
update now stops seen t = or_same t (stop_run now t)
update now clears seen t = clear_run_cancelled t
update now (restarts read) seen t = write_back (reset now) (get_elem? seen read) t
update now (registers read started_at models) seen t =
    register_read started_at models (get_elem? seen read) t
update now reaps seen t = (mark_run_reaped now t).0
update now fails_rows seen t = fail_non_terminal_models t
update now prepares seen t = (prepare_run_finalization now t).0
update now acknowledges seen t = acknowledge_stop t
update now (transitions model status runner) seen t =
    transition_task_state now model status runner t

abbrev pub note_read : Event → RunTables → List (Option Run) → List (Option Run)
note_read reads t seen = seen ++ t.run ∷ []
note_read _ t seen = seen

unfoldable pub step : ℕ → Event → World → World
step now e w = record { tables = update now e w.seen w.tables; seen = note_read e w.tables w.seen }

unfoldable pub run : List (ℕ × Event) → World → World
run [] w = w
run ((now, e) ∷ es) w = run es (step now e w)

-- No read of the record is still to be written back.
abbrev pub unread : RunTables → World
unread t = record { tables = t; seen = [] }
