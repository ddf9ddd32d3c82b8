-- ===== src/RunLifecycle/Examples.antt =====
-- The theorems on the lifecycle of a run at a run of two models, and tests.
use ai_model_arena.Common.{
  ℕ, ◌≡◌, refl, true, false, none, some, str_eq, List, [], ◌∷◌, arith, if◌then◌else◌,
}
use ai_model_arena.Runs.{
  running, completed, stopped, Run, RunTables, status_code, finalize_stale_ms,
  claim_run_finalization, transition_task_state, upsert_run, upsert_rows, upsert_row,
}
use ai_model_arena.RunLifecycle.{
  fresh_row, registered, register_run, new_rows, prepare_run_finalization,
  is_run_complete_by_run_id, is_stop_awaiting_runner, is_stop_grace_elapsed, is_stale_running_run,
  reconcile_stale_running_run, force_stop_non_terminal_models, run_stale_after_ms,
}
use ai_model_arena.RunLifecycle.Steps.{
  Event, claims, stops, patches, transitions, acknowledges, step, run, reads, registers, unread,
  update,
}
use ai_model_arena.RunLifecycle.Claims.{claim-run-claim_lost}
use ai_model_arena.RunLifecycle.Settled.{outcome_of, run-settled}
use ai_model_arena.RunLifecycle.Gate.{AreTerminal, rows_of, IsReleased, prepare-IsReady}
use ai_model_arena.RunLifecycle.Recovery.{reaped, stop-run-finalizes, reconcile-finalizes}
use ai_model_arena.RunLifecycle.Rows.{
  status_of, moved, status_of-transition_task_state, force_stop-overwritten,
}

abbrev going : Run
going = registered 1000 0 (fresh_row "a" ∷ fresh_row "b" ∷ [])

abbrev tables : RunTables
tables = record { run = some going; cancelled = false }

abbrev over : RunTables
over = record {
  run = some (record going { status = completed; finalization_attempt = 1 });
  cancelled = false;
}

abbrev halted : Run
halted = record going { status = stopped; finished_at = some 2000 }

abbrev halted_tables : RunTables
halted_tables = record { run = some halted; cancelled = true }

abbrev history : List (ℕ × Event)
history =
    (2000, claims) ∷ (2500, reads) ∷ (3000, stops) ∷ (4000, patches 0 ("r.md", "r.json") []) ∷ []

registered_tables :
    register_run 1000 ("a" ∷ "b" ∷ []) (record { run = none; cancelled = false }) ≡ tables
unfolding register_run new_rows upsert_run upsert_rows upsert_row
registered_tables = refl

first_wins : (claim_run_finalization 1000 finalize_stale_ms tables).1 ≡ some 1
unfolding claim_run_finalization status_code
first_wins = refl

claim-run-claim_lost_example :
    (claim_run_finalization 5000 finalize_stale_ms
      (run history (unread (claim_run_finalization 1000 finalize_stale_ms tables).0)).tables).1
    ≡ none
claim-run-claim_lost_example =
    claim-run-claim_lost tables 1000 1 5000 history first_wins (omega arith, (tt, (tt, (tt, tt))))
      (omega arith)

run-settled_example :
    (outcome_of (run history (unread over)).tables ≡ some (completed, 1))
    × ((claim_run_finalization 9_000_000 finalize_stale_ms (run history (unread over)).tables).1
        ≡ none)
run-settled_example =
    run-settled completed 1 9_000_000 history over refl (tt, (tt, (tt, (tt, tt)))) refl

held_back : (prepare_run_finalization 3000 halted_tables).1 ≡ false
unfolding prepare_run_finalization is_stop_awaiting_runner status_code
held_back = refl

let_through : (prepare_run_finalization 700_000 halted_tables).1 ≡ true
unfolding prepare_run_finalization is_stop_awaiting_runner is_run_complete_by_run_id
    is_stop_grace_elapsed status_code
let_through = refl

prepare-IsReady_example :
    AreTerminal (rows_of (prepare_run_finalization 700_000 halted_tables).0)
    × IsReleased 700_000 true halted
prepare-IsReady_example = prepare-IsReady 700_000 halted halted_tables refl let_through

abbrev runners : List (ℕ × Event)
runners = (3000, transitions "a" stopped (some "r1")) ∷ (4000, acknowledges) ∷ []

stop-run-finalizes_example :
    ((prepare_run_finalization 700_000 (run runners (step 2000 stops (unread tables))).tables).1
      ≡ true)
    × ((claim_run_finalization 700_000 finalize_stale_ms
          (prepare_run_finalization 700_000
            (run runners (step 2000 stops (unread tables))).tables).0).1
        ≡ some 1)
stop-run-finalizes_example =
    stop-run-finalizes 2000 700_000 going tables runners refl refl (unfold status_code in refl)
      (tt, (tt, tt)) (omega arith)

is_stale : is_stale_running_run run_stale_after_ms 30_000_000 going ≡ true
unfolding is_stale_running_run status_code
is_stale = refl

reconcile-finalizes_example :
    ((reconcile_stale_running_run run_stale_after_ms 30_000_000 going tables).0.run
      ≡ some (reaped 30_000_000 going))
    × ((prepare_run_finalization 30_000_000
            (reconcile_stale_running_run run_stale_after_ms 30_000_000 going tables).0
          ≡ ((reconcile_stale_running_run run_stale_after_ms 30_000_000 going tables).0, true))
        × ((claim_run_finalization 30_000_000 finalize_stale_ms
              (reconcile_stale_running_run run_stale_after_ms 30_000_000 going tables).0).1
            ≡ some 1))
reconcile-finalizes_example =
    reconcile-finalizes run_stale_after_ms 30_000_000 going tables (fresh_row "a")
      (fresh_row "b" ∷ []) refl refl is_stale refl

status_of-transition_task_state_test :
    status_of "a" (transition_task_state 5 "a" completed (some "r1") tables)
    ≡ (if str_eq "a" "a" then moved completed (status_of "a" tables) else status_of "a" tables)
status_of-transition_task_state_test =
    status_of-transition_task_state 5 "a" "a" completed (some "r1") tables

force_stop-overwritten_test :
    (status_of "a" (force_stop_non_terminal_models tables) ≡ some stopped)
    × (status_of "a" (
          transition_task_state 9 "a" completed (some "r1") (force_stop_non_terminal_models tables))
        ≡ some stopped)
    × (status_of "a" (
          transition_task_state 9 "a" completed (some "r1") (
            transition_task_state 8 "a" running
              (some "r1")
              (force_stop_non_terminal_models tables)))
        ≡ some completed)
force_stop-overwritten_test = force_stop-overwritten 8 9 "a" (some "r1") tables running refl refl

-- A registration that read the running run before a claim and upserts after it puts the status back, and a
-- second finalizer wins a claim beside the first.
stale_upsert_test :
    let late =
      run ((1000, reads) ∷ (1100, claims) ∷ (1200, registers 0 1000 []) ∷ []) (unread tables) in
    outcome_of late.tables ≡ some (running, 1)
    × (claim_run_finalization 1300 finalize_stale_ms late.tables).1 ≡ some 2
unfolding run step update claim_run_finalization status_code upsert_run
stale_upsert_test = (refl, refl)
