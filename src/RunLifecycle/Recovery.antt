-- ===== src/RunLifecycle/Recovery.antt =====
-- The recovery of a run whose runners died: src/orchestrator/run-lifecycle.ts and
-- src/dashboard-server/live.ts.
use ai_model_arena.Common.{ℕ, ◌+◌, ◌≤◌, ◌≡◌, refl, true, false, not, some, List, [], ◌∷◌, arith}
use ai_model_arena.Runs.{
  stopped, running, failed, Run, RunModel, RunTables, status_code, is_terminal, update_rows,
  is_finalizing, finalize_stale_ms, clear_run_cancelled, mark_run_cancelled, claim_run_finalization,
  complete_run_finalization, patched, transition_task_state,
}
use ai_model_arena.RunLifecycle.{
  stop_run, mark_run_reaped, fail_non_terminal_models, prepare_run_finalization,
  is_stop_grace_elapsed, force_stop_non_terminal_models, acknowledge_stop,
  is_run_complete_by_run_id, is_stop_awaiting_runner, stop_finalize_grace_ms, all_rows,
  row_is_terminal, set_status, is_stale_running_run, reconcile_stale_running_run,
}
use ai_model_arena.RunLifecycle.Steps.{
  Event, claims, patches, completes, stops, restarts, registers, reaps, fails_rows, prepares,
  acknowledges, transitions, step, run, or_same, clears, reads, World, unread, update, write_back,
  register_read,
}
use ai_model_arena.RunLifecycle.Claims.{
  claim_of, HasClaim, Holds, written_back, note_read-All, patches-claim, registers-claim,
}

-- The events of a stopped run before its finalization: all but a claim and a restart.
abbrev pub IsWaiting : ℕ × Event → Type 0
IsWaiting (now, claims) = false ≡ true
IsWaiting (now, restarts read) = false ≡ true
IsWaiting (now, _) = Unit

abbrev pub AreWaiting : List (ℕ × Event) → Type 0
AreWaiting [] = Unit
AreWaiting (e ∷ es) = IsWaiting e × AreWaiting es

update-stopped :
    (at n now : ℕ) (e : Event) (w : World)
    → IsWaiting (now, e)
    → Holds (stopped, some at, n) w
    → claim_of (update now e w.seen w.tables) ≡ some (stopped, some at, n)
unfolding update complete_run_finalization stop_run mark_run_reaped fail_non_terminal_models
    prepare_run_finalization is_stop_awaiting_runner is_stop_grace_elapsed
    force_stop_non_terminal_models acknowledge_stop clear_run_cancelled transition_task_state
    status_code
update-stopped at n now claims w i (h, seen) = ground arith
update-stopped at n now reads w i (h, seen) = h
update-stopped at n now (patches read paths entries) w i (h, seen) =
    written_back (HasClaim (stopped, some at, n))
      (λ (t : RunTables). claim_of t ≡ some (stopped, some at, n))
      (λ o. write_back (patched now paths entries) o w.tables) w.seen read seen h
      (λ o p. patches-claim stopped at n now paths entries o w.tables p h)
update-stopped at n now (completes as_errored) w i (h, seen) = ground arith
update-stopped at n now stops w i (h, seen) = ground arith
update-stopped at n now clears w i (h, seen) = h
update-stopped at n now (restarts read) w i (h, seen) = ground arith
update-stopped at n now (registers read started_at models) w i (h, seen) =
    written_back (HasClaim (stopped, some at, n))
      (λ (t : RunTables). claim_of t ≡ some (stopped, some at, n))
      (λ o. register_read started_at models o w.tables) w.seen read seen h
      (λ o p. registers-claim stopped at n started_at models o w.tables refl p h)
update-stopped at n now reaps w i (h, seen) = ground arith
update-stopped at n now fails_rows w i (h, seen) = ground arith
update-stopped at n now prepares w i (h, seen) = ground arith
update-stopped at n now acknowledges w i (h, seen) = ground arith
update-stopped at n now (transitions model status runner) w i (h, seen) = ground arith

step-stopped :
    (at n now : ℕ) (e : Event) (w : World)
    → IsWaiting (now, e)
    → Holds (stopped, some at, n) w
    → Holds (stopped, some at, n) (step now e w)
unfolding step
step-stopped at n now e w i h = (
  update-stopped at n now e w i h,
  note_read-All (HasClaim (stopped, some at, n)) e w.tables w.seen h.0 h.1,
)

run-stopped :
    (at n : ℕ) (es : List (ℕ × Event)) (w : World)
    → AreWaiting es
    → Holds (stopped, some at, n) w
    → claim_of (run es w).tables ≡ some (stopped, some at, n)
unfolding run
run-stopped at n [] w i h = h.0
run-stopped at n ((now, e) ∷ es) w i h =
    run-stopped at n es (step now e w) i.1 (step-stopped at n now e w i.0 h)

stopped-prepare :
    (at n now : ℕ) (t : RunTables)
    → at + stop_finalize_grace_ms ≤ now
    → claim_of t ≡ some (stopped, some at, n)
    → (prepare_run_finalization now t).1 ≡ true
unfolding prepare_run_finalization is_stop_awaiting_runner is_stop_grace_elapsed status_code
stopped-prepare at n now t past h = ground arith

stopped-claim :
    (at n now : ℕ) (t : RunTables)
    → claim_of t ≡ some (stopped, some at, n)
    → (claim_run_finalization now finalize_stale_ms t).1 ≡ some (n + 1)
unfolding claim_run_finalization status_code
stopped-claim at n now t h = ground arith

stop_run-stopped :
    (at : ℕ) (r : Run) (t : RunTables)
    → t.run ≡ some r
    → is_terminal r.status ≡ false
    → is_finalizing r.status ≡ false
    → claim_of (or_same t (stop_run at t)) ≡ some (stopped, some at, r.finalization_attempt)
unfolding stop_run mark_run_cancelled
stop_run-stopped at r t e open_ free = rw (e, open_, free) refl

stops-stopped :
    (at : ℕ) (r : Run) (t : RunTables)
    → t.run ≡ some r
    → is_terminal r.status ≡ false
    → is_finalizing r.status ≡ false
    → Holds (stopped, some at, r.finalization_attempt) (step at stops (unread t))
unfolding step update
stops-stopped at r t e open_ free = (stop_run-stopped at r t e open_ free, tt)

-- A run that is stopped while it is neither over nor being finalized, and while no call is between its
-- read of the record and its upsert, can be finalized once the grace window is over, whatever its
-- runners did or did not do since, if there was no claim and no restart: the gate admits it and the
-- claim wins, as a new attempt.
pub stop-run-finalizes :
    (at now : ℕ) (r : Run) (t : RunTables) (es : List (ℕ × Event))
    → t.run ≡ some r
    → is_terminal r.status ≡ false
    → is_finalizing r.status ≡ false
    → AreWaiting es
    → at + stop_finalize_grace_ms ≤ now
    → let gate = prepare_run_finalization now (run es (step at stops (unread t))).tables in
      (gate.1 ≡ true)
      × ((claim_run_finalization now finalize_stale_ms gate.0).1
          ≡ some (r.finalization_attempt + 1))
stop-run-finalizes at now r t es e open_ free w past = (
  stopped-prepare at n now after past waiting,
  stopped-claim at n now (prepare_run_finalization now after).0 gated,
)
  where
    n : ℕ
    n = r.finalization_attempt

    after : RunTables
    after = (run es (step at stops (unread t))).tables

    waiting : claim_of after ≡ some (stopped, some at, n)
    waiting = run-stopped at n es (step at stops (unread t)) w (stops-stopped at r t e open_ free)

    gated : claim_of (prepare_run_finalization now after).0 ≡ some (stopped, some at, n)
    gated = unfold update in update-stopped at n now prepares (unread after) tt (waiting, tt)

abbrev pub reaped : ℕ → Run → Run
reaped now r = record r {
  reaped_at = some now;
  per_model = update_rows (λ m. not (row_is_terminal m)) (set_status failed) r.per_model;
}

-- The state that a watcher leaves of a stale run, if no signal is set.
reconcile-tables :
    (stale_after now : ℕ) (r : Run) (t : RunTables)
    → t.run ≡ some r
    → t.cancelled ≡ false
    → is_stale_running_run stale_after now r ≡ true
    → reconcile_stale_running_run stale_after now r t
      ≡ (record { run = some (reaped now r); cancelled = false }, true)
unfolding reconcile_stale_running_run mark_run_reaped fail_non_terminal_models is_stale_running_run
    status_code
reconcile-tables stale_after now r t e off stale = ground arith

forced_complete :
    (m : RunModel) (ms : List RunModel)
    → all_rows row_is_terminal
        (update_rows (λ m. not (row_is_terminal m)) (set_status failed) (m ∷ ms))
      ≡ true
forced_complete m [] = ground arith
forced_complete m (k ∷ ks) = ground (arith, forced_complete k ks)

abbrev pub reaped_tables : ℕ → Run → RunTables
reaped_tables now r = record { run = some (reaped now r); cancelled = false }

reaped-prepare :
    (now : ℕ) (r : Run) (m : RunModel) (ms : List RunModel)
    → r.status ≡ running
    → r.per_model ≡ m ∷ ms
    → prepare_run_finalization now (reaped_tables now r) ≡ (reaped_tables now r, true)
unfolding prepare_run_finalization is_stop_awaiting_runner is_run_complete_by_run_id status_code
reaped-prepare now r m ms status rows = ground (arith, status, rows, forced_complete m ms)

reaped-claim :
    (now : ℕ) (r : Run)
    → r.status ≡ running
    → (claim_run_finalization now finalize_stale_ms (reaped_tables now r)).1
      ≡ some (r.finalization_attempt + 1)
unfolding claim_run_finalization status_code
reaped-claim now r status = ground arith

stale-running :
    (stale_after now : ℕ) (r : Run)
    → is_stale_running_run stale_after now r ≡ true
    → r.status ≡ running
unfolding is_stale_running_run status_code
stale-running stale_after now r h = ground arith

-- If the watcher reads a run with some row that is still running too long after its start, and no
-- cancel signal is set, then it marks the run as reaped and its open rows as failed, and its gate
-- and its claim then succeed.
pub reconcile-finalizes :
    (stale_after now : ℕ) (r : Run) (t : RunTables) (m : RunModel) (ms : List RunModel)
    → t.run ≡ some r
    → t.cancelled ≡ false
    → is_stale_running_run stale_after now r ≡ true
    → r.per_model ≡ m ∷ ms
    → let u = (reconcile_stale_running_run stale_after now r t).0 in
      (u.run ≡ some (reaped now r))
      × ((prepare_run_finalization now u ≡ (u, true))
          × ((claim_run_finalization now finalize_stale_ms u).1
              ≡ some (r.finalization_attempt + 1)))
reconcile-finalizes stale_after now r t m ms e off stale rows =
    let status = stale-running stale_after now r stale in
    rw (reconcile-tables stale_after now r t e off stale)
      (refl, (reaped-prepare now r m ms status rows, reaped-claim now r status))
