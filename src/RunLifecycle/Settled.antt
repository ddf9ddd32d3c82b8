-- ===== src/RunLifecycle/Settled.antt =====
-- A run that is over stays so: src/orchestrator/finalize/aggregate.ts with
-- src/orchestrator/run-lifecycle.ts.
use ai_model_arena.Common.{
  ℕ, String, ◌||◌, ◌≡◌, Bool, true, false, Option, none, some, List, [], ◌∷◌, arith, All,
}
use ai_model_arena.Runs.{
  RunStatus, ModelEntry, is_terminal, is_finalizing, completed, errored, failed, dead, status_code,
  Run, RunTables, finalize_stale_ms, clear_run_cancelled, claim_run_finalization,
  complete_run_finalization, patched, upsert_run, transition_task_state,
}
use ai_model_arena.RunLifecycle.{
  stop_run, mark_run_reaped, fail_non_terminal_models, prepare_run_finalization,
  is_stop_grace_elapsed, acknowledge_stop, is_stop_awaiting_runner,
}
use ai_model_arena.RunLifecycle.Steps.{
  Event, claims, patches, completes, stops, restarts, registers, reaps, fails_rows, prepares,
  acknowledges, transitions, step, run, clears, reads, World, unread, update, write_back,
  register_read,
}
use ai_model_arena.RunLifecycle.Claims.{written_back, note_read-All}

-- The statuses of a run that is over. A stopped run is not: it still waits for its finalization.
abbrev pub settled : RunStatus → Bool
settled completed = true
settled errored = true
settled failed = true
settled dead = true
settled _ = false

-- The status of a run and its number of attempts.
abbrev outcome_found : Option Run → Option (RunStatus × ℕ)
outcome_found none = none
outcome_found (some r) = some (r.status, r.finalization_attempt)

abbrev pub outcome_of : RunTables → Option (RunStatus × ℕ)
outcome_of t = outcome_found t.run

abbrev pub NoRestart : ℕ × Event → Type 0
NoRestart (now, restarts read) = false ≡ true
NoRestart (now, _) = Unit

abbrev pub NoRestarts : List (ℕ × Event) → Type 0
NoRestarts [] = Unit
NoRestarts (e ∷ es) = NoRestart e × NoRestarts es

abbrev HasOutcome : RunStatus × ℕ → Option Run → Type 0
HasOutcome c o = outcome_found o ≡ some c

abbrev IsSettled : RunStatus × ℕ → World → Type 0
IsSettled c w = (outcome_of w.tables ≡ some c) × All (HasOutcome c) w.seen

patches-outcome :
    (s : RunStatus) (n now : ℕ) (paths : String × String) (entries : List ModelEntry)
    (o : Option Run) (t : RunTables)
    → HasOutcome (s, n) o
    → outcome_of t ≡ some (s, n)
    → outcome_of (write_back (patched now paths entries) (some o) t) ≡ some (s, n)
unfolding upsert_run
patches-outcome s n now paths entries o t seen h = ground arith

settled-terminal : (s : RunStatus) → settled s ≡ true → is_terminal s || is_finalizing s ≡ true
settled-terminal s h = ground arith

registers-outcome :
    (s : RunStatus) (n started_at : ℕ) (models : List String) (o : Option Run) (t : RunTables)
    → settled s ≡ true
    → HasOutcome (s, n) o
    → outcome_of t ≡ some (s, n)
    → outcome_of (register_read started_at models (some o) t) ≡ some (s, n)
unfolding upsert_run
registers-outcome s n started_at models none t over seen h = cc
registers-outcome s n started_at models (some r) t over seen h =
    let same : r.status ≡ s = ground (arith, seen) in rw (same, settled-terminal s over) h

update-settled :
    (s : RunStatus) (n now : ℕ) (e : Event) (w : World)
    → settled s ≡ true
    → NoRestart (now, e)
    → IsSettled (s, n) w
    → outcome_of (update now e w.seen w.tables) ≡ some (s, n)
unfolding update claim_run_finalization complete_run_finalization stop_run mark_run_reaped
    fail_non_terminal_models prepare_run_finalization is_stop_awaiting_runner is_stop_grace_elapsed
    acknowledge_stop clear_run_cancelled transition_task_state status_code
update-settled s n now claims w o i (h, seen) = ground arith
update-settled s n now reads w o i (h, seen) = h
update-settled s n now (patches read paths entries) w o i (h, seen) =
    written_back (HasOutcome (s, n)) (λ (t : RunTables). outcome_of t ≡ some (s, n))
      (λ x. write_back (patched now paths entries) x w.tables) w.seen read seen h
      (λ x p. patches-outcome s n now paths entries x w.tables p h)
update-settled s n now (completes as_errored) w o i (h, seen) = ground arith
update-settled s n now stops w o i (h, seen) = ground arith
update-settled s n now clears w o i (h, seen) = h
update-settled s n now (restarts read) w o i (h, seen) = ground arith
update-settled s n now (registers read started_at models) w o i (h, seen) =
    written_back (HasOutcome (s, n)) (λ (t : RunTables). outcome_of t ≡ some (s, n))
      (λ x. register_read started_at models x w.tables) w.seen read seen h
      (λ x p. registers-outcome s n started_at models x w.tables o p h)
update-settled s n now reaps w o i (h, seen) = ground arith
update-settled s n now fails_rows w o i (h, seen) = ground arith
update-settled s n now prepares w o i (h, seen) = ground arith
update-settled s n now acknowledges w o i (h, seen) = ground arith
update-settled s n now (transitions model status runner) w o i (h, seen) = ground arith

step-settled :
    (s : RunStatus) (n now : ℕ) (e : Event) (w : World)
    → settled s ≡ true
    → NoRestart (now, e)
    → IsSettled (s, n) w
    → IsSettled (s, n) (step now e w)
unfolding step
step-settled s n now e w o i h =
    (update-settled s n now e w o i h, note_read-All (HasOutcome (s, n)) e w.tables w.seen h.0 h.1)

settled-run :
    (s : RunStatus) (n : ℕ) (es : List (ℕ × Event)) (w : World)
    → settled s ≡ true
    → NoRestarts es
    → IsSettled (s, n) w
    → outcome_of (run es w).tables ≡ some (s, n)
unfolding run
settled-run s n [] w o i h = h.0
settled-run s n ((at, e) ∷ es) w o i h =
    settled-run s n es (step at e w) o i.1 (step-settled s n at e w o i.0 h)

settled-claim_lost :
    (s : RunStatus) (n now : ℕ) (t : RunTables)
    → settled s ≡ true
    → outcome_of t ≡ some (s, n)
    → (claim_run_finalization now finalize_stale_ms t).1 ≡ none
unfolding claim_run_finalization status_code
settled-claim_lost s n now t over h = ground arith

-- The status and the number of attempts of a settled run stay, and no claim of it wins, after any
-- history without a restart, if no call was between its read of the record and its upsert when the run
-- settled.
pub run-settled :
    (s : RunStatus) (n now : ℕ) (es : List (ℕ × Event)) (t : RunTables)
    → settled s ≡ true
    → NoRestarts es
    → outcome_of t ≡ some (s, n)
    → outcome_of (run es (unread t)).tables ≡ some (s, n)
      × (claim_run_finalization now finalize_stale_ms (run es (unread t)).tables).1 ≡ none
run-settled s n now es t over w h =
    let stays = settled-run s n es (unread t) over w (h, tt) in
    (stays, settled-claim_lost s n now (run es (unread t)).tables over stays)
