-- ===== src/Runs.antt =====
-- The rows that src/db/schema.ts keeps of one run, with the conditional updates of them in
-- src/db/query/runs.ts, src/db/runs.ts and src/orchestrator/finalize/aggregate.ts, and the cancel
-- signal of src/orchestrator/run-signals.ts. Every statement names the run in its WHERE clause, so the
-- model is the slice of the tables for one run id. An UPDATE reads its condition and writes in one
-- step, as the database does; `updateRun` and `upsertRun` of src/db/runs.ts read a record and write all of it. Times are milliseconds; the paths of a row and the columns that no
-- condition reads are left out.
use ai_model_arena.Common.{
  ℕ, ◌+◌, ◌*◌, Bool, true, false, not, ◌&&◌, ◌||◌, Option, none, some, String, str_eq, List, [],
  ◌∷◌, if◌then◌else◌, leb, ◌==◌,
}

pub data RunStatus : Type 0 where
  pending claimed running finalizing completed stopped failed dead errored unknown : RunStatus

unfoldable pub status_code : RunStatus → ℕ
status_code pending = 0
status_code claimed = 1
status_code running = 2
status_code finalizing = 3
status_code completed = 4
status_code stopped = 5
status_code failed = 6
status_code dead = 7
status_code errored = 8
status_code unknown = 9

abbrev pub same_status : RunStatus → RunStatus → Bool
same_status a b = status_code a == status_code b

abbrev pub is_terminal : RunStatus → Bool
is_terminal completed = true
is_terminal failed = true
is_terminal stopped = true
is_terminal dead = true
is_terminal errored = true
is_terminal _ = false

-- What a worker's result says of its run.
pub record RunOutcome : Type 0 where
  pub success : Bool
  pub turns_used : ℕ
  pub total_tool_calls : ℕ
  pub stop_reason : String
  pub duration_ms : ℕ

-- A row of `run_models`.
pub record RunModel : Type 0 where
  pub model : String
  pub status : RunStatus
  pub success : Option Bool
  pub turns_used : Option ℕ
  pub total_tool_calls : Option ℕ
  pub stop_reason : Option String
  pub duration_ms : Option ℕ
  pub claimed_at : Option ℕ
  pub started_at : Option ℕ
  pub completed_at : Option ℕ
  pub runner_id : Option String

-- A row of `runs` with its rows of `run_models`. `comparison` holds the two report paths.
pub record Run : Type 0 where
  pub status : RunStatus
  pub started_at : ℕ
  pub finished_at : Option ℕ
  pub reaped_at : Option ℕ
  pub finalization_attempt : ℕ
  pub comparison : Option (String × String)
  pub per_model : List RunModel

-- `run` is the row of the run id, if it is there; `cancelled` says that the id is in the signal's set.
pub record RunTables : Type 0 where
  pub run : Option Run
  pub cancelled : Bool

-- UPDATE ... WHERE ... RETURNING: whether a row was written.
abbrev update_found : (Run → Bool) → (Run → Run) → Option Run → RunTables → RunTables × Bool
update_found cond set none t = (t, false)
update_found cond set (some r) t =
    if cond r then (record t { run = some (set r) }, true) else (t, false)

abbrev pub update_where : (Run → Bool) → (Run → Run) → RunTables → RunTables × Bool
update_where cond set t = update_found cond set t.run t

-- An UPDATE of the rows of `run_models` that match.
abbrev pub update_rows : (RunModel → Bool) → (RunModel → RunModel) → List RunModel → List RunModel
update_rows cond set [] = []
update_rows cond set (m ∷ ms) = (if cond m then set m else m) ∷ update_rows cond set ms

abbrev update_models_found :
    (RunModel → Bool) → (RunModel → RunModel) → Option Run → RunTables → RunTables
update_models_found cond set none t = t
update_models_found cond set (some r) t = record t {
  run = some (record r { per_model = update_rows cond set r.per_model });
}

abbrev pub update_models : (RunModel → Bool) → (RunModel → RunModel) → RunTables → RunTables
update_models cond set t = update_models_found cond set t.run t

-- The timestamp columns that a transition writes.
unfoldable pub stamp : ℕ → RunStatus → Option String → RunModel → RunModel
stamp now claimed none m = record m { status = claimed; claimed_at = some now }
stamp now claimed (some runner) m = record m {
  status = claimed;
  claimed_at = some now;
  runner_id = if str_eq runner "" then m.runner_id else some runner;
}
stamp now running runner m = record m { status = running; started_at = some now }
stamp now completed runner m = record m { status = completed; completed_at = some now }
stamp now failed runner m = record m { status = failed; completed_at = some now }
stamp now dead runner m = record m { status = dead; completed_at = some now }
stamp now status runner m = record m { status = status }

-- A terminal status is not written over another one; no other status has a guard.
abbrev pub may_become : RunStatus → RunStatus → Bool
may_become new_status old =
    not (is_terminal new_status) || (not (is_terminal old) || same_status old new_status)

unfoldable pub transition_task_state :
    ℕ → String → RunStatus → Option String → RunTables → RunTables
transition_task_state now model new_status runner t =
    update_models (λ m. str_eq m.model model && may_become new_status m.status)
      (stamp now new_status runner) t

abbrev pub finalize_stale_ms : ℕ
finalize_stale_ms = 2 * 60 * 1000

abbrev pub is_finalizing : RunStatus → Bool
is_finalizing s = same_status s finalizing

abbrev pub is_finalizable : RunStatus → Bool
is_finalizable s = same_status s running || same_status s stopped || is_finalizing s

-- `isNull(finished_at) or finished_at <= now - staleMs`
abbrev pub is_claim_stale : ℕ → ℕ → Option ℕ → Bool
is_claim_stale now stale_ms none = true
is_claim_stale now stale_ms (some at) = leb (at + stale_ms) now

abbrev pub can_claim : ℕ → ℕ → Run → Bool
can_claim now stale_ms r =
    is_finalizable r.status
    && (not (is_finalizing r.status) || is_claim_stale now stale_ms r.finished_at)

abbrev pub next_attempt : Run → ℕ
next_attempt r =
    if is_finalizing r.status then r.finalization_attempt else r.finalization_attempt + 1

abbrev pub set_claim : ℕ → Run → Run
set_claim now r = record r {
  status = finalizing;
  finished_at = some now;
  finalization_attempt = next_attempt r;
}

abbrev pub claim_found : ℕ → ℕ → Option Run → RunTables → RunTables × Option ℕ
claim_found now stale_ms none t = (t, none)
claim_found now stale_ms (some r) t =
    if can_claim now stale_ms r
    then (record t { run = some (set_claim now r) }, some (next_attempt r))
    else (t, none)

-- The tables after the claim, with the attempt number of a claim that won.
unfoldable pub claim_run_finalization : ℕ → ℕ → RunTables → RunTables × Option ℕ
claim_run_finalization now stale_ms t = claim_found now stale_ms t.run t

unfoldable pub complete_run_finalization : RunStatus → RunTables → RunTables × Bool
complete_run_finalization status t =
    update_where (λ r. is_finalizing r.status) (λ r. record r { status = status }) t

-- An entry of the finished run: with the outcome of its result, or without a result.
pub record ModelEntry : Type 0 where
  pub model : String
  pub outcome : Option RunOutcome

-- `Object.assign(entry, m)`: an entry without a result leaves the outcome columns as they are.
abbrev pub assign : Option RunOutcome → RunModel → RunModel
assign none m = record m { status = errored }
assign (some outcome) m = record m {
  status = completed;
  success = some outcome.success;
  turns_used = some outcome.turns_used;
  total_tool_calls = some outcome.total_tool_calls;
  stop_reason = some outcome.stop_reason;
  duration_ms = some outcome.duration_ms;
}

abbrev pub assign_entry : ModelEntry → RunModel → RunModel
assign_entry e m = assign e.outcome m

-- `rec.perModel.find(...)` finds the one row of the model: the pair of run and model is a key.
unfoldable pub patch_rows : List ModelEntry → List RunModel → List RunModel
patch_rows [] ms = ms
patch_rows (e ∷ es) ms =
    patch_rows es (update_rows (λ m. str_eq m.model e.model) (assign_entry e) ms)

abbrev pub or_now : ℕ → Option ℕ → Option ℕ
or_now now none = some now
or_now now (some at) = some at

-- The columns of a row that a record does not have keep their value.
abbrev pub written_row : RunModel → RunModel → RunModel
written_row m old = record m {
  claimed_at = old.claimed_at;
  started_at = old.started_at;
  completed_at = old.completed_at;
  runner_id = old.runner_id;
}

abbrev inserted_row : RunModel → RunModel
inserted_row m = record m {
  claimed_at = none;
  started_at = none;
  completed_at = none;
  runner_id = none;
}

unfoldable pub upsert_row : RunModel → List RunModel → List RunModel
upsert_row m [] = inserted_row m ∷ []
upsert_row m (old ∷ rows) =
    if str_eq old.model m.model then written_row m old ∷ rows else old ∷ upsert_row m rows

unfoldable pub upsert_rows : List RunModel → List RunModel → List RunModel
upsert_rows [] rows = rows
upsert_rows (m ∷ ms) rows = upsert_rows ms (upsert_row m rows)

abbrev pub upsert_found : Run → Option Run → Run
upsert_found r none = record r { finalization_attempt = 0; per_model = upsert_rows r.per_model [] }
upsert_found r (some old) = record r {
  finalization_attempt = old.finalization_attempt;
  per_model = upsert_rows r.per_model old.per_model;
}

-- The upsert writes every column that a record has, the status as it was read included; the number of
-- attempts is none of them. The statements for the run and for its rows are one step here.
unfoldable pub upsert_run : Run → RunTables → RunTables
upsert_run r t = record t { run = some (upsert_found r t.run) }

-- What the mutator of the patch makes of the record that was read.
abbrev pub patched : ℕ → String × String → List ModelEntry → Run → Run
patched now paths entries r = record r {
  finished_at = or_now now r.finished_at;
  comparison = some paths;
  per_model = patch_rows entries r.per_model;
}

-- `updateRun` with nothing between its read and its upsert: the record that was read, and what writes it.
abbrev pub update_run : (Run → Run) → Option Run → RunTables → RunTables
update_run mutator none t = t
update_run mutator (some r) t = upsert_run (mutator r) t

unfoldable pub patch_index_after_finalize :
    ℕ → String × String → List ModelEntry → RunTables → RunTables
unfolding upsert_run
patch_index_after_finalize now paths entries t = update_run (patched now paths entries) t.run t

unfoldable pub mark_run_cancelled : RunTables → RunTables
mark_run_cancelled t = record t { cancelled = true }

unfoldable pub clear_run_cancelled : RunTables → RunTables
clear_run_cancelled t = record t { cancelled = false }
