-- ===== src/StartRun.antt =====
-- `startRun` of src/orchestrator/run-lifecycle.ts: the budget of src/cost-tracking/budget.ts, the
-- tables of Runs and the task queue in one call. The clock of the call is one argument. The estimate
-- of a model is what `computeCost` gives for its turns; the run id is `none` where `createRunSpec`
-- throws; `room` is how many tasks the queue takes before `enqueue` throws, if it does. `digest` is
-- the hash of node:crypto, and `body` the part of a task that the queue never reads.
pub mod Refund
pub mod Failed
mod Examples
use ai_model_arena.Common.{
  ℕ, zero, suc, ◌+◌, Bool, true, false, Option, none, some, String, List, [], ◌∷◌, ◌++◌, map,
  if◌then◌else◌,
}
use Prim.Native.String.{◌++◌ as text_append}
use ai_model_arena.Ledger.{Now, BudgetState}
use ai_model_arena.Budget.{
  BudgetConfig, check_budget, Reserved, ok, blocked, reserve_budget, release_reservation,
  record_run_reservations,
}
use ai_model_arena.Queue.{Body, Task, Queue, empty, enqueue}
use ai_model_arena.Runs.{RunTables}
use ai_model_arena.RunLifecycle.{register_run}

-- `createQueue()` with the in-memory driver: each start has a queue of its own.
abbrev pub create_queue : Queue
create_queue = empty

-- `queue` is the queue of the last start.
pub record Arena : Type 0 where
  pub budget : BudgetState
  pub tables : RunTables
  pub queue : Queue

-- The state after the loop over the models, the reservations it made, and whether no model was refused.
pub record Reservations : Type 0 where
  pub state : BudgetState
  pub made : List (String × ℕ)
  pub granted : Bool

-- The loop over the models, each with its estimate, after the reservations `made`.
unfoldable pub reserve_models :
    BudgetConfig → Now → Bool → List (String × ℕ) → List (String × ℕ) → BudgetState → Reservations
reserve_models c now force [] made s = record { state = s; made = made; granted = true }
reserve_models c now force ((model, estimated) ∷ ms) made s =
    let reservation = reserve_budget c now model estimated s in
    let rest = reserve_models c now force ms (made ++ (model, estimated) ∷ []) reservation.0 in
    if (check_budget c now model force 0 s).allowed
    then elim reservation.1 [
      | ok ↦ rest
      | blocked period ↦ record { state = reservation.0; made = made; granted = false }
    ]
    else record { state = s; made = made; granted = false }

-- The `catch` branch.
unfoldable pub release_all : Now → List (String × ℕ) → BudgetState → BudgetState
release_all now [] s = s
release_all now ((model, estimated) ∷ rs) s =
    release_all now rs (release_reservation now model estimated 0 s)

-- `models.join(',')`
abbrev join : List String → String
join [] = ""
join (m ∷ []) = m
join (m ∷ n ∷ ms) = text_append m (text_append "," (join (n ∷ ms)))

-- The key depends on the scenario and the models, and not on the run.
abbrev pub make_idempotency_key : (String → String) → String → List String → String
make_idempotency_key digest scenario models =
    digest (text_append scenario (text_append ":" (join models)))

abbrev pub with_suffix : String → String → String
with_suffix a b = text_append a (text_append "-" b)

abbrev pub run_task : (String → Body) → String → String → String → Task
run_task body run_id key model = record {
  task_id = with_suffix run_id model;
  attempts = 0;
  due_at = none;
  idempotency_key = some (with_suffix key model);
  body = body model;
}

abbrev pub run_tasks : (String → Body) → String → String → List String → List Task
run_tasks body run_id key models = map (run_task body run_id key) models

-- The tasks go in until the queue has no room: whether all did.
unfoldable pub enqueue_all : ℕ → Option ℕ → List Task → Queue → Queue × Bool
enqueue_all now room [] q = (q, true)
enqueue_all now none (t ∷ ts) q = enqueue_all now none ts (enqueue now t q)
enqueue_all now (some zero) (t ∷ ts) q = (q, false)
enqueue_all now (some (suc n)) (t ∷ ts) q = enqueue_all now (some n) ts (enqueue now t q)

abbrev pub caught : Now → List (String × ℕ) → Arena → Arena
caught now made a = record a { budget = release_all now made a.budget }

abbrev pub tasks_sent :
    Now → String → List (String × ℕ) → Queue × Bool → Arena → Arena × Option String
tasks_sent now run_id made (q, true) a = (record a { queue = q }, some run_id)
tasks_sent now run_id made (q, false) a = (caught now made (record a { queue = q }), none)

abbrev pub spec_made :
    Now
    → Option String
    → Option ℕ
    → (String → List Task)
    → List String
    → List (String × ℕ)
    → Arena
    → Arena × Option String
spec_made now none room tasks models made a = (caught now made a, none)
spec_made now (some run_id) room tasks models made a =
    let registered = record a {
      budget = record_run_reservations run_id made a.budget;
      tables = register_run now.ms models a.tables;
    } in
    tasks_sent now run_id made (enqueue_all now.ms room (tasks run_id) create_queue) registered

abbrev pub names : List (String × ℕ) → List String
names [] = []
names ((model, estimated) ∷ ms) = model ∷ names ms

abbrev pub started :
    Now
    → Option String
    → Option ℕ
    → (String → List Task)
    → List String
    → Reservations
    → Arena
    → Arena × Option String
started now spec room tasks models r a =
    if r.granted
    then spec_made now spec room tasks models r.made (record a { budget = r.state })
    else (caught now r.made (record a { budget = r.state }), none)

-- The run id of a run that started, or `none` where the call throws.
unfoldable pub start_run :
    (String → String)
    → BudgetConfig
    → Now
    → Bool
    → Option String
    → Option ℕ
    → (String → Body)
    → String
    → List (String × ℕ)
    → Arena
    → Arena × Option String
start_run digest c now force spec room body scenario models a =
    let key = make_idempotency_key digest scenario (names models) in
    started now spec room (λ run_id. run_tasks body run_id key (names models)) (names models)
      (reserve_models c now force models [] a.budget) a
