-- ===== src/RunLifecycle/Rows.antt =====
-- The statuses of the rows of a run: what a transition leaves, in src/db/query/runs.ts, and what a
-- forced stop leaves, in src/orchestrator/run-lifecycle.ts.
use ai_model_arena.Common.{
  ℕ, ◌≡◌, refl, inl, inr, false, not, ◌&&◌, Option, none, some, String, str_eq, eq_iff, eq_refl,
  List, [], ◌∷◌, arith, Bool-cases, Option-cases, if◌then◌else◌,
}
use ai_model_arena.Runs.{
  RunStatus, stopped, running, completed, RunModel, RunTables, status_code, is_terminal, may_become,
  stamp, update_rows, transition_task_state,
}
use ai_model_arena.RunLifecycle.{force_stop_non_terminal_models, row_is_terminal, set_status}
use ai_model_arena.RunLifecycle.Gate.{rows_of}

abbrev pub status_in : String → List RunModel → Option RunStatus
status_in model [] = none
status_in model (m ∷ ms) = if str_eq m.model model then some m.status else status_in model ms

-- The status of the row of a model.
abbrev pub status_of : String → RunTables → Option RunStatus
status_of model t = status_in model (rows_of t)

abbrev pub moved : RunStatus → Option RunStatus → Option RunStatus
moved new_status none = none
moved new_status (some old) = if may_become new_status old then some new_status else some old

stamp-row :
    (now : ℕ) (s : RunStatus) (runner : Option String) (m : RunModel)
    → (stamp now s runner m).status ≡ s × (stamp now s runner m).model ≡ m.model
unfolding stamp
stamp-row now s runner m = ground arith

transition-rows :
    (now : ℕ) (k model : String) (s : RunStatus) (runner : Option String) (ms : List RunModel)
    → status_in k
        (update_rows (λ m. str_eq m.model model && may_become s m.status) (stamp now s runner) ms)
      ≡ (if str_eq k model then moved s (status_in k ms) else status_in k ms)
transition-rows now k model s runner [] = ground arith
transition-rows now k model s runner (m ∷ ms) = ground (
  arith,
  eq_iff m.model k,
  eq_iff m.model model,
  eq_iff k model,
  stamp-row now s runner m,
  transition-rows now k model s runner ms,
)

rows-transition :
    (now : ℕ) (model : String) (s : RunStatus) (runner : Option String) (t : RunTables)
    → rows_of (transition_task_state now model s runner t)
      ≡ update_rows
          (λ m. str_eq m.model model && may_become s m.status)
          (stamp now s runner)
          (rows_of t)
unfolding transition_task_state
rows-transition now model s runner t = elim (Option-cases t.run) [
  | inl missing ↦ rw missing refl
  | inr (r, e) ↦ rw e refl
]

-- A transition of a model writes its new status, except over a different terminal status when the
-- new one is terminal, and leaves the status of every other model.
pub status_of-transition_task_state :
    (now : ℕ) (k model : String) (s : RunStatus) (runner : Option String) (t : RunTables)
    → status_of k (transition_task_state now model s runner t)
      ≡ (if str_eq k model then moved s (status_of k t) else status_of k t)
status_of-transition_task_state now k model s runner t =
    rw (rows-transition now model s runner t) (transition-rows now k model s runner (rows_of t))

abbrev pub forced_to : RunStatus → Option RunStatus → Option RunStatus
forced_to s none = none
forced_to s (some old) = if is_terminal old then some old else some s

set_open : (s : RunStatus) (m : RunModel) → RunModel
set_open s m = if not (is_terminal m.status) then set_status s m else m

set_open-row :
    (s : RunStatus) (m : RunModel)
    → (set_open s m).model ≡ m.model × (some (set_open s m).status ≡ forced_to s (some m.status))
unfolding set_open
set_open-row s m = elim (Bool-cases (is_terminal m.status)) [
  | inl over ↦ rw over (refl, refl)
  | inr open_ ↦ rw open_ (refl, refl)
]

status_in-forced :
    (s : RunStatus) (k : String) (ms : List RunModel)
    → status_in k (update_rows (λ m. not (row_is_terminal m)) (set_status s) ms)
      ≡ forced_to s (status_in k ms)
unfolding set_open
status_in-forced s k [] = refl
status_in-forced s k (m ∷ ms) = elim (Bool-cases (str_eq m.model k)) [
  | inl hit ↦ let row = set_open-row s m in rw (row.0, hit) row.1
  | inr miss ↦ let row = set_open-row s m in rw (row.0, miss) (status_in-forced s k ms)
]

-- Forcing the open rows to stopped leaves the terminal ones.
pub status_of-force_stop :
    (k : String) (t : RunTables)
    → status_of k (force_stop_non_terminal_models t) ≡ forced_to stopped (status_of k t)
unfolding force_stop_non_terminal_models
status_of-force_stop k t = elim (Option-cases t.run) [
  | inl missing ↦ rw missing refl
  | inr (r, e) ↦ rw e (status_in-forced stopped k r.per_model)
]

-- A runner that goes on after its open row was forced to stopped still gets through: its write of
-- running is not guarded, and its write of completed then finds no terminal status.
pub force_stop-overwritten :
    (now end : ℕ) (k : String) (runner : Option String) (t : RunTables) (old : RunStatus)
    → status_of k t ≡ some old
    → is_terminal old ≡ false
    → let forced = force_stop_non_terminal_models t in
      let resumed = transition_task_state now k running runner forced in
      (status_of k forced ≡ some stopped)
      × (status_of k (transition_task_state end k completed runner forced) ≡ some stopped)
      × (status_of k (transition_task_state end k completed runner resumed) ≡ some completed)
unfolding status_code
force_stop-overwritten now end k runner t old h open_ =
    rw
      (
        status_of-transition_task_state end k k completed runner
            (transition_task_state now k running runner (force_stop_non_terminal_models t)),
        status_of-transition_task_state end k k completed runner (force_stop_non_terminal_models t),
        status_of-transition_task_state now k k running runner (force_stop_non_terminal_models t),
        status_of-force_stop k t,
        h,
        open_,
        eq_refl k,
      )
      (refl, refl, refl)
