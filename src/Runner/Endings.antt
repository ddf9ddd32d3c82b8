-- ===== src/Runner/Endings.antt =====
-- How a delivered task ends in src/runner.ts: its row in src/db/query/runs.ts and its place in
-- src/queue/in-memory.ts agree.
use ai_model_arena.Common.{ℕ, ◌≡◌, ◌⊎◌, Bool, true, false, some, String, [], ◌∷◌, ◌++◌}
use ai_model_arena.Queue.{Task, Queue, bump, ack, nack}
use ai_model_arena.Runs.{RunStatus, RunTables, is_terminal}
use ai_model_arena.RunLifecycle.Rows.{status_of}
use ai_model_arena.Runner.{RunnerState, is_last, Ending, abandoned}

-- The row of a model has a terminal status.
abbrev pub HasEnded : String → RunTables → Type 0
HasEnded k t = (s : RunStatus) × (status_of k t ≡ some s) × (is_terminal s ≡ true)

-- The task is out of the queue, acknowledged or dead.
abbrev pub IsOut : Task → Queue → Queue → Type 0
IsOut t q q' = (q' ≡ ack t.task_id q) ⊎ (q'.dead ≡ q.dead ++ bump t ∷ [])

abbrev pub IsOver : Task → RunnerState → RunnerState → Type 0
IsOver t s after = HasEnded t.body.model after.tables × IsOut t s.queue after.queue

abbrev pub IsRequeued : ℕ → Task → RunnerState → RunnerState → Type 0
IsRequeued now t s after =
    (is_last t ≡ false) × (after.tables ≡ s.tables) × (after.queue ≡ nack now t.task_id s.queue)

-- A shutdown gave up the last attempt: the task is dead and its row is as before.
abbrev pub IsLost : Ending → Task → RunnerState → RunnerState → Type 0
IsLost ending t s after =
    (ending ≡ abandoned)
    × (is_last t ≡ true)
    × (after.tables ≡ s.tables)
    × (after.queue.dead ≡ s.queue.dead ++ bump t ∷ [])
