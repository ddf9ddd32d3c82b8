-- ===== src/Scheduler/Examples.antt =====
-- The theorems on src/scheduler/tick.ts at two rows, and tests.
use ai_model_arena.Common.{
  ℕ, ◌<◌, ◌≡◌, refl, true, none, some, String, str_eq, List, [], ◌∷◌, if◌then◌else◌, All, arith,
}
use ai_model_arena.Scheduler.{DbSchedule, TickEnv, no_runs, tick_row, tick_rows, tick_scheduler}
use ai_model_arena.Scheduler.Due.{IsSettled, tick_scheduler-IsSettled}

abbrev env : TickEnv
env = record {
  compute_next_run = λ cron. if str_eq cron "nonsense" then none else some 100;
  parse_models = λ models. if str_eq models "[]" then none else some ("gpt-4o" ∷ []);
  start = λ row models. if str_eq row.id "broken" then some "over budget" else none;
  backoff_ms = 3_600_000;
}

abbrev row : String → String → String → DbSchedule
row id models cron = record {
  id = id;
  scenario = "s";
  models = models;
  cron = cron;
  enabled = true;
  last_run = none;
  next_run = some 40;
  last_status = none;
  last_error = none;
  counters = no_runs;
}

later_cron : (cron : String) (next : ℕ) → env.compute_next_run cron ≡ some next → 50 < next
later_cron cron next h = ground arith

abbrev rows : List DbSchedule
rows = row "a" "[x]" "* * * * *" ∷ row "broken" "[x]" "* * * * *" ∷ row "c" "[x]" "nonsense" ∷ []

tick_scheduler-IsSettled_example : All (IsSettled 50) (tick_scheduler env 50 [] rows).0.rows
unfolding tick_rows
tick_scheduler-IsSettled_example =
    tick_scheduler-IsSettled env 50 (record { later = later_cron; delays = omega arith }) [] rows
      ((omega arith, omega arith), ((omega arith, omega arith), ((omega arith, omega arith), tt)))
      refl

tick_scheduler_test :
    (tick_scheduler env 50 [] rows).0.ticked ≡ "a" ∷ []
    × (tick_scheduler env 50 [] rows).0.failures ≡ "broken" ∷ "c" ∷ []
unfolding tick_rows tick_row
tick_scheduler_test = (refl, refl)
