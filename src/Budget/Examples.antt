-- ===== src/Budget/Examples.antt =====
-- The theorems on src/cost-tracking/budget.ts at a small ledger, and tests.
use ai_model_arena.Common.{◌+◌, ◌≡◌, ◌≢◌, refl, true, none, some, String, eq_iff, [], ◌∷◌, arith}
use ai_model_arena.Common.Dict.{get}
use ai_model_arena.Ledger.{Now, Reservation, BudgetState, empty_state, is_safe_model}
use ai_model_arena.Ledger.Balance.{IsBalanced}
use ai_model_arena.Budget.{
  BudgetConfig, total_counted, today_reserved_total, ok, blocked, daily, reservation,
  reserve_budget, release_reservation, check_budget, release_run_reservations,
}
use ai_model_arena.Budget.Release.{release-reserve, release-reserve_leak}
use ai_model_arena.Budget.Check.{reserve-check_refused}
use ai_model_arena.Budget.Runs.{release_run-IsBalanced}

abbrev noon : Now
noon = record { ms = 20_000_000; day = "2026-01-02"; month = "2026-01" }

-- A daily limit of 50 for every model.
abbrev config : BudgetConfig
config = record { global = record { daily = some 50; monthly = none }; models = []; block = none }

-- A reservation of this morning that has expired.
abbrev leaked : Reservation
leaked = record { amount = 5; daily_key = "2026-01-02"; expires_at = some 15_000_000 }

abbrev start : BudgetState
start = empty_state "2026-01-01"

abbrev after_leak : BudgetState
after_leak = record start { reservations = ("gpt-4o", leaked ∷ []) ∷ [] }

abbrev spent_out : BudgetState
spent_out = record start {
  global = record { daily = ("2026-01-02", 50) ∷ []; monthly = [] };
  models = ("gpt-4o", record { daily = ("2026-01-02", 50) ∷ []; monthly = [] }) ∷ [];
}

gpt_is_safe : is_safe_model "gpt-4o" ≡ true
unfolding is_safe_model
gpt_is_safe = refl

start-IsBalanced : IsBalanced start
unfolding get
start-IsBalanced = record { daily = λ day. refl; monthly = λ month. refl }

blocked_at_limit : (reserve_budget config noon "gpt-4o" 1 spent_out).1 ≡ blocked daily
unfolding reserve_budget is_safe_model total_counted get
blocked_at_limit = refl

accepted_after_leak : (reserve_budget config noon "gpt-4o" 5 after_leak).1 ≡ ok
unfolding reserve_budget is_safe_model total_counted get
accepted_after_leak = refl

live_entry : Reservation
live_entry = reservation noon 5

release-reserve_example :
    today_reserved_total noon
      (release_reservation noon "gpt-4o" 7 3 (reserve_budget config noon "gpt-4o" 7 start).0)
      "gpt-4o"
    ≡ today_reserved_total noon start "gpt-4o"
unfolding get reserve_budget is_safe_model total_counted
release-reserve_example = release-reserve config noon "gpt-4o" 7 3 start refl refl tt

release-reserve_leak_test :
    today_reserved_total noon
      (release_reservation noon "gpt-4o" 5 3 (reserve_budget config noon "gpt-4o" 5 after_leak).0)
      "gpt-4o"
    ≡ today_reserved_total noon after_leak "gpt-4o" + 5
unfolding get
release-reserve_leak_test =
    release-reserve_leak config noon "gpt-4o" 5 3 after_leak leaked [] gpt_is_safe
      accepted_after_leak refl refl refl

reserve-check_refused_test : (reserve_budget config noon "gpt-4o" 1 spent_out).1 ≢ ok
unfolding check_budget get
reserve-check_refused_test =
    reserve-check_refused config noon "gpt-4o" 1 spent_out gpt_is_safe (omega arith) refl

r1_ne_r2 : ◌≢◌ {A = String} "r2" "r1"
r1_ne_r2 = ground (arith, eq_iff "r2" "r1")

release_run-IsBalanced_test :
    IsBalanced (release_run_reservations noon "r1" (("gpt-4o", 4) ∷ []) start)
release_run-IsBalanced_test =
    release_run-IsBalanced noon "r1" (("gpt-4o", 4) ∷ []) start start-IsBalanced
