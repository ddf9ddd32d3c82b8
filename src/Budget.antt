-- ===== src/Budget.antt =====
-- Budget limits and reservations of src/cost-tracking/budget.ts, with the configuration of
-- src/cost-tracking/types.ts. A percentage of a limit is compared by multiplying out. Each operation
-- works on the state that it reads from the file and returns the state that it writes; the texts of
-- reasons and of log lines are left out. All have a loaded configuration: without one they change
-- nothing.
pub mod Reserve
pub mod Release
pub mod Check
pub mod Runs
pub mod Status
mod Examples
use ai_model_arena.Common.{
  ℕ, ◌+◌, ◌*◌, Bool, true, false, not, ◌&&◌, Option, none, some, String, str_eq, List, [], ◌∷◌,
  ◌++◌, if◌then◌else◌, leb, ltb, ◌==◌,
}
use ai_model_arena.Common.Dict.{Dict, put, del, get_or, or_default}
use ai_model_arena.Ledger.{
  Now, Reservation, BudgetState, no_spend, reservation_ttl_ms, is_safe_model, add_to, apply_spend,
  get_spend_today, get_spend_month,
}

-- `none` stands for null and for a field that is not there.
pub record Limits : Type 0 where
  pub daily : Option ℕ
  pub monthly : Option ℕ

-- `block` is the threshold in percent.
pub record BudgetConfig : Type 0 where
  pub global : Limits
  pub models : Dict Limits
  pub block : Option ℕ

abbrev pub has_expired : ℕ → Option ℕ → Bool
has_expired ms none = false
has_expired ms (some t) = leb t ms

abbrev pub counts : Now → Reservation → Bool
counts now r = str_eq r.daily_key now.day && not (has_expired now.ms r.expires_at)

unfoldable pub total_counted : Now → List Reservation → ℕ
total_counted now [] = 0
total_counted now (r ∷ rs) = (if counts now r then r.amount else 0) + total_counted now rs

abbrev pub entries_of : String → BudgetState → List Reservation
entries_of model s = get_or model s.reservations []

abbrev pub today_reserved_total : Now → BudgetState → String → ℕ
today_reserved_total now s model = total_counted now (entries_of model s)

-- `entry.dailyKey === today && entry.amount === estimatedCostUsd`
abbrev pub fits : Now → ℕ → Reservation → Bool
fits now amount r = str_eq r.daily_key now.day && r.amount == amount

abbrev pub keep_entry : Reservation → Option (List Reservation) → Option (List Reservation)
keep_entry r none = none
keep_entry r (some rest) = some (r ∷ rest)

-- The entries without the first one that fits.
unfoldable pub drop_fitting : Now → ℕ → List Reservation → Option (List Reservation)
drop_fitting now amount [] = none
drop_fitting now amount (r ∷ rs) =
    if fits now amount r then some rs else keep_entry r (drop_fitting now amount rs)

drop_or_keep : String → Option (List Reservation) → BudgetState → BudgetState × Bool
drop_or_keep model none s = (s, false)
drop_or_keep model (some rest) s = (record s { reservations = put model rest s.reservations }, true)

unfoldable pub remove_reservation_entry : Now → String → ℕ → BudgetState → BudgetState × Bool
unfolding drop_or_keep
remove_reservation_entry now model amount s =
    drop_or_keep model (drop_fitting now amount (entries_of model s)) s

-- `modelLimits?.daily ?? globalLimits?.daily`
abbrev pub or_global : Option ℕ → Option ℕ → Option ℕ
or_global none global = global
or_global (some own) global = some own

abbrev pub no_limits : Limits
no_limits = record { daily = none; monthly = none }

abbrev pub limit_daily : BudgetConfig → String → Option ℕ
limit_daily c model = or_global (get_or model c.models no_limits).daily c.global.daily

abbrev pub limit_monthly : BudgetConfig → String → Option ℕ
limit_monthly c model = or_global (get_or model c.models no_limits).monthly c.global.monthly

abbrev pub block_threshold : BudgetConfig → ℕ
block_threshold c = or_default c.block 100

-- `(spent / limit) * 100 > block`. Where the limit is 0 the quotient is infinite or, for no spend,
-- not a number, and the product decides the same.
abbrev pub exceeds : ℕ → Option ℕ → ℕ → Bool
exceeds block none spent = false
exceeds block (some limit) spent = ltb (block * limit) (100 * spent)

-- `(spent / limit) * 100 >= block`; false for 0 / 0, which is not a number.
abbrev pub reaches : ℕ → Option ℕ → ℕ → Bool
reaches block none spent = false
reaches block (some limit) spent =
    if limit == 0 then ltb 0 spent else leb (block * limit) (100 * spent)

pub data Period : Type 0 where
  daily monthly : Period

pub data Reserved : Type 0 where
  ok : Reserved
  blocked : Period → Reserved

abbrev pub projected_daily : Now → String → ℕ → BudgetState → ℕ
projected_daily now model amount s =
    get_spend_today now s (some model) + today_reserved_total now s model + amount

abbrev pub projected_monthly : Now → String → ℕ → BudgetState → ℕ
projected_monthly now model amount s =
    get_spend_month now s (some model) + today_reserved_total now s model + amount

abbrev pub reservation : Now → ℕ → Reservation
reservation now amount = record {
  amount = amount;
  daily_key = now.day;
  expires_at = some (now.ms + reservation_ttl_ms);
}

abbrev pub push_reservation : Now → String → ℕ → BudgetState → BudgetState
push_reservation now model amount s = record s {
  reservations = put model (entries_of model s ++ reservation now amount ∷ []) s.reservations;
}

unfoldable pub reserve_budget :
    BudgetConfig → Now → String → ℕ → BudgetState → BudgetState × Reserved
reserve_budget c now model amount s =
    if not (is_safe_model model)
    then (s, ok)
    else if exceeds (block_threshold c) (limit_daily c model) (projected_daily now model amount s)
    then (s, blocked daily)
    else if exceeds (block_threshold c) (limit_monthly c model)
        (projected_monthly now model amount s)
    then (s, blocked monthly)
    else (push_reservation now model amount s, ok)

abbrev pub spend_if_any : Now → String → ℕ → BudgetState → BudgetState
spend_if_any now model actual s = if ltb 0 actual then apply_spend now model actual s else s

-- The write that the code leaves out when nothing changed makes no difference to the state.
unfoldable pub release_reservation : Now → String → ℕ → ℕ → BudgetState → BudgetState
release_reservation now model estimated actual s =
    if is_safe_model model
    then spend_if_any now model actual (remove_reservation_entry now model estimated s).0
    else s

-- `percentUsed` is the spend as a percentage of the limit, or 0 without one.
pub record BudgetCheckResult : Type 0 where
  pub allowed : Bool
  pub reason : Option Period
  pub spent : ℕ
  pub limit : Option ℕ

abbrev effective : Option ℕ → Option ℕ → ℕ → ℕ → Bool → Option Period → BudgetCheckResult
effective (some d) m spent_daily spent_monthly allowed reason = record {
  allowed = allowed;
  reason = reason;
  spent = spent_daily;
  limit = some d;
}
effective none m spent_daily spent_monthly allowed reason = record {
  allowed = allowed;
  reason = reason;
  spent = spent_monthly;
  limit = m;
}

unfoldable pub check_budget :
    BudgetConfig → Now → String → Bool → ℕ → BudgetState → BudgetCheckResult
check_budget c now model force extra s =
    let spent_daily = get_spend_today now s (some model) + extra in
    let spent_monthly = get_spend_month now s (some model) + extra in
    let d = limit_daily c model in
    let m = limit_monthly c model in
    if force
    then effective d m spent_daily spent_monthly true none
    else if reaches (block_threshold c) d spent_daily
    then record { allowed = false; reason = some daily; spent = spent_daily; limit = d }
    else if reaches (block_threshold c) m spent_monthly
    then record { allowed = false; reason = some monthly; spent = spent_monthly; limit = m }
    else effective d m spent_daily spent_monthly true none

-- `entry[r.model] = (entry[r.model] ?? 0) + r.estimated` for each reservation of a run.
pub sum_estimates : List (String × ℕ) → Dict ℕ → Dict ℕ
sum_estimates [] entry = entry
sum_estimates ((model, estimated) ∷ rest) entry = sum_estimates rest (add_to model estimated entry)

unfoldable pub record_run_reservations : String → List (String × ℕ) → BudgetState → BudgetState
record_run_reservations run_id reservations s = record s {
  run_reservations = put run_id (sum_estimates reservations []) s.run_reservations;
}

unfoldable pub release_entry : Now → Dict ℕ → String × ℕ → BudgetState → BudgetState
release_entry now reserved (model, actual) s =
    if is_safe_model model
    then spend_if_any now model actual
        (remove_reservation_entry now model (get_or model reserved 0) s).0
    else s

unfoldable pub release_entries : Now → Dict ℕ → List (String × ℕ) → BudgetState → BudgetState
release_entries now reserved [] s = s
release_entries now reserved (e ∷ es) s =
    release_entries now reserved es (release_entry now reserved e s)

-- Each entry is a model with its actual cost, 0 where there is no result.
unfoldable pub release_run_reservations :
    Now → String → List (String × ℕ) → BudgetState → BudgetState
release_run_reservations now run_id entries s =
    let released = release_entries now (get_or run_id s.run_reservations []) entries s in
    record released { run_reservations = del run_id released.run_reservations }
