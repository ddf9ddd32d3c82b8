-- ===== src/RateLimit.antt =====
-- The in-memory rate limiter of the API keys, in src/dashboard-server/auth-api.ts: one counter for a key
-- name and a minute, and the timer that prunes old counters. The limits of the keys, which come from a
-- configuration file, are a parameter. The map's keys are pairs here, where the program joins a name and
-- a minute with a colon, which no two pairs share.
mod Examples
pub mod Window
use ai_model_arena.Common.{
  ℕ, ◌+◌, ◌-◌, ◌/◌, Bool, true, false, Option, none, some, List, [], ◌∷◌, if◌then◌else◌, ltb, leb,
  ◌==◌, ◌&&◌, String, str_eq,
}

pub record RateLimitState : Type 0 where
  pub count : ℕ
  pub reset_at : ℕ

abbrev pub RateStore : Type 0
RateStore = String → ℕ → Option RateLimitState

abbrev pub empty_store : RateStore
empty_store name bucket = none

pub record Decision : Type 0 where
  pub allowed : Bool
  pub remaining : ℕ
  pub reset_in : ℕ

abbrev pub minute_bucket : ℕ → ℕ
minute_bucket now = now / 60_000

abbrev pub current_state : ℕ → Option RateLimitState → RateLimitState
current_state now none = record { count = 0; reset_at = now + 60_000 }
current_state now (some state) = state

abbrev pub decide : ℕ → ℕ → RateLimitState → Decision
decide limit now state =
    if leb limit state.count
    then record { allowed = false; remaining = 0; reset_in = state.reset_at - now }
    else record {
      allowed = true;
      remaining = (limit - state.count) - 1;
      reset_in = state.reset_at - now;
    }

abbrev pub counted : ℕ → RateLimitState → RateLimitState
counted limit state =
    if leb limit state.count then state else record state { count = state.count + 1 }

abbrev pub set_state : String → ℕ → RateLimitState → RateStore → RateStore
set_state name bucket state s n b = if str_eq n name && (b == bucket) then some state else s n b

unfoldable pub check_rate_limit : String → ℕ → ℕ → RateStore → RateStore × Decision
check_rate_limit name limit now s =
    let state = current_state now (s name (minute_bucket now)) in
    (set_state name (minute_bucket now) (counted limit state) s, decide limit now state)

-- The timer's callback: counters of a minute more than two before the current one are deleted.
unfoldable pub prune : ℕ → RateStore → RateStore
prune now s name bucket = if ltb (bucket + 2) (minute_bucket now) then none else s name bucket

pub data Event : Type 0 where
  requests : (now : ℕ) → String → Event
  prunes : (now : ℕ) → Event

unfoldable pub step : (String → ℕ) → Event → RateStore → RateStore
step limits (requests now name) s = (check_rate_limit name (limits name) now s).0
step limits (prunes now) s = prune now s
