-- ===== src/CircuitBreaker.antt =====
-- The circuit breaker of src/providers/circuit-breaker.ts.
-- `exec` awaits the provider's call, and other calls run meanwhile, so it is two operations: `enter`,
-- up to the call, and `settle`, from its end. The clock is an argument of each. `gauge` is the series
-- of the metric `circuit_state` under the breaker's labels; `none` is a series that is not there.
pub mod Sequential
pub mod Interleaved
pub mod Registry
mod Examples
use ai_model_arena.Common.{
  ℕ, suc, ◌+◌, ◌-◌, Bool, true, false, not, Option, none, some, List, [], ◌∷◌, if◌then◌else◌, leb,
  ltb, String, ◌&&◌, ◌||◌,
}
use ai_model_arena.Common.Dict.{Dict, get, put}
use Prim.Native.String

pub data CircuitState : Type 0 where
  closed open_ half_open : CircuitState

pub record Labels : Type 0 where
  pub provider : String
  pub model : String

pub record CircuitBreaker : Type 0 where
  pub state : CircuitState
  pub failures : ℕ
  pub opened_at : ℕ
  pub threshold : ℕ
  pub reset_ms : ℕ
  pub labels : Option Labels
  pub gauge : Option ℕ

abbrev or_else : Option ℕ → ℕ → ℕ
or_else none d = d
or_else (some n) d = n

pub create : Option ℕ → Option ℕ → Option Labels → CircuitBreaker
create failure_threshold reset_timeout_ms labels = record {
  state = closed;
  failures = 0;
  opened_at = 0;
  threshold = or_else failure_threshold 5;
  reset_ms = or_else reset_timeout_ms 30_000;
  labels = labels;
  gauge = none;
}

abbrev pub is_open : CircuitState → Bool
is_open open_ = true
is_open _ = false

abbrev pub is_half_open : CircuitState → Bool
is_half_open half_open = true
is_half_open _ = false

abbrev pub level : CircuitState → ℕ
level closed = 0
level open_ = 1
level half_open = 1

abbrev pub published : Option Labels → CircuitState → Option ℕ → Option ℕ
published none state gauge = gauge
published (some labels) state gauge = some (level state)

abbrev pub sync_metric : CircuitBreaker → CircuitBreaker
sync_metric b = record b { gauge = published b.labels b.state b.gauge }

-- `none`: the call is refused with a `CircuitOpenError`.
unfoldable pub enter : ℕ → CircuitBreaker → Option CircuitBreaker
enter now b =
    if is_open b.state
    then if leb b.reset_ms (now - b.opened_at) then some (record b { state = half_open }) else none
    else some b

-- How the provider's call ends. `nested` is a `CircuitOpenError` that it throws itself.
pub data Outcome : Type 0 where
  success failure nested : Outcome

abbrev pub trip : ℕ → CircuitBreaker → CircuitBreaker
trip now b =
    let counted = record b { failures = b.failures + 1 } in
    if leb b.threshold (b.failures + 1)
    then sync_metric (record counted { state = open_; opened_at = now })
    else counted

unfoldable pub settle : ℕ → Outcome → CircuitBreaker → CircuitBreaker
settle now success b =
    if is_half_open b.state
    then sync_metric (record b { state = closed; failures = 0 })
    else record b { failures = 0 }
settle now failure b = trip now b
settle now nested b = b

pub data Result : Type 0 where
  refused : Result
  done : Outcome → Result

-- One call with nothing between its start and its end: it starts at `now` and ends at `end`.
unfoldable pub exec : ℕ → ℕ → Outcome → CircuitBreaker → CircuitBreaker × Result
exec now end outcome b = elim (enter now b) [
  | none ↦ (b, refused)
  | some entered ↦ (settle end outcome entered, done outcome)
]

-- What several calls do to one breaker, in the order in which it happens.
pub data Event : Type 0 where
  enters : ℕ → Event
  settles : ℕ → Outcome → Event

abbrev entered_or : CircuitBreaker → Option CircuitBreaker → CircuitBreaker
entered_or b none = b
entered_or b (some entered) = entered

unfoldable pub step : Event → CircuitBreaker → CircuitBreaker
step (enters now) b = entered_or b (enter now b)
step (settles now outcome) b = settle now outcome b

pub run : List Event → CircuitBreaker → CircuitBreaker
run [] b = b
run (e ∷ es) b = run es (step e b)

abbrev pub breaker_key : String → String → String
breaker_key provider model = String.◌++◌ provider (String.◌++◌ ":" model)

pick_breaker :
    String
    → CircuitBreaker
    → Option CircuitBreaker
    → Dict CircuitBreaker
    → CircuitBreaker × Dict CircuitBreaker
pick_breaker key fresh (some b) breakers = (b, breakers)
pick_breaker key fresh none breakers = (fresh, put key fresh breakers)

-- `CircuitBreaker.for`: the breaker of a provider and model, made on first use.
pub for_model :
    String
    → String
    → Option ℕ
    → Option ℕ
    → Dict CircuitBreaker
    → CircuitBreaker × Dict CircuitBreaker
unfolding pick_breaker
for_model provider model failure_threshold reset_timeout_ms breakers =
    let labels : Option Labels = some (record { provider = provider; model = model }) in
    pick_breaker (breaker_key provider model) (create failure_threshold reset_timeout_ms labels)
      (get (breaker_key provider model) breakers) breakers

abbrev pub stale_after_ms : ℕ
stale_after_ms = 3_600_000

abbrev pub is_stale : ℕ → CircuitBreaker → Bool
is_stale now b = not (is_open b.state) || ltb stale_after_ms (now - b.opened_at)

-- `CircuitBreaker.cleanup`; the metric of a breaker goes with it.
pub cleanup : ℕ → Dict CircuitBreaker → Dict CircuitBreaker
cleanup now [] = []
cleanup now ((key, b) ∷ rest) =
    if is_stale now b then cleanup now rest else (key, b) ∷ cleanup now rest
