-- ===== src/Outbox.antt =====
-- The outbox of src/notifications/outbox.ts, as the life of one row: each UPDATE names the row by its id, so its
-- effect is a function of the row that the WHERE clause guards. Times, which the program keeps as ISO texts, are
-- milliseconds. What a send returns is a parameter.
pub mod Lease
pub mod Delivery
mod Examples
use ai_model_arena.Common.{
  ℕ, zero, suc, ◌+◌, ◌-◌, ◌*◌, ◌^◌, Bool, true, false, ◌&&◌, ◌||◌, Option, none, some, String, List,
  [], ◌∷◌, if◌then◌else◌, leb, ◌==◌, min,
}

pub data Status : Type 0 where
  pending sending delivered failed dead : Status

pub record OutboxRow : Type 0 where
  pub id : String
  pub event_type : String
  pub channel : String
  pub payload_json : String
  pub status : Status
  pub attempts : ℕ
  pub last_error : Option String
  pub created_at : ℕ
  pub next_attempt_at : Option ℕ
  pub delivered_at : Option ℕ

abbrev pub max_backoff_ms : ℕ
max_backoff_ms = 15 * 60 * 1000

abbrev pub max_delivery_attempts : ℕ
max_delivery_attempts = 5

abbrev pub claim_lease_ms : ℕ
claim_lease_ms = 5 * 60 * 1000

abbrev pub persist_notification : ℕ → String → String → String → String → OutboxRow
persist_notification now id event_type channel payload_json = record {
  id = id;
  event_type = event_type;
  channel = channel;
  payload_json = payload_json;
  status = pending;
  attempts = 0;
  last_error = none;
  created_at = now;
  next_attempt_at = none;
  delivered_at = none;
}

-- `status = 'pending' OR status = 'sending'`
abbrev pub is_unresolved : Status → Bool
is_unresolved pending = true
is_unresolved sending = true
is_unresolved _ = false

abbrev pub is_sending : Status → Bool
is_sending sending = true
is_sending _ = false

-- `next_attempt_at IS NULL OR next_attempt_at <= now`
abbrev pub has_come : ℕ → Option ℕ → Bool
has_come now none = true
has_come now (some t) = leb t now

abbrev pub is_claimable : ℕ → OutboxRow → Bool
is_claimable now r = is_unresolved r.status && has_come now r.next_attempt_at

abbrev pub is_at : ℕ → Option ℕ → Bool
is_at deadline none = false
is_at deadline (some t) = t == deadline

abbrev pub owned_row : ℕ → OutboxRow → Bool
owned_row lease_deadline r = is_sending r.status && is_at lease_deadline r.next_attempt_at

-- The row, and whether the claim took it.
unfoldable pub claim_row : ℕ → ℕ → OutboxRow → OutboxRow × Bool
claim_row now lease_deadline r =
    if is_claimable now r
    then (record r { status = sending; next_attempt_at = some lease_deadline }, true)
    else (r, false)

unfoldable pub mark_delivered : ℕ → ℕ → OutboxRow → OutboxRow × Bool
mark_delivered now lease_deadline r =
    if owned_row lease_deadline r
    then (record r { status = delivered; delivered_at = some now; next_attempt_at = none }, true)
    else (r, false)

-- The first UPDATE of `failRow`, with the attempts that it returns.
unfoldable pub bump_attempts : ℕ → String → OutboxRow → OutboxRow × Option ℕ
bump_attempts lease_deadline error r =
    if owned_row lease_deadline r
    then (record r { attempts = r.attempts + 1; last_error = some error }, some (r.attempts + 1))
    else (r, none)

unfoldable pub backoff : ℕ → ℕ
backoff attempts = min (60_000 * 2 ^ (attempts - 1)) max_backoff_ms

-- The second UPDATE of `failRow`.
unfoldable pub put_back : ℕ → ℕ → ℕ → OutboxRow → OutboxRow
put_back now lease_deadline attempts r =
    if owned_row lease_deadline r
    then if leb max_delivery_attempts attempts
      then record r { status = dead; next_attempt_at = none }
      else record r { status = pending; next_attempt_at = some (now + backoff attempts) }
    else r

abbrev pub fail_bumped : ℕ → ℕ → OutboxRow × Option ℕ → OutboxRow × Bool
fail_bumped now lease_deadline (r, none) = (r, false)
fail_bumped now lease_deadline (r, some attempts) = (put_back now lease_deadline attempts r, true)

pub fail_row : ℕ → ℕ → String → OutboxRow → OutboxRow × Bool
fail_row now lease_deadline error r =
    fail_bumped now lease_deadline (bump_attempts lease_deadline error r)

-- What a delivery comes to: success, or an error of the payload, the channel or the send.
pub data SendOutcome : Type 0 where
  sent : SendOutcome
  refused : String → SendOutcome

unfoldable pub resolve : ℕ → ℕ → SendOutcome → OutboxRow → OutboxRow × Bool
unfolding fail_row
resolve now lease_deadline sent r = mark_delivered now lease_deadline r
resolve now lease_deadline (refused error) r = fail_row now lease_deadline error r

-- One row of a sweep that starts at `now` and whose send ends at `end`; whether it counted as delivered or failed.
unfoldable pub deliver : ℕ → ℕ → SendOutcome → OutboxRow → OutboxRow × Bool
deliver now end outcome r =
    let (claimed, took) = claim_row now (now + claim_lease_ms) r in
    if took then resolve end (now + claim_lease_ms) outcome claimed else (claimed, false)

abbrev pub retry_notification : OutboxRow → OutboxRow
retry_notification r = record r {
  status = pending;
  attempts = 0;
  next_attempt_at = none;
  last_error = none;
}

-- The statements of overlapping sweeps and of a retry, in any order. A sweep is known by the time it started.
pub data Statement : Type 0 where
  claims : ℕ → Statement
  delivers : ℕ → ℕ → Statement
  bumps : ℕ → String → Statement
  puts_back : ℕ → ℕ → ℕ → Statement
  retries : Statement

unfoldable pub step : Statement → OutboxRow → OutboxRow
step (claims start) r = (claim_row start (start + claim_lease_ms) r).0
step (delivers now start) r = (mark_delivered now (start + claim_lease_ms) r).0
step (bumps start error) r = (bump_attempts (start + claim_lease_ms) error r).0
step (puts_back now start attempts) r = put_back now (start + claim_lease_ms) attempts r
step retries r = retry_notification r

unfoldable pub run : List Statement → OutboxRow → OutboxRow
run [] r = r
run (e ∷ es) r = run es (step e r)
