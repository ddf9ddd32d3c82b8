-- ===== src/BudgetLock.antt =====
-- The lock file that guards the budget's state file, in src/cost-tracking/budget.ts, between processes
-- that run at once: each call of the file system is one step. A file's content is read as a whole, and
-- its creation time is a number; the env overrides are arguments. Creating with the flag `wx`, renaming
-- and linking are atomic and fail as POSIX says.
mod Examples
pub mod Exclusion
use ai_model_arena.Common.{
  ℕ, ◌+◌, ◌-◌, ◌*◌, ◌/◌, Bool, true, false, Option, none, some, List, [], ◌∷◌, if◌then◌else◌, leb,
  ltb, ◌==◌, max,
}

abbrev pub default_lock_acquire_timeout_ms : ℕ
default_lock_acquire_timeout_ms = 10_000

abbrev pub default_lock_stale_ms : ℕ
default_lock_stale_ms = 5000

-- `stale` and `timeout` are what the environment sets, or the defaults.
unfoldable pub lock_stale_ms : ℕ → ℕ → ℕ
lock_stale_ms stale timeout = if ltb stale timeout then stale else max 1 (timeout / 2)

pub record LockFile : Type 0 where
  pub pid : ℕ
  pub created_at : ℕ
  pub token : ℕ

-- Where a process stands: in `tryAcquireLock` after it read a stale lock with the token `observed`, or
-- with the file that it renamed aside; with the lock; or in `releaseLock`, before and after the rename.
pub data Phase : Type 0 where
  idle : Phase
  observed : (token : ℕ) → Phase
  breaking : (token : ℕ) → LockFile → Phase
  holding : (token : ℕ) → Phase
  releasing : (token : ℕ) → Phase
  removing : (token : ℕ) → LockFile → Phase

-- The file at the lock's path, if there is one, and the processes.
pub record LockState : Type 0 where
  pub lock : Option LockFile
  pub phase : ℕ → Phase

abbrev pub set_phase : ℕ → Phase → (ℕ → Phase) → ℕ → Phase
set_phase p x phase q = if q == p then x else phase q

abbrev pub moves : ℕ → Phase → LockState → LockState
moves p x s = record s { phase = set_phase p x s.phase }

-- `writeFileSync(..., { flag: 'wx' })`
abbrev create_lock : ℕ → ℕ → ℕ → Option LockFile → LockState → LockState
create_lock now p token none s = record {
  lock = some (record { pid = p; created_at = now; token = token });
  phase = set_phase p (holding token) s.phase;
}
create_lock now p token (some f) s = s

-- The age of the lock that is there, once the creation failed.
abbrev pub read_lock : ℕ → ℕ → ℕ → Option LockFile → LockState → LockState
read_lock stale now p none s = s
read_lock stale now p (some f) s =
    if ltb stale (now - f.created_at) then moves p (observed f.token) s else s

abbrev has_token : ℕ → Option LockFile → Bool
has_token token none = false
has_token token (some f) = f.token == token

-- `restoreSideFile`: the link fails where a newer lock is at the path.
abbrev restore_side_file : LockFile → Option LockFile → Option LockFile
restore_side_file f none = some f
restore_side_file f (some newer) = some newer

-- The rename fails where the lock is gone.
abbrev rename_lock : ℕ → (LockFile → Phase) → Option LockFile → LockState → LockState
rename_lock p aside none s = moves p idle s
rename_lock p aside (some f) s = record { lock = none; phase = set_phase p (aside f) s.phase }

-- The file aside is deleted if it has the token, and restored otherwise.
abbrev verify : ℕ → ℕ → LockFile → LockState → LockState
verify p token f s =
    if f.token == token
    then moves p idle s
    else record { lock = restore_side_file f s.lock; phase = set_phase p idle s.phase }

-- One call of the file system by the process `p`.
pub data Event : Type 0 where
  creates : (now p token : ℕ) → Event
  reads : (now p : ℕ) → Event
  checks renames verifies : (p : ℕ) → Event

abbrev create_at : ℕ → ℕ → ℕ → Phase → LockState → LockState
create_at now p token idle s = create_lock now p token s.lock s
create_at now p token _ s = s

abbrev pub read_at : ℕ → ℕ → ℕ → Phase → LockState → LockState
read_at stale now p idle s = read_lock stale now p s.lock s
read_at stale now p _ s = s

abbrev check_at : ℕ → Phase → LockState → LockState
check_at p (holding token) s =
    if has_token token s.lock then moves p (releasing token) s else moves p idle s
check_at p _ s = s

abbrev rename_at : ℕ → Phase → LockState → LockState
rename_at p (observed token) s = rename_lock p (breaking token) s.lock s
rename_at p (releasing token) s = rename_lock p (removing token) s.lock s
rename_at p _ s = s

abbrev verify_at : ℕ → Phase → LockState → LockState
verify_at p (breaking token f) s = verify p token f s
verify_at p (removing token f) s = verify p token f s
verify_at p _ s = s

-- A process that does not stand before the call makes no step.
unfoldable pub step : ℕ → Event → LockState → LockState
step stale (creates now p token) s = create_at now p token (s.phase p) s
step stale (reads now p) s = read_at stale now p (s.phase p) s
step stale (checks p) s = check_at p (s.phase p) s
step stale (renames p) s = rename_at p (s.phase p) s
step stale (verifies p) s = verify_at p (s.phase p) s

unfoldable pub run : ℕ → List Event → LockState → LockState
run stale [] s = s
run stale (e ∷ es) s = run stale es (step stale e s)
