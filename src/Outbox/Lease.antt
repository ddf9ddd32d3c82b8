-- ===== src/Outbox/Lease.antt =====
-- The claims of src/notifications/outbox.ts: who may resolve a row, and when a row can be claimed again.
use ai_model_arena.Common.{
  ℕ, ◌+◌, ◌≤◌, ◌<◌, ◌≡◌, ◌≢◌, refl, true, false, Option, none, some, List, [], ◌∷◌, All, arith,
}
use ai_model_arena.Outbox.{
  OutboxRow, max_backoff_ms, claim_lease_ms, is_unresolved, claim_row, mark_delivered,
  bump_attempts, backoff, put_back, fail_row, SendOutcome, sent, refused, resolve, Statement,
  claims, delivers, bumps, puts_back, retries, step, run,
}

-- After a claim, no sweep claims the row before the lease ends, as long as nothing else happens to it.
pub claim_row-claim_row :
    (now later lease : ℕ) (r : OutboxRow)
    → (claim_row now (now + claim_lease_ms) r).1 ≡ true
    → later < now + claim_lease_ms
    → claim_row later lease (claim_row now (now + claim_lease_ms) r).0
      ≡ ((claim_row now (now + claim_lease_ms) r).0, false)
unfolding claim_row
claim_row-claim_row now later lease r took early = ground arith

-- A sweep whose row another sweep has claimed since, at another time, changes nothing and counts nothing when it
-- resolves the row, whatever its send came to.
pub resolve-claim_row :
    (now later end : ℕ) (outcome : SendOutcome) (r : OutboxRow)
    → (claim_row later (later + claim_lease_ms) r).1 ≡ true
    → now ≢ later
    → resolve end (now + claim_lease_ms) outcome (claim_row later (later + claim_lease_ms) r).0
      ≡ ((claim_row later (later + claim_lease_ms) r).0, false)
unfolding claim_row resolve mark_delivered fail_row bump_attempts
resolve-claim_row now later end sent r took other = ground arith
resolve-claim_row now later end (refused error) r took other = ground arith

-- A statement of a sweep, not a retry.
abbrev pub IsSweep : Statement → Type 0
IsSweep retries = ⊥
IsSweep _ = Unit

step-resolved :
    (e : Statement) (r : OutboxRow) → IsSweep e → is_unresolved r.status ≡ false → step e r ≡ r
unfolding step claim_row mark_delivered bump_attempts put_back
step-resolved (claims start) r s h = ground arith
step-resolved (delivers now start) r s h = ground arith
step-resolved (bumps start error) r s h = ground arith
step-resolved (puts_back now start attempts) r s h = ground arith
step-resolved retries r s h = elim s [ ]

-- A row that is neither pending nor sending stays as it is through any statements of any sweeps, until a retry: it is neither
-- sent again nor counted again.
pub run-resolved :
    (es : List Statement) (r : OutboxRow)
    → All IsSweep es
    → is_unresolved r.status ≡ false
    → run es r ≡ r
unfolding run
run-resolved [] r s h = refl
run-resolved (e ∷ es) r s h = rw (step-resolved e r s.0 h) (run-resolved es r s.1 h)

-- The statement's own time is at most `last`.
abbrev pub IsBy : ℕ → Statement → Type 0
IsBy last (claims start) = start ≤ last
IsBy last (puts_back now start attempts) = now ≤ last
IsBy last _ = Unit

-- The next attempt is at most the longest delay after `last`.
abbrev pub IsTimely : ℕ → Option ℕ → Type 0
IsTimely last none = Unit
IsTimely last (some t) = t ≤ last + max_backoff_ms

backoff-bound : (attempts : ℕ) → backoff attempts ≤ max_backoff_ms
unfolding backoff
backoff-bound attempts = omega arith

step-IsTimely :
    (last : ℕ) (e : Statement) (r : OutboxRow)
    → IsBy last e
    → IsTimely last r.next_attempt_at
    → IsTimely last (step e r).next_attempt_at
unfolding step claim_row mark_delivered bump_attempts put_back
step-IsTimely last (claims start) r b h = ground arith
step-IsTimely last (delivers now start) r b h = ground arith
step-IsTimely last (bumps start error) r b h = ground arith
step-IsTimely last (puts_back now start attempts) r b h = ground (arith, backoff-bound attempts)
step-IsTimely last retries r b h = tt

run-IsTimely :
    (last : ℕ) (es : List Statement) (r : OutboxRow)
    → All (IsBy last) es
    → IsTimely last r.next_attempt_at
    → IsTimely last (run es r).next_attempt_at
unfolding run
run-IsTimely last [] r b h = h
run-IsTimely last (e ∷ es) r b h =
    run-IsTimely last es (step e r) b.1 (step-IsTimely last e r b.0 h)

claim_row-IsTimely :
    (last lease : ℕ) (r : OutboxRow)
    → IsTimely last r.next_attempt_at
    → is_unresolved r.status ≡ true
    → (claim_row (last + max_backoff_ms) lease r).1 ≡ true
unfolding claim_row
claim_row-IsTimely last lease r h u = ground arith

-- No row is stranded: after any statements of sweeps and retries up to a time, crashed sweeps that never resolve
-- their rows included, a row that is pending or sending can be claimed fifteen minutes after that time.
pub claim_row-run :
    (last lease : ℕ) (es : List Statement) (r : OutboxRow)
    → All (IsBy last) es
    → IsTimely last r.next_attempt_at
    → is_unresolved (run es r).status ≡ true
    → (claim_row (last + max_backoff_ms) lease (run es r)).1 ≡ true
claim_row-run last lease es r b h u =
    claim_row-IsTimely last lease (run es r) (run-IsTimely last es r b h) u
