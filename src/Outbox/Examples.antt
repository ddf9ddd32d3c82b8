-- ===== src/Outbox/Examples.antt =====
-- The theorems on src/notifications/outbox.ts at a small row, and tests.
use ai_model_arena.Common.{◌+◌, ◌≡◌, refl, true, false, some, [], ◌∷◌, arith}
use ai_model_arena.Outbox.{
  sending, dead, OutboxRow, claim_lease_ms, max_backoff_ms, claim_row, bump_attempts, sent, resolve,
  persist_notification, claims, bumps, step, run,
}
use ai_model_arena.Outbox.Lease.{resolve-claim_row, claim_row-run}

abbrev fresh : OutboxRow
fresh = persist_notification 10 "n1" "run.completed" "slack" "{}"

abbrev buried : OutboxRow
buried = record fresh { status = dead; attempts = 5; last_error = some "timeout" }

abbrev expired : OutboxRow
expired = record fresh { status = sending; next_attempt_at = some 300_020 }

-- The sweep of time 20 was slow, and the sweep of time 400000 has taken its row.
resolve-claim_row_test :
    resolve 400_500
      (20 + claim_lease_ms)
      sent
      (claim_row 400_000 (400_000 + claim_lease_ms) expired).0
    ≡ ((claim_row 400_000 (400_000 + claim_lease_ms) expired).0, false)
unfolding claim_row
resolve-claim_row_test = resolve-claim_row 20 400_000 400_500 sent expired refl (omega arith)

claim_row-run_example :
    (claim_row (60 + max_backoff_ms) 2_000_000 (run (claims 50 ∷ bumps 50 "late" ∷ []) fresh)).1
    ≡ true
unfolding run step claim_row bump_attempts
claim_row-run_example =
    claim_row-run 60 2_000_000 (claims 50 ∷ bumps 50 "late" ∷ []) fresh (omega arith, (tt, tt)) tt
      refl
