-- ===== src/Outbox/Delivery.antt =====
-- What a delivery of src/notifications/outbox.ts leaves, and when a row is dead.
use ai_model_arena.Common.{
  ℕ, ◌+◌, ◌≤◌, ◌<◌, ◌≡◌, refl, ◌⊎◌, inl, inr, true, false, none, some, String, List, [], ◌∷◌, leb,
  length, arith, Bool-cases, leb→le, subst,
}
use ai_model_arena.Outbox.{
  Status, pending, sending, delivered, dead, OutboxRow, claim_lease_ms, is_claimable, owned_row,
  claim_row, mark_delivered, bump_attempts, backoff, put_back, fail_row, SendOutcome, sent, refused,
  resolve, deliver, max_delivery_attempts, retry_notification,
}

-- The row after a failed delivery that ended at `end`.
abbrev pub IsFailed : ℕ → String → OutboxRow → OutboxRow → Type 0
IsFailed end error r r' =
    r'.attempts ≡ r.attempts + 1
    × r'.last_error ≡ some error
    × ((max_delivery_attempts ≤ r.attempts + 1 × r'.status ≡ dead × r'.next_attempt_at ≡ none)
        ⊎ (r.attempts + 1 < max_delivery_attempts
            × r'.status ≡ pending
            × r'.next_attempt_at ≡ some (end + backoff (r.attempts + 1))))

-- The row after a delivery that succeeded at `end`.
abbrev pub IsDelivered : ℕ → OutboxRow → OutboxRow → Type 0
IsDelivered end r r' =
    r'.attempts ≡ r.attempts
    × r'.status ≡ delivered
    × r'.delivered_at ≡ some end
    × r'.next_attempt_at ≡ none

abbrev pub After : ℕ → SendOutcome → OutboxRow → OutboxRow → Type 0
After end sent r r' = IsDelivered end r r'
After end (refused error) r r' = IsFailed end error r r'

resolve-After :
    (lease end : ℕ) (outcome : SendOutcome) (r : OutboxRow)
    → owned_row lease r ≡ true
    → (resolve end lease outcome r).1 ≡ true × After end outcome r (resolve end lease outcome r).0
unfolding resolve mark_delivered fail_row bump_attempts put_back
resolve-After lease end sent r own = rw own (refl, (refl, refl, refl, refl))
resolve-After lease end (refused error) r own =
    elim (Bool-cases (leb max_delivery_attempts (r.attempts + 1))) [
      | inl last ↦ rw (own, own, last) (refl, (refl, refl, inl (leb→le _ _ last, refl, refl)))
      | inr more ↦ rw (own, own, more) (refl, (refl, refl, inr (ground (arith, more), refl, refl)))
    ]

deliver-due :
    (now end : ℕ) (outcome : SendOutcome) (r : OutboxRow)
    → is_claimable now r ≡ true
    → (deliver now end outcome r).1 ≡ true × After end outcome r (deliver now end outcome r).0
unfolding deliver claim_row
deliver-due now end sent r due =
    let claimed = record r { status = sending; next_attempt_at = some (now + claim_lease_ms) } in
    rw due (resolve-After (now + claim_lease_ms) end sent claimed (ground arith))
deliver-due now end (refused error) r due =
    let claimed = record r { status = sending; next_attempt_at = some (now + claim_lease_ms) } in
    rw due (resolve-After (now + claim_lease_ms) end (refused error) claimed (ground arith))

-- A delivery of a row that is not due changes nothing; otherwise it counts, and marks the row as delivered or, after
-- an error, counts the attempt and makes the row dead at the last attempt, or pending again after the delay.
pub deliver-After :
    (now end : ℕ) (outcome : SendOutcome) (r : OutboxRow)
    → (is_claimable now r ≡ false × deliver now end outcome r ≡ (r, false))
      ⊎ (is_claimable now r ≡ true
          × ((deliver now end outcome r).1 ≡ true
              × After end outcome r (deliver now end outcome r).0))
unfolding deliver claim_row
deliver-After now end outcome r = elim (Bool-cases (is_claimable now r)) [
  | inl due ↦ inr (due, deliver-due now end outcome r due)
  | inr wait ↦ inl (wait, rw wait refl)
]

-- Deliveries, each with the time at which its sweep starts, the time at which its send ends and an error.
abbrev pub fail_all : List (ℕ × ℕ × String) → OutboxRow → OutboxRow
fail_all [] r = r
fail_all ((now, end, error) ∷ es) r = fail_all es (deliver now end (refused error) r).0

-- Each delivery comes when the row is due.
abbrev pub AreDue : List (ℕ × ℕ × String) → OutboxRow → Type 0
AreDue [] r = Unit
AreDue ((now, end, error) ∷ es) r =
    is_claimable now r ≡ true × AreDue es (deliver now end (refused error) r).0

fail_all-attempts :
    (es : List (ℕ × ℕ × String)) (r : OutboxRow)
    → AreDue es r
    → (fail_all es r).attempts ≡ r.attempts + length es
fail_all-attempts [] r d = omega arith
fail_all-attempts ((now, end, error) ∷ es) r d =
    let after = deliver-due now end (refused error) r d.0 in
    omega (arith, after.1.0, fail_all-attempts es (deliver now end (refused error) r).0 d.1)

-- Dead with `n` the limit, or pending with `n` below it.
abbrev pub IsMarked : ℕ → Status → Type 0
IsMarked n status =
    (n ≡ max_delivery_attempts × status ≡ dead) ⊎ (n < max_delivery_attempts × status ≡ pending)

claimable-pending :
    (now : ℕ) (r : OutboxRow)
    → is_claimable now r ≡ true
    → IsMarked r.attempts r.status
    → r.attempts < max_delivery_attempts
claimable-pending now r due (inl (n, e)) = ground arith
claimable-pending now r due (inr (n, e)) = n

fail_all-IsMarked_from :
    (es : List (ℕ × ℕ × String)) (r : OutboxRow)
    → AreDue es r
    → IsMarked r.attempts r.status
    → IsMarked (fail_all es r).attempts (fail_all es r).status
fail_all-IsMarked_from [] r d m = m
fail_all-IsMarked_from ((now, end, error) ∷ es) r d m =
    let after = deliver-due now end (refused error) r d.0 in
    let below = claimable-pending now r d.0 m in
    fail_all-IsMarked_from es (deliver now end (refused error) r).0 d.1 (elim after.1.2 [
      | inl (last, is_dead, none_next) ↦ inl (omega (arith, last, below, after.1.0), is_dead)
      | inr (more, is_pending, next) ↦ inr (omega (arith, more, after.1.0), is_pending)
    ])

-- After deliveries that all fail, each started when the row is due, a row that was retried is dead exactly after the
-- fifth, and pending before: a retry gives back the whole budget of attempts.
pub fail_all-IsMarked :
    (es : List (ℕ × ℕ × String)) (r : OutboxRow)
    → AreDue es (retry_notification r)
    → IsMarked (length es) (fail_all es (retry_notification r)).status
fail_all-IsMarked es r d =
    let count = fail_all-attempts es (retry_notification r) d in
    let marked = fail_all-IsMarked_from es (retry_notification r) d (inr (omega arith, refl)) in
    subst (λ n. IsMarked n (fail_all es (retry_notification r)).status) (omega (arith, count))
      marked
