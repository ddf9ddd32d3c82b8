-- ===== src/RunLifecycle/Claims.antt =====
-- Who may finalize a run: src/orchestrator/finalize/aggregate.ts with src/orchestrator/run-lifecycle.ts.
use ai_model_arena.Common.{
  ℕ, zero, suc, String, subst, ◌||◌, ◌+◌, ◌<◌, ◌≡◌, true, false, Option, none, some, List, [], ◌∷◌,
  arith, get_elem?, All, All-append, inl, inr, Option-cases, refl,
}
use ai_model_arena.Runs.{
  RunStatus, ModelEntry, is_terminal, is_finalizing, finalizing, status_code, Run, RunTables,
  finalize_stale_ms, clear_run_cancelled, claim_run_finalization, patched, upsert_run,
  transition_task_state,
}
use ai_model_arena.RunLifecycle.{
  stop_run, mark_run_reaped, fail_non_terminal_models, prepare_run_finalization,
  is_stop_grace_elapsed, acknowledge_stop, is_stop_awaiting_runner,
}
use ai_model_arena.RunLifecycle.Steps.{
  Event, claims, patches, completes, stops, restarts, registers, reaps, fails_rows, prepares,
  acknowledges, transitions, step, run, clears, reads, World, unread, update, note_read, write_back,
  register_read,
}

-- The part of a run that decides about claims: its status, its time and its attempt.
abbrev pub Claim : Type 0
Claim = RunStatus × Option ℕ × ℕ

abbrev pub claim_found : Option Run → Option Claim
claim_found none = none
claim_found (some r) = some (r.status, r.finished_at, r.finalization_attempt)

abbrev pub claim_of : RunTables → Option Claim
claim_of t = claim_found t.run

-- The events that leave the claim of the active finalizer alone: all but a restart, the finalizer's own completion,
-- and a claim when the window is over.
abbrev pub IsWithin : ℕ → ℕ × Event → Type 0
IsWithin at (now, claims) = now < at + finalize_stale_ms
IsWithin at (now, completes as_errored) = false ≡ true
IsWithin at (now, restarts read) = false ≡ true
IsWithin at (now, _) = Unit

abbrev pub AreWithin : ℕ → List (ℕ × Event) → Type 0
AreWithin at [] = Unit
AreWithin at (e ∷ es) = IsWithin at e × AreWithin at es

module _ (P : Option Run → Type 0) where
  -- The record of any read has what all of them have.
  pub read-seen :
      (seen : List (Option Run)) (i : ℕ) (o : Option Run)
      → All P seen
      → get_elem? seen i ≡ some o
      → P o
  read-seen [] i o h e = cc
  read-seen (x ∷ seen) zero o h e = subst P (ground (arith, e)) h.0
  read-seen (x ∷ seen) (suc i) o h e = read-seen seen i o h.1 e

  -- A read of the tables adds the record that they have.
  pub note_read-All :
      (e : Event) (t : RunTables) (seen : List (Option Run))
      → P t.run
      → All P seen
      → All P (note_read e t seen)
  note_read-All reads t seen p h = All-append P seen (t.run ∷ []) h (p, tt)
  note_read-All claims t seen p h = h
  note_read-All (patches read paths entries) t seen p h = h
  note_read-All (completes as_errored) t seen p h = h
  note_read-All stops t seen p h = h
  note_read-All clears t seen p h = h
  note_read-All (restarts read) t seen p h = h
  note_read-All (registers read started_at models) t seen p h = h
  note_read-All reaps t seen p h = h
  note_read-All fails_rows t seen p h = h
  note_read-All prepares t seen p h = h
  note_read-All acknowledges t seen p h = h
  note_read-All (transitions model status runner) t seen p h = h

-- A record with a claim.
abbrev pub HasClaim : Claim → Option Run → Type 0
HasClaim c o = claim_found o ≡ some c

pub patches-claim :
    (s : RunStatus) (at n now : ℕ) (paths : String × String) (entries : List ModelEntry)
    (o : Option Run) (t : RunTables)
    → HasClaim (s, some at, n) o
    → claim_of t ≡ some (s, some at, n)
    → claim_of (write_back (patched now paths entries) (some o) t) ≡ some (s, some at, n)
unfolding upsert_run
patches-claim s at n now paths entries o t seen h = ground arith

pub registers-claim :
    (s : RunStatus) (at n started_at : ℕ) (models : List String) (o : Option Run) (t : RunTables)
    → is_terminal s || is_finalizing s ≡ true
    → HasClaim (s, some at, n) o
    → claim_of t ≡ some (s, some at, n)
    → claim_of (register_read started_at models (some o) t) ≡ some (s, some at, n)
unfolding upsert_run
registers-claim s at n started_at models none t closed seen h = cc
registers-claim s at n started_at models (some r) t closed seen h =
    let same : r.status ≡ s = ground (arith, seen) in rw (same, closed) h

-- The tables and every record that was read have the claim.
abbrev pub Holds : Claim → World → Type 0
Holds c w = (claim_of w.tables ≡ some c) × All (HasClaim c) w.seen

-- A record that is written back, if there is one.
pub written_back :
    (P : Option Run → Type 0) (Q : RunTables → Type 0) (write : Option (Option Run) → RunTables)
    (seen : List (Option Run)) (i : ℕ)
    → All P seen
    → Q (write none)
    → ((o : Option Run) → P o → Q (write (some o)))
    → Q (write (get_elem? seen i))
written_back P Q write seen i all nothing some_read = elim (Option-cases (get_elem? seen i)) [
  | inl e ↦ rw e nothing
  | inr (o, e) ↦ rw e (some_read o (read-seen P seen i o all e))
]

update-held :
    (at n now : ℕ) (e : Event) (w : World)
    → IsWithin at (now, e)
    → Holds (finalizing, some at, n) w
    → claim_of (update now e w.seen w.tables) ≡ some (finalizing, some at, n)
unfolding update claim_run_finalization stop_run mark_run_reaped fail_non_terminal_models
    prepare_run_finalization is_stop_awaiting_runner is_stop_grace_elapsed acknowledge_stop
    clear_run_cancelled transition_task_state status_code
update-held at n now claims w i (h, seen) = ground arith
update-held at n now reads w i (h, seen) = h
update-held at n now (patches read paths entries) w i (h, seen) =
    written_back (HasClaim (finalizing, some at, n))
      (λ (t : RunTables). claim_of t ≡ some (finalizing, some at, n))
      (λ o. write_back (patched now paths entries) o w.tables) w.seen read seen h
      (λ o p. patches-claim finalizing at n now paths entries o w.tables p h)
update-held at n now (completes as_errored) w i (h, seen) = ground arith
update-held at n now stops w i (h, seen) = ground arith
update-held at n now clears w i (h, seen) = h
update-held at n now (restarts read) w i (h, seen) = ground arith
update-held at n now (registers read started_at models) w i (h, seen) =
    written_back (HasClaim (finalizing, some at, n))
      (λ (t : RunTables). claim_of t ≡ some (finalizing, some at, n))
      (λ o. register_read started_at models o w.tables) w.seen read seen h
      (λ o p. registers-claim finalizing at n started_at models o w.tables refl p h)
update-held at n now reaps w i (h, seen) = ground arith
update-held at n now fails_rows w i (h, seen) = ground arith
update-held at n now prepares w i (h, seen) = ground arith
update-held at n now acknowledges w i (h, seen) = ground arith
update-held at n now (transitions model status runner) w i (h, seen) = ground arith

step-held :
    (at n now : ℕ) (e : Event) (w : World)
    → IsWithin at (now, e)
    → Holds (finalizing, some at, n) w
    → Holds (finalizing, some at, n) (step now e w)
unfolding step
step-held at n now e w i h = (
  update-held at n now e w i h,
  note_read-All (HasClaim (finalizing, some at, n)) e w.tables w.seen h.0 h.1,
)

run-held :
    (at n : ℕ) (es : List (ℕ × Event)) (w : World)
    → AreWithin at es
    → Holds (finalizing, some at, n) w
    → claim_of (run es w).tables ≡ some (finalizing, some at, n)
unfolding run
run-held at n [] w i h = h.0
run-held at n ((now, e) ∷ es) w i h =
    run-held at n es (step now e w) i.1 (step-held at n now e w i.0 h)

claim-held :
    (at n : ℕ) (t : RunTables)
    → (claim_run_finalization at finalize_stale_ms t).1 ≡ some n
    → claim_of (claim_run_finalization at finalize_stale_ms t).0 ≡ some (finalizing, some at, n)
unfolding claim_run_finalization status_code
claim-held at n t h = ground arith

held-claim_lost :
    (at n now : ℕ) (t : RunTables)
    → now < at + finalize_stale_ms
    → claim_of t ≡ some (finalizing, some at, n)
    → (claim_run_finalization now finalize_stale_ms t).1 ≡ none
unfolding claim_run_finalization status_code
held-claim_lost at n now t w h = ground arith

-- Once a claim at some time wins, while no call is between its read of the record and its upsert, then
-- after any history without a restart, without a completion and with claims only inside the stale
-- window, every further claim inside the window loses. Calls that read and upsert may overlap in it.
pub claim-run-claim_lost :
    (t : RunTables) (at n now : ℕ) (es : List (ℕ × Event))
    → (claim_run_finalization at finalize_stale_ms t).1 ≡ some n
    → AreWithin at es
    → now < at + finalize_stale_ms
    → (claim_run_finalization now finalize_stale_ms
        (run es (unread (claim_run_finalization at finalize_stale_ms t).0)).tables).1
      ≡ none
claim-run-claim_lost t at n now es won w inside =
    held-claim_lost at n now
      (run es (unread (claim_run_finalization at finalize_stale_ms t).0)).tables inside
      (run-held at n es (unread (claim_run_finalization at finalize_stale_ms t).0) w
        (claim-held at n t won, tt))
