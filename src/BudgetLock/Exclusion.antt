-- ===== src/BudgetLock/Exclusion.antt =====
-- Mutual exclusion under the lock of src/cost-tracking/budget.ts while no live lock is taken for stale.
use ai_model_arena.Common.{
  ℕ, ◌-◌, ◌<◌, ◌≡◌, refl, true, false, Option, none, some, List, [], ◌∷◌, arith, ap, if◌then◌else◌,
  ltb, subst, sym, ◌∙◌,
}
use ai_model_arena.BudgetLock.{
  LockFile, Phase, idle, observed, breaking, holding, releasing, removing, LockState, Event,
  creates, reads, checks, renames, verifies, step, run, read_at, read_lock, moves, lock_stale_ms,
}

-- The file at the path is the one that `p` wrote with `token`.
abbrev Owns : ℕ → ℕ → Option LockFile → Type 0
Owns p token none = false ≡ true
Owns p token (some f) = (f.pid ≡ p) × (f.token ≡ token)

-- What a phase says of the path: a holder's file is there, and no file is broken.
abbrev Fits : ℕ → Option LockFile → Phase → Type 0
Fits p lock idle = Unit
Fits p lock (observed token) = false ≡ true
Fits p lock (breaking token f) = false ≡ true
Fits p lock (holding token) = Owns p token lock
Fits p lock (releasing token) = Owns p token lock
Fits p lock (removing token f) = f.token ≡ token

abbrev pub AreFit : LockState → Type 0
AreFit s = (p : ℕ) → Fits p s.lock (s.phase p)

-- The lock that is read is younger than the stale window.
abbrev pub IsYoung : ℕ → ℕ → Option LockFile → Type 0
IsYoung stale now none = Unit
IsYoung stale now (some f) = ltb stale (now - f.created_at) ≡ false

abbrev pub IsTimely : ℕ → Event → LockState → Type 0
IsTimely stale (reads now p) s = IsYoung stale now s.lock
IsTimely stale _ s = Unit

-- Whoever holds the lock in a history gives it back within the stale window.
abbrev pub AreTimely : ℕ → List Event → LockState → Type 0
AreTimely stale [] s = Unit
AreTimely stale (e ∷ es) s = IsTimely stale e s × AreTimely stale es (step stale e s)

read_lock-young :
    (stale now p : ℕ) (lock : Option LockFile) (s : LockState)
    → IsYoung stale now lock
    → read_lock stale now p lock s ≡ s
read_lock-young stale now p none s w = refl
read_lock-young stale now p (some f) s w = ap (λ b. if b then moves p (observed f.token) s else s) w

read_at-young :
    (stale now p : ℕ) (x : Phase) (s : LockState)
    → IsYoung stale now s.lock
    → read_at stale now p x s ≡ s
read_at-young stale now p x s w = ground (arith, read_lock-young stale now p s.lock s w)

step-AreFit :
    (stale : ℕ) (e : Event) (s : LockState)
    → IsTimely stale e s
    → AreFit s
    → AreFit (step stale e s)
unfolding step
step-AreFit stale (creates now p token) s w h q = ground (arith, h p, h q)
step-AreFit stale (reads now p) s w h q =
    subst AreFit (sym (read_at-young stale now p (s.phase p) s w)) h q
step-AreFit stale (checks p) s w h q = ground (arith, h p, h q)
step-AreFit stale (renames p) s w h q = ground (arith, h p, h q)
step-AreFit stale (verifies p) s w h q = ground (arith, h p, h q)

run-AreFit :
    (stale : ℕ) (es : List Event) (s : LockState)
    → AreTimely stale es s
    → AreFit s
    → AreFit (run stale es s)
unfolding run
run-AreFit stale [] s w h = h
run-AreFit stale (e ∷ es) s (w, ws) h =
    run-AreFit stale es (step stale e s) ws (step-AreFit stale e s w h)

Owns-unique : (p q t u : ℕ) (lock : Option LockFile) → Owns p t lock → Owns q u lock → p ≡ q
Owns-unique p q t u none h k = ground arith
Owns-unique p q t u (some f) (h, _) (k, _) = sym h ∙ k

holding-Owns : (s : LockState) (p t : ℕ) → AreFit s → s.phase p ≡ holding t → Owns p t s.lock
holding-Owns s p t h e = subst (Fits p s.lock) e (h p)

-- While every lock that a waiting process reads is younger than the stale window, any interleaving of
-- acquisitions and releases leaves at most one process with the lock: two holders are the same process.
pub run-IsExclusive :
    (stale : ℕ) (es : List Event) (s : LockState) (p q t u : ℕ)
    → AreFit s
    → AreTimely stale es s
    → (run stale es s).phase p ≡ holding t
    → (run stale es s).phase q ≡ holding u
    → p ≡ q
run-IsExclusive stale es s p q t u h w hp hq =
    let fits = run-AreFit stale es s w h in
    Owns-unique p q t u (run stale es s).lock (holding-Owns (run stale es s) p t fits hp)
      (holding-Owns (run stale es s) q u fits hq)

-- The stale window is shorter than the time that a process waits, whatever the environment sets, unless
-- the process waits for one millisecond or less.
lock_stale_ms-below : (stale timeout : ℕ) → 1 < timeout → lock_stale_ms stale timeout < timeout
unfolding lock_stale_ms
lock_stale_ms-below stale timeout h = ground arith
