-- ===== src/StartRun/Refund.antt =====
-- The reservations of a start that fails, in src/orchestrator/run-lifecycle.ts with
-- src/cost-tracking/budget.ts.
use ai_model_arena.Common.{
  ℕ, ◌+◌, ◌≤◌, ◌<◌, ◌≡◌, ◌≢◌, inl, inr, true, ◌&&◌, none, some, String, str_eq, eq_refl, eq_iff,
  List, [], ◌∷◌, ◌++◌, arith, Bool-cases, Option-cases, All, if◌then◌else◌, ◌==◌,
}
use ai_model_arena.Common.Dict.{get-put}
use ai_model_arena.Ledger.{Now, Reservation, BudgetState, is_safe_model}
use ai_model_arena.Budget.{
  counts, entries_of, today_reserved_total, fits, drop_fitting, reservation, release_reservation,
}
use ai_model_arena.Budget.Release.{
  keep_entry-inv, total_counted-drop_fitting, AreLive, release-entries,
}
use ai_model_arena.StartRun.{release_all}

-- How many entries a release of `amount` could take.
unfoldable pub count_fits : Now → ℕ → List Reservation → ℕ
count_fits now amount [] = 0
count_fits now amount (r ∷ rs) = (if fits now amount r then 1 else 0) + count_fits now amount rs

pub count_fits-append :
    (now : Now) (amount : ℕ) (xs ys : List Reservation)
    → count_fits now amount (xs ++ ys) ≡ count_fits now amount xs + count_fits now amount ys
unfolding count_fits
count_fits-append now amount [] ys = omega arith
count_fits-append now amount (x ∷ xs) ys = omega (arith, count_fits-append now amount xs ys)

pub count_fits-one :
    (now : Now) (a b : ℕ) → count_fits now a (reservation now b ∷ []) ≡ (if b == a then 1 else 0)
unfolding count_fits
count_fits-one now a b = ground (arith, eq_refl now.day)

drop_fitting-some :
    (now : Now) (amount : ℕ) (rs : List Reservation)
    → 0 < count_fits now amount rs
    → drop_fitting now amount rs ≢ none
unfolding count_fits drop_fitting
drop_fitting-some now amount [] h = ground arith
drop_fitting-some now amount (r ∷ rs) h = ground (arith, drop_fitting-some now amount rs)

-- Dropping an entry of amount `a` lowers the count of `a` by one and leaves the other counts.
count_fits-drop :
    (now : Now) (a b : ℕ) (rs rest : List Reservation)
    → drop_fitting now a rs ≡ some rest
    → count_fits now b rs ≡ count_fits now b rest + (if a == b then 1 else 0)
unfolding count_fits drop_fitting
count_fits-drop now a b [] rest e = cc
count_fits-drop now a b (r ∷ rs) rest e = elim (Bool-cases (fits now a r)) [
  | inl hit ↦ let same : rs ≡ rest = ground arith in rw (← same) (ground (arith, hit))
  | inr miss ↦
      let (tail, found, same) = keep_entry-inv r (drop_fitting now a rs) rest (ground arith) in
      rw same (omega (arith, count_fits-drop now a b rs tail found))
]

entries_of-release :
    (now : Now) (model k : String) (a : ℕ) (s : BudgetState) (rest : List Reservation)
    → is_safe_model model ≡ true
    → drop_fitting now a (entries_of model s) ≡ some rest
    → entries_of k (release_reservation now model a 0 s)
      ≡ (if str_eq model k then rest else entries_of k s)
entries_of-release now model k a s rest safe e =
    rw (release-entries now model a 0 s rest safe e)
      (ground (arith, get-put k model rest s.reservations))

-- How often a reservation of a model and an amount stands in a list.
abbrev pub copies : String → ℕ → List (String × ℕ) → ℕ
copies k b [] = 0
copies k b ((model, a) ∷ rs) = (if str_eq model k && a == b then 1 else 0) + copies k b rs

abbrev pub sum_for : String → List (String × ℕ) → ℕ
sum_for k [] = 0
sum_for k ((model, a) ∷ rs) = (if str_eq model k then a else 0) + sum_for k rs

-- Every entry of today counts: none has expired.
abbrev pub NoneExpired : Now → List Reservation → Type 0
NoneExpired now rs = All (λ r. str_eq r.daily_key now.day ≡ true → counts now r ≡ true) rs

expired-drop :
    (now : Now) (a : ℕ) (rs rest : List Reservation)
    → drop_fitting now a rs ≡ some rest
    → NoneExpired now rs
    → NoneExpired now rest
unfolding drop_fitting
expired-drop now a [] rest e n = cc
expired-drop now a (r ∷ rs) rest e n = elim (Bool-cases (fits now a r)) [
  | inl hit ↦ let same : rs ≡ rest = ground arith in rw (← same) n.1
  | inr miss ↦
      let (tail, found, same) = keep_entry-inv r (drop_fitting now a rs) rest (ground arith) in
      rw same (n.0, expired-drop now a rs tail found n.1)
]

live-expired : (now : Now) (a : ℕ) (rs : List Reservation) → NoneExpired now rs → AreLive now a rs
live-expired now a [] n = tt
live-expired now a (r ∷ rs) n = ((λ hit. n.0 (ground arith)), live-expired now a rs n.1)

-- Each reservation of the list can be taken back: all are of safe models and stand in the state.
pub record IsHeld (now : Now) (rs : List (String × ℕ)) (s : BudgetState) : Type 0 where
  pub safe : All (λ r. is_safe_model r.0 ≡ true) rs
  pub there : (k : String) (b : ℕ) → copies k b rs ≤ count_fits now b (entries_of k s)
  pub live : (k : String) → NoneExpired now (entries_of k s)

held-found :
    (now : Now) (model : String) (a : ℕ) (rs : List (String × ℕ)) (s : BudgetState)
    → IsHeld now ((model, a) ∷ rs) s
    → (rest : List Reservation) × (drop_fitting now a (entries_of model s) ≡ some rest)
held-found now model a rs s held = elim (Option-cases (drop_fitting now a (entries_of model s))) [
  | inl missing ↦ absurd (drop_fitting-some now a (entries_of model s) positive missing)
  | inr found ↦ found
]
  where
    positive : 0 < count_fits now a (entries_of model s)
    positive = ground (arith, held.there model a, eq_refl model)

release-IsHeld :
    (now : Now) (model : String) (a : ℕ) (rs : List (String × ℕ)) (s : BudgetState)
    (rest : List Reservation)
    → IsHeld now ((model, a) ∷ rs) s
    → drop_fitting now a (entries_of model s) ≡ some rest
    → IsHeld now rs (release_reservation now model a 0 s)
release-IsHeld now model a rs s rest held e = record {
  safe = held.safe.1;
  there = λ k b.
      rw (entries_of-release now model k a s rest held.safe.0 e)
        (elim (Bool-cases (str_eq model k)) [
          | inl hit ↦
              let same : model ≡ k = ground (arith, eq_iff model k, hit) in
              rw (← same, eq_refl model)
                (ground (
                  arith,
                  eq_refl model,
                  held.there model b,
                  count_fits-drop now a b (entries_of model s) rest e,
                ))
          | inr miss ↦ rw miss (ground (arith, held.there k b, miss))
        ]);
  live = λ k.
      rw (entries_of-release now model k a s rest held.safe.0 e)
        (elim (Bool-cases (str_eq model k)) [
          | inl hit ↦ rw hit (expired-drop now a (entries_of model s) rest e (held.live model))
          | inr miss ↦ rw miss (held.live k)
        ]);
}

release-total :
    (now : Now) (model k : String) (a : ℕ) (rs : List (String × ℕ)) (s : BudgetState)
    (rest : List Reservation)
    → IsHeld now ((model, a) ∷ rs) s
    → drop_fitting now a (entries_of model s) ≡ some rest
    → today_reserved_total now (release_reservation now model a 0 s) k
        + (if str_eq model k then a else 0)
      ≡ today_reserved_total now s k
release-total now model k a rs s rest held e =
    rw (entries_of-release now model k a s rest held.safe.0 e) (elim (Bool-cases (str_eq model k)) [
      | inl hit ↦
          let same : model ≡ k = ground (arith, eq_iff model k, hit) in
          rw (← same, eq_refl model)
            (total_counted-drop_fitting now a (entries_of model s) rest
              (live-expired now a (entries_of model s) (held.live model)) e)
      | inr miss ↦ rw miss (omega arith)
    ])

-- Taking back a list of reservations lowers the reserved total of each model by what the list holds of it.
pub release_all-total :
    (now : Now) (k : String) (rs : List (String × ℕ)) (s : BudgetState)
    → IsHeld now rs s
    → today_reserved_total now (release_all now rs s) k + sum_for k rs
      ≡ today_reserved_total now s k
unfolding release_all
release_all-total now k [] s held = omega arith
release_all-total now k ((model, a) ∷ rs) s held =
    let (rest, e) = held-found now model a rs s held in
    omega (
      arith,
      release-total now model k a rs s rest held e,
      release_all-total now k rs (release_reservation now model a 0 s)
          (release-IsHeld now model a rs s rest held e),
    )

pub copies-append :
    (k : String) (b : ℕ) (xs ys : List (String × ℕ))
    → copies k b (xs ++ ys) ≡ copies k b xs + copies k b ys
copies-append k b [] ys = omega arith
copies-append k b ((model, a) ∷ xs) ys = omega (arith, copies-append k b xs ys)

pub sum_for-append :
    (k : String) (xs ys : List (String × ℕ)) → sum_for k (xs ++ ys) ≡ sum_for k xs + sum_for k ys
sum_for-append k [] ys = omega arith
sum_for-append k ((model, a) ∷ xs) ys = omega (arith, sum_for-append k xs ys)
