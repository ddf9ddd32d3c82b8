-- ===== src/Budget/Release.antt =====
-- Releasing a reservation, in src/cost-tracking/budget.ts.
use ai_model_arena.Common.{
  ℕ, ◌+◌, ◌≡◌, ◌≢◌, refl, ap, ◌∙◌, inl, inr, true, false, Option, none, some, String, eq_refl, List,
  [], ◌∷◌, ◌++◌, arith, Bool-cases, Option-cases, All, All-append,
}
use ai_model_arena.Common.Dict.{put, get-put}
use ai_model_arena.Ledger.{Now, Reservation, BudgetState, is_safe_model, apply_spend}
use ai_model_arena.Budget.{
  BudgetConfig, reserve_budget, ok, counts, total_counted, entries_of, today_reserved_total, fits,
  keep_entry, drop_fitting, drop_or_keep, remove_reservation_entry, reservation, push_reservation,
  spend_if_any, release_reservation,
}
use ai_model_arena.Budget.Reserve.{
  reserve_budget-ok, total_counted-append, total_counted-one, today_reserved_total-push,
  counts-reservation, entries_of-push_reservation,
}

pub keep_entry-inv :
    (r : Reservation) (o : Option (List Reservation)) (rest : List Reservation)
    → keep_entry r o ≡ some rest
    → (tail : List Reservation) × (o ≡ some tail) × (rest ≡ r ∷ tail)
keep_entry-inv r none rest e = cc
keep_entry-inv r (some tail) rest e = (tail, refl, ground arith)

-- Every entry that a release of `amount` may take still counts.
abbrev pub AreLive : Now → ℕ → List Reservation → Type 0
AreLive now amount rs = All (λ r. fits now amount r ≡ true → counts now r ≡ true) rs

pub total_counted-drop_fitting :
    (now : Now) (amount : ℕ) (rs rest : List Reservation)
    → AreLive now amount rs
    → drop_fitting now amount rs ≡ some rest
    → total_counted now rest + amount ≡ total_counted now rs
unfolding drop_fitting total_counted
total_counted-drop_fitting now amount [] rest live e = cc
total_counted-drop_fitting now amount (r ∷ rs) rest live e = elim (Bool-cases (fits now amount r)) [
  | inl hit ↦
      let same : rs ≡ rest = ground arith in
      let size : r.amount ≡ amount = ground arith in
      let live_here = live.0 hit in rw (← same) (ground (arith, size, live_here))
  | inr miss ↦
      let (tail, found, same) = keep_entry-inv r (drop_fitting now amount rs) rest (ground arith) in
      rw same (omega (arith, total_counted-drop_fitting now amount rs tail live.1 found))
]

drop_fitting-snoc :
    (now : Now) (amount : ℕ) (rs : List Reservation)
    → drop_fitting now amount (rs ++ reservation now amount ∷ []) ≢ none
unfolding drop_fitting
drop_fitting-snoc now amount [] = ground (arith, eq_refl now.day)
drop_fitting-snoc now amount (r ∷ rs) = ground (arith, drop_fitting-snoc now amount rs)

-- A spend leaves the reservations alone.
pub spend_if_any-reservations :
    (now : Now) (model : String) (actual : ℕ) (s : BudgetState)
    → (spend_if_any now model actual s).reservations ≡ s.reservations
unfolding apply_spend
spend_if_any-reservations now model actual s = ground arith

-- The entries after a release, for the model and for the others.
pub remove_reservation_entry-some :
    (now : Now) (model : String) (amount : ℕ) (s : BudgetState) (rest : List Reservation)
    → drop_fitting now amount (entries_of model s) ≡ some rest
    → (remove_reservation_entry now model amount s).0
      ≡ record s { reservations = put model rest s.reservations }
unfolding remove_reservation_entry
remove_reservation_entry-some now model amount s rest e = rw (e, drop_or_keep) refl

pub release-entries :
    (now : Now) (model : String) (estimated actual : ℕ) (s : BudgetState) (rest : List Reservation)
    → is_safe_model model ≡ true
    → drop_fitting now estimated (entries_of model s) ≡ some rest
    → (release_reservation now model estimated actual s).reservations
      ≡ put model rest s.reservations
unfolding release_reservation
release-entries now model estimated actual s rest safe e = rw safe (
    spend_if_any-reservations now model actual _
    ∙ ap (λ r. r.reservations) (remove_reservation_entry-some now model estimated s rest e))

-- For a safe model, if some entry of today has the estimated amount and all such entries still
-- count, a release lowers the model's reserved total by exactly the estimate.
pub release_reservation-total :
    (now : Now) (model : String) (estimated actual : ℕ) (s : BudgetState)
    → is_safe_model model ≡ true
    → drop_fitting now estimated (entries_of model s) ≢ none
    → AreLive now estimated (entries_of model s)
    → today_reserved_total now (release_reservation now model estimated actual s) model + estimated
      ≡ today_reserved_total now s model
release_reservation-total now model estimated actual s safe there live =
    elim (Option-cases (drop_fitting now estimated (entries_of model s))) [
      | inl missing ↦ absurd (there missing)
      | inr (rest, e) ↦
          let entries : entries_of model (release_reservation now model estimated actual s) ≡ rest =
            rw (release-entries now model estimated actual s rest safe e)
              (ground (arith, get-put model model rest s.reservations, eq_refl model)) in
          rw entries (total_counted-drop_fitting now estimated (entries_of model s) rest live e)
    ]

entries_of-push_self :
    (now : Now) (model : String) (amount : ℕ) (s : BudgetState)
    → entries_of model (push_reservation now model amount s)
      ≡ entries_of model s ++ reservation now amount ∷ []
entries_of-push_self now model amount s =
    rw (entries_of-push_reservation now model model amount s, eq_refl model)

-- A reservation that succeeded for a safe model and is released at once gives back the total before,
-- if the older entries of that amount still count.
pub release-reserve :
    (c : BudgetConfig) (now : Now) (model : String) (amount actual : ℕ) (s : BudgetState)
    → is_safe_model model ≡ true
    → (reserve_budget c now model amount s).1 ≡ ok
    → AreLive now amount (entries_of model s)
    → today_reserved_total now
        (release_reservation now model amount actual (reserve_budget c now model amount s).0)
        model
      ≡ today_reserved_total now s model
release-reserve c now model amount actual s safe accepted live = rw pushed (
    omega (
      arith,
      release_reservation-total now model amount actual (push_reservation now model amount s) safe
          there still,
      today_reserved_total-push now model amount s,
    ))
  where
    pushed : (reserve_budget c now model amount s).0 ≡ push_reservation now model amount s
    pushed = reserve_budget-ok c now model amount s safe accepted

    there : drop_fitting now amount (entries_of model (push_reservation now model amount s)) ≢ none
    there =
        rw (entries_of-push_self now model amount s)
          (drop_fitting-snoc now amount (entries_of model s))

    still : AreLive now amount (entries_of model (push_reservation now model amount s))
    still = rw (entries_of-push_self now model amount s) (
        All-append (λ r. fits now amount r ≡ true → counts now r ≡ true) (entries_of model s) _ live
          ((λ _. counts-reservation now amount), tt))

-- If a reservation for a safe model succeeds while an older entry of today of the same amount
-- stands first and has expired, the release takes the older entry, and the reservation just made
-- goes on counting.
pub release-reserve_leak :
    (c : BudgetConfig) (now : Now) (model : String) (amount actual : ℕ) (s : BudgetState)
    (old : Reservation) (rest : List Reservation)
    → is_safe_model model ≡ true
    → (reserve_budget c now model amount s).1 ≡ ok
    → entries_of model s ≡ old ∷ rest
    → fits now amount old ≡ true
    → counts now old ≡ false
    → today_reserved_total now
        (release_reservation now model amount actual (reserve_budget c now model amount s).0)
        model
      ≡ today_reserved_total now s model + amount
release-reserve_leak c now model amount actual s old rest safe accepted first hit expired =
    rw (reserve_budget-ok c now model amount s safe accepted) (
      rw entries (
        omega (
          arith,
          total_counted-append now rest (reservation now amount ∷ []),
          total_counted-one now amount,
          uncounted,
        )))
  where
    taken :
        drop_fitting now amount (entries_of model (push_reservation now model amount s))
        ≡ some (rest ++ reservation now amount ∷ [])
    taken =
        unfold drop_fitting in
        rw (entries_of-push_self now model amount s, first) (ground (arith, hit))

    entries :
        entries_of model
          (release_reservation now model amount actual (push_reservation now model amount s))
        ≡ rest ++ reservation now amount ∷ []
    entries =
        rw
          (release-entries now model amount actual (push_reservation now model amount s)
            (rest ++ reservation now amount ∷ []) safe taken)
          (ground (
            arith,
            get-put model model (rest ++ reservation now amount ∷ [])
                (push_reservation now model amount s).reservations,
            eq_refl model,
          ))

    uncounted : total_counted now (entries_of model s) ≡ total_counted now rest
    uncounted = unfold total_counted in rw first (ground (arith, expired))
