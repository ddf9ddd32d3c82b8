-- ===== src/Queue/Tally.antt =====
-- How often a task id stands in the lists and the map of src/queue/in-memory.ts.
use ai_model_arena.Common.{
  ℕ, ◌+◌, ◌≤◌, ◌≡◌, refl, some, List, [], ◌∷◌, ◌++◌, if◌then◌else◌, arith, String, str_eq, eq_iff,
  All, Bool-cases, inl, inr,
}
use ai_model_arena.Common.Dict.{Dict, get, put, del}
use ai_model_arena.Queue.{Task, find_due, find_dead, is_due}
use ai_model_arena.Queue.Due.{keep_front-inv}

abbrev pub one : String → String → ℕ
one i id = if str_eq id i then 1 else 0

abbrev pub tally : String → List Task → ℕ
tally i [] = 0
tally i (t ∷ ts) = one i t.task_id + tally i ts

abbrev pub held : String → Dict Task → ℕ
held i [] = 0
held i ((k, t) ∷ m) = one i k + held i m

-- Every entry stands under the id of its task.
abbrev pub IsKeyed : Dict Task → Type 0
IsKeyed m = All (λ e. e.1.task_id ≡ e.0) m

pub tally-append : (i : String) (xs ys : List Task) → tally i (xs ++ ys) ≡ tally i xs + tally i ys
tally-append i [] ys = omega arith
tally-append i (x ∷ xs) ys = omega (arith, tally-append i xs ys)

pub tally-find_due :
    (i : String) (now : ℕ) (ts : List Task) (t : Task) (rest : List Task)
    → find_due now ts ≡ some (t, rest)
    → tally i ts ≡ one i t.task_id + tally i rest
unfolding find_due
tally-find_due i now [] t rest e = cc
tally-find_due i now (u ∷ ts) t rest e = elim (Bool-cases (is_due now u)) [
  | inl due ↦ ground arith
  | inr later ↦
      let (r, found, same) = keep_front-inv u (find_due now ts) t rest (ground arith) in
      rw same (omega (arith, tally-find_due i now ts t r found))
]

pub tally-find_dead :
    (i id : String) (ts : List Task) (t : Task) (rest : List Task)
    → find_dead id ts ≡ some (t, rest)
    → tally i ts ≡ one i t.task_id + tally i rest
unfolding find_dead
tally-find_dead i id [] t rest e = cc
tally-find_dead i id (u ∷ ts) t rest e = elim (Bool-cases (str_eq u.task_id id)) [
  | inl hit ↦ ground arith
  | inr miss ↦
      let (r, found, same) = keep_front-inv u (find_dead id ts) t rest (ground arith) in
      rw same (omega (arith, tally-find_dead i id ts t r found))
]

pub held-put :
    (i k : String) (t : Task) (m : Dict Task)
    → held k m ≡ 0
    → held i (put k t m) ≡ held i m + one i k
unfolding put
held-put i k t [] h = ground arith
held-put i k t ((j, u) ∷ m) h = ground (arith, held-put i k t m)

pub held-del :
    (i k : String) (m : Dict Task) → held i (del k m) ≡ (if str_eq k i then 0 else held i m)
unfolding del
held-del i k [] = ground arith
held-del i k ((j, u) ∷ m) = ground (arith, held-del i k m, eq_iff j k, eq_iff j i, eq_iff k i)

pub held-of_get : (k : String) (m : Dict Task) (t : Task) → get k m ≡ some t → 1 ≤ held k m
unfolding get
held-of_get k [] t e = cc
held-of_get k ((j, u) ∷ m) t e = ground (arith, held-of_get k m t)

pub get-IsKeyed :
    (k : String) (m : Dict Task) (t : Task) → IsKeyed m → get k m ≡ some t → t.task_id ≡ k
unfolding get
get-IsKeyed k [] t a e = cc
get-IsKeyed k ((j, u) ∷ m) t a e = ground (arith, get-IsKeyed k m t a.1, eq_iff j k)

pub put-IsKeyed : (t : Task) (m : Dict Task) → IsKeyed m → IsKeyed (put t.task_id t m)
unfolding put
put-IsKeyed t [] a = (refl, tt)
put-IsKeyed t ((j, u) ∷ m) a = ground (arith, put-IsKeyed t m a.1)

pub del-IsKeyed : (k : String) (m : Dict Task) → IsKeyed m → IsKeyed (del k m)
unfolding del
del-IsKeyed k [] a = tt
del-IsKeyed k ((j, u) ∷ m) a = ground (arith, del-IsKeyed k m a.1)
