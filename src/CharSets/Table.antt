-- ===== src/CharSets/Table.antt =====
-- The path of folding by case for wide sets, in src/tools/executors.ts: a table of all code units.
use ai_model_arena.Common.{
  ℕ, zero, suc, ◌+◌, ◌-◌, ◌≤◌, ◌<◌, ◌≡◌, ◌≢◌, refl, ◌∙◌, sym, ap, ◌⊎◌, inl, inr, true, false, ◌||◌,
  Option, none, some, List, [], ◌∷◌, if◌then◌else◌, ◌==◌, ==_iff, arith, Bool-cases,
}
use ai_model_arena.CharSets.{
  CharSet, max_code_unit, in_range, has, CaseMaps, Present, mark_mapped, mark_variants, runs_from,
  wide_fold, code_units,
}
use ai_model_arena.CharSets.Points.{is_mapped, is_variant}

mark_mapped_lem :
    (c : ℕ) (ys : List ℕ) (present : Present)
    → mark_mapped ys present c ≡ (is_mapped c ys || present c)
unfolding mark_mapped
mark_mapped_lem c [] present = refl
mark_mapped_lem c (y ∷ []) present = refl
mark_mapped_lem c (y ∷ z ∷ zs) present = refl

abbrev marked : CaseMaps → ℕ → Present → Present
marked m code present =
    if present code
    then mark_mapped (m.upper code) (mark_mapped (m.lower code) present)
    else present

marked-keeps :
    (m : CaseMaps) (c code : ℕ) (present : Present)
    → present c ≡ true
    → marked m code present c ≡ true
marked-keeps m c code present h = elim (Bool-cases (present code)) [
  | inl e ↦ rw e (
      ground (
        arith,
        mark_mapped_lem c (m.upper code) (mark_mapped (m.lower code) present),
        mark_mapped_lem c (m.lower code) present,
      ))
  | inr n ↦ rw n h
]

marked-adds :
    (m : CaseMaps) (c code : ℕ) (present : Present)
    → present code ≡ true
    → is_variant m code c ≡ true
    → marked m code present c ≡ true
marked-adds m c code present h v =
    let self : (c == code) ≡ true → present c ≡ true = λ e. ap present ((==_iff c code).0 e) ∙ h in
    let some_variant : (is_mapped c (m.upper code) || (is_mapped c (m.lower code) || present c))
        ≡ true =
      ground (arith, self) in
    rw h (
      mark_mapped_lem c (m.upper code) (mark_mapped (m.lower code) present)
      ∙ ap (λ b. is_mapped c (m.upper code) || b) (mark_mapped_lem c (m.lower code) present)
      ∙ some_variant)

mark_variants-keeps :
    (m : CaseMaps) (c n code : ℕ) (present : Present)
    → present c ≡ true
    → mark_variants m n code present c ≡ true
unfolding mark_variants
mark_variants-keeps m c zero code present h = h
mark_variants-keeps m c (suc n) code present h =
    mark_variants-keeps m c n (code + 1) (marked m code present) (marked-keeps m c code present h)

mark_variants-adds :
    (m : CaseMaps) (c x n code : ℕ) (present : Present)
    → code ≤ x
    → x < code + n
    → present x ≡ true
    → is_variant m x c ≡ true
    → mark_variants m n code present c ≡ true
unfolding mark_variants
mark_variants-adds m c x zero code present h k p v = absurd (omega arith)
mark_variants-adds m c x (suc n) code present h k p v = elim (Bool-cases (x == code)) [
  | inl here ↦
      let same : x ≡ code = (==_iff x code).0 here in
      mark_variants-keeps m c n (code + 1) (marked m code present)
        (marked-adds m c code present (rw (sym same) p) (rw (sym same) v))
  | inr later ↦
      mark_variants-adds m c x n (code + 1) (marked m code present) (ground arith) (omega arith)
        (marked-keeps m x code present p) v
]

-- `c` is marked, and its run is open or not yet reached.
abbrev IsAhead : ℕ → ℕ → Present → Option ℕ → Type 0
IsAhead c code present none = (code ≤ c) × (present c ≡ true)
IsAhead c code present (some run_start) = (run_start ≤ c) × ((c < code) ⊎ (present c ≡ true))

absent_at : (c code : ℕ) (present : Present) → present code ≡ false → present c ≡ true → c ≢ code
absent_at c code present h k e = cc

IsAhead-open :
    (c code run_start : ℕ) (present : Present)
    → IsAhead c code present (some run_start)
    → present code ≡ true
    → IsAhead c (code + 1) present (some run_start)
IsAhead-open c code run_start present h p = ground arith

IsAhead-closed :
    (c code run_start : ℕ) (present : Present)
    → IsAhead c code present (some run_start)
    → present code ≡ false
    → (in_range c (run_start, code - 1) ≡ true) ⊎ IsAhead c (code + 1) present none
IsAhead-closed c code run_start present (s, inl before) p = inl (ground arith)
IsAhead-closed c code run_start present (s, inr marked) p =
    let other : c ≢ code = absent_at c code present p marked in ground arith

IsAhead-none :
    (c code : ℕ) (present : Present)
    → IsAhead c code present none
    → IsAhead c (code + 1) present (if present code then some code else none)
IsAhead-none c code present (h, k) = elim (Bool-cases (present code)) [
  | inl e ↦ rw e (h, inr k)
  | inr n ↦ let other : c ≢ code = absent_at c code present n k in rw n (omega arith, k)
]

-- The end of an open run is written at the latest behind the last code unit.
runs_from-has :
    (c n code : ℕ) (present : Present) (o : Option ℕ)
    → code + n ≡ code_units
    → c ≤ max_code_unit
    → IsAhead c code present o
    → has c (runs_from present n code o) ≡ true
unfolding runs_from
runs_from-has c zero code present none e h a = absurd (omega arith)
runs_from-has c zero code present (some run_start) e h a = ground arith
runs_from-has c (suc n) code present none e h a =
    runs_from-has c n (code + 1) present (if present code then some code else none) (omega arith) h
      (IsAhead-none c code present a)
runs_from-has c (suc n) code present (some run_start) e h a = elim (Bool-cases (present code)) [
  | inl p ↦ rw p (
      runs_from-has c n (code + 1) present (some run_start) (omega arith) h
        (IsAhead-open c code run_start present a p))
  | inr p ↦ rw p (elim (IsAhead-closed c code run_start present a p) [
    | inl inside ↦ ground arith
    | inr ahead ↦
        let later = runs_from-has c n (code + 1) present none (omega arith) h ahead in ground arith
  ])
]

pub wide_fold-has :
    (m : CaseMaps) (set : CharSet) (c x : ℕ)
    → x ≤ max_code_unit
    → c ≤ max_code_unit
    → has x set ≡ true
    → is_variant m x c ≡ true
    → has c (wide_fold m set) ≡ true
unfolding wide_fold
wide_fold-has m set c x hx hc h v =
    runs_from-has c code_units 0 (mark_variants m code_units 0 (λ y. has y set)) none refl hc (
      omega arith,
      mark_variants-adds m c x code_units 0 (λ y. has y set) (omega arith) (omega arith) h v,
    )
