-- ===== src/CharSets/Points.antt =====
-- The path of folding by case for narrow sets, in src/tools/executors.ts: a list of code units.
use ai_model_arena.Common.{
  or_assoc, ℕ, zero, suc, ◌+◌, ◌-◌, ◌≤◌, ◌<◌, ◌≡◌, refl, ◌∙◌, sym, ap, inl, inr, Bool, true, false,
  ◌||◌, List, [], ◌∷◌, ◌++◌, ◌==◌, ==_iff, arith, Bool-cases,
}
use ai_model_arena.CharSets.{
  CharSet, in_range, has, CaseMaps, mem, add_point, add_mapped, add_case_variants, insert_point,
  sort_points, ranges_from, ranges_of_sorted, points_to_ranges, add_codes, add_ranges, narrow_fold,
}

mem-insert_point : (c x : ℕ) (xs : List ℕ) → mem c (insert_point x xs) ≡ ((c == x) || mem c xs)
unfolding insert_point
mem-insert_point c x [] = refl
mem-insert_point c x (y ∷ ys) = ground (arith, mem-insert_point c x ys)

mem-sort_points : (c : ℕ) (xs : List ℕ) → mem c (sort_points xs) ≡ mem c xs
unfolding sort_points
mem-sort_points c [] = refl
mem-sort_points c (x ∷ xs) = mem-insert_point c x (sort_points xs) ∙ rw (mem-sort_points c xs) refl

in_range-grow :
    (c lo hi x : ℕ)
    → lo ≤ hi
    → ((hi + 1) == x) ≡ true
    → in_range c (lo, x) ≡ (in_range c (lo, hi) || (c == x))
in_range-grow c lo hi x h e = ground arith

in_range_single : (c x : ℕ) → in_range c (x, x) ≡ (c == x)
in_range_single c x = ground arith

has-ranges_from :
    (c lo hi : ℕ) (xs : List ℕ)
    → lo ≤ hi
    → has c (ranges_from (lo, hi) xs) ≡ (in_range c (lo, hi) || mem c xs)
unfolding ranges_from
has-ranges_from c lo hi [] h = refl
has-ranges_from c lo hi (x ∷ xs) h = elim (Bool-cases ((hi + 1) == x)) [
  | inl e ↦
      let below : lo ≤ x = ground arith in
      rw e (
        has-ranges_from c lo x xs below
        ∙ ap (λ b. b || mem c xs) (in_range-grow c lo hi x h e)
        ∙ or_assoc (in_range c (lo, hi)) (c == x) (mem c xs))
  | inr n ↦ rw n (
      ap (λ b. in_range c (lo, hi) || b)
        (has-ranges_from c x x xs (omega arith) ∙ ap (λ b. b || mem c xs) (in_range_single c x)))
]

has-ranges_of_sorted : (c : ℕ) (xs : List ℕ) → has c (ranges_of_sorted xs) ≡ mem c xs
unfolding ranges_of_sorted
has-ranges_of_sorted c [] = refl
has-ranges_of_sorted c (x ∷ xs) = ground (arith, has-ranges_from c x x xs (omega arith))

has-points_to_ranges : (c : ℕ) (xs : List ℕ) → has c (points_to_ranges xs) ≡ mem c xs
unfolding points_to_ranges
has-points_to_ranges c xs = has-ranges_of_sorted c (sort_points xs) ∙ mem-sort_points c xs

mem-append : (c : ℕ) (xs ys : List ℕ) → mem c (xs ++ ys) ≡ (mem c xs || mem c ys)
mem-append c [] ys = refl
mem-append c (x ∷ xs) ys = ground (arith, mem-append c xs ys)

mem-add_point : (c x : ℕ) (ps : List ℕ) → mem c (add_point x ps) ≡ ((c == x) || mem c ps)
unfolding add_point
mem-add_point c x ps = elim (Bool-cases (mem x ps)) [
  | inl old ↦
      rw old (elim (Bool-cases (c == x)) [
        | inl e ↦ rw e (rw ((==_iff c x).0 e) old)
        | inr n ↦ rw n refl
      ])
  | inr new ↦ rw new (mem-append c ps (x ∷ []) ∙ ground arith)
]

-- `c` is the code unit `x` or the one code unit that a mapping sends it to.
abbrev pub is_mapped : ℕ → List ℕ → Bool
is_mapped c (y ∷ []) = c == y
is_mapped c _ = false

abbrev pub is_variant : CaseMaps → ℕ → ℕ → Bool
is_variant m x c = (c == x) || (is_mapped c (m.lower x) || is_mapped c (m.upper x))

mem-add_mapped : (c : ℕ) (ys ps : List ℕ) → mem c (add_mapped ys ps) ≡ (is_mapped c ys || mem c ps)
unfolding add_mapped
mem-add_mapped c [] ps = refl
mem-add_mapped c (y ∷ []) ps = mem-add_point c y ps
mem-add_mapped c (y ∷ z ∷ zs) ps = refl

mem-add_case_variants :
    (m : CaseMaps) (c x : ℕ) (ps : List ℕ)
    → mem c (add_case_variants m ps x) ≡ (is_variant m x c || mem c ps)
unfolding add_case_variants
mem-add_case_variants m c x ps = ground (
  arith,
  mem-add_mapped c (m.upper x) (add_mapped (m.lower x) (add_point x ps)),
  mem-add_mapped c (m.lower x) (add_point x ps),
  mem-add_point c x ps,
)

add_codes-keeps :
    (m : CaseMaps) (c n code : ℕ) (ps : List ℕ)
    → mem c ps ≡ true
    → mem c (add_codes m n code ps) ≡ true
unfolding add_codes
add_codes-keeps m c zero code ps h = h
add_codes-keeps m c (suc n) code ps h =
    add_codes-keeps m c n (code + 1) (add_case_variants m ps code)
      (mem-add_case_variants m c code ps ∙ ground arith)

add_codes-adds :
    (m : CaseMaps) (c x n code : ℕ) (ps : List ℕ)
    → code ≤ x
    → x < code + n
    → is_variant m x c ≡ true
    → mem c (add_codes m n code ps) ≡ true
unfolding add_codes
add_codes-adds m c x zero code ps h k v = absurd (omega arith)
add_codes-adds m c x (suc n) code ps h k v = elim (Bool-cases (x == code)) [
  | inl here ↦
      add_codes-keeps m c n (code + 1) (add_case_variants m ps code)
        (mem-add_case_variants m c code ps ∙ rw (sym ((==_iff x code).0 here)) (ground arith))
  | inr later ↦
      add_codes-adds m c x n (code + 1) (add_case_variants m ps code) (ground arith) (omega arith) v
]

add_ranges-keeps :
    (m : CaseMaps) (c : ℕ) (rs : CharSet) (ps : List ℕ)
    → mem c ps ≡ true
    → mem c (add_ranges m rs ps) ≡ true
unfolding add_ranges
add_ranges-keeps m c [] ps h = h
add_ranges-keeps m c ((lo, hi) ∷ rs) ps h =
    add_ranges-keeps m c rs (add_codes m ((hi + 1) - lo) lo ps)
      (add_codes-keeps m c ((hi + 1) - lo) lo ps h)

add_ranges-adds :
    (m : CaseMaps) (c x : ℕ) (rs : CharSet) (ps : List ℕ)
    → has x rs ≡ true
    → is_variant m x c ≡ true
    → mem c (add_ranges m rs ps) ≡ true
unfolding add_ranges
add_ranges-adds m c x [] ps h v = cc
add_ranges-adds m c x ((lo, hi) ∷ rs) ps h v = elim (Bool-cases (in_range x (lo, hi))) [
  | inl here ↦
      let from : lo ≤ x = ground arith in
      let to : x < lo + ((hi + 1) - lo) = ground arith in
      add_ranges-keeps m c rs (add_codes m ((hi + 1) - lo) lo ps)
        (add_codes-adds m c x ((hi + 1) - lo) lo ps from to v)
  | inr later ↦ add_ranges-adds m c x rs (add_codes m ((hi + 1) - lo) lo ps) (ground arith) v
]

pub narrow_fold-has :
    (m : CaseMaps) (set : CharSet) (c x : ℕ)
    → has x set ≡ true
    → is_variant m x c ≡ true
    → has c (narrow_fold m set) ≡ true
unfolding narrow_fold
narrow_fold-has m set c x h v =
    has-points_to_ranges c (add_ranges m set []) ∙ add_ranges-adds m c x set [] h v
