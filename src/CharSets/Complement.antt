-- ===== src/CharSets/Complement.antt =====
-- The complement of a set of code units, in src/tools/executors.ts.
use ai_model_arena.Common.{
  ℕ, ◌+◌, ◌≤◌, ◌<◌, ◌≡◌, refl, ◌∙◌, false, not, ◌||◌, [], ◌∷◌, arith, All, max,
}
use ai_model_arena.CharSets.{
  CharRange, CharSet, max_code_unit, in_range, has, insert_range, sort_ranges, complement_from,
  complement_char_set,
}

-- No range starts below `n`.
abbrev StartsFrom : ℕ → CharSet → Type 0
StartsFrom n = All (λ (r : CharRange). n ≤ r.0)

abbrev IsSorted : CharSet → Type 0
IsSorted [] = Unit
IsSorted (r ∷ rs) = StartsFrom r.0 rs × IsSorted rs

StartsFrom-le : (m n : ℕ) (rs : CharSet) → m ≤ n → StartsFrom n rs → StartsFrom m rs
StartsFrom-le m n [] h s = tt
StartsFrom-le m n (r ∷ rs) h (s, ss) = (omega arith, StartsFrom-le m n rs h ss)

insert_range-StartsFrom :
    (n : ℕ) (r : CharRange) (rs : CharSet)
    → n ≤ r.0
    → StartsFrom n rs
    → StartsFrom n (insert_range r rs)
unfolding insert_range
insert_range-StartsFrom n r [] h s = (h, tt)
insert_range-StartsFrom n r (q ∷ qs) h s = ground (arith, insert_range-StartsFrom n r qs h s.1)

insert_range-IsSorted : (r : CharRange) (rs : CharSet) → IsSorted rs → IsSorted (insert_range r rs)
unfolding insert_range
insert_range-IsSorted r [] s = (tt, tt)
insert_range-IsSorted r (q ∷ qs) s = ground (
  arith,
  insert_range-IsSorted r qs s.1,
  insert_range-StartsFrom q.0 r qs,
  StartsFrom-le r.0 q.0 qs,
)

sort_ranges-IsSorted : (rs : CharSet) → IsSorted (sort_ranges rs)
unfolding sort_ranges
sort_ranges-IsSorted [] = tt
sort_ranges-IsSorted (r ∷ rs) = insert_range-IsSorted r (sort_ranges rs) (sort_ranges-IsSorted rs)

has-insert_range :
    (c : ℕ) (r : CharRange) (rs : CharSet) → has c (insert_range r rs) ≡ (in_range c r || has c rs)
unfolding insert_range
has-insert_range c r [] = refl
has-insert_range c r (q ∷ qs) = ground (arith, has-insert_range c r qs)

has-sort_ranges : (c : ℕ) (rs : CharSet) → has c (sort_ranges rs) ≡ has c rs
unfolding sort_ranges
has-sort_ranges c [] = refl
has-sort_ranges c (r ∷ rs) = has-insert_range c r (sort_ranges rs) ∙ rw (has-sort_ranges c rs) refl

-- A code unit below every range is in none.
has-StartsFrom : (c n : ℕ) (rs : CharSet) → c < n → StartsFrom n rs → has c rs ≡ false
has-StartsFrom c n [] h s = refl
has-StartsFrom c n ((lo, hi) ∷ rs) h s = ground (arith, has-StartsFrom c n rs h s.1)

complement_from-below :
    (c next : ℕ) (rs : CharSet) → c < next → has c (complement_from next rs) ≡ false
unfolding complement_from
complement_from-below c next [] h = ground arith
complement_from-below c next ((lo, hi) ∷ rs) h =
    let later : c < max next (hi + 1) = omega arith in
    ground (arith, complement_from-below c (max next (hi + 1)) rs later)

complement_from_lem :
    (c next : ℕ) (rs : CharSet)
    → c ≤ max_code_unit
    → next ≤ c
    → IsSorted rs
    → has c (complement_from next rs) ≡ not (has c rs)
unfolding complement_from
complement_from_lem c next [] h k s = ground arith
complement_from_lem c next ((lo, hi) ∷ rs) h k s =
    let past =
      λ (p : max next (hi + 1) ≤ c). complement_from_lem c (max next (hi + 1)) rs h p s.1 in
    ground (arith, past, complement_from-below c (max next (hi + 1)) rs, has-StartsFrom c lo rs)

-- A code unit is in the complement exactly when it is not in the set, whatever the order of the ranges,
-- their overlaps, and ranges whose ends are not in order.
pub has-complement :
    (c : ℕ) (set : CharSet) → c ≤ max_code_unit → has c (complement_char_set set) ≡ not (has c set)
unfolding complement_char_set
has-complement c set h =
    complement_from_lem c 0 (sort_ranges set) h (omega arith) (sort_ranges-IsSorted set)
    ∙ rw (has-sort_ranges c set) refl
