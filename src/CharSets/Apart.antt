-- ===== src/CharSets/Apart.antt =====
-- The tests of src/tools/executors.ts that two sets, and the first sets of branches, have no common code
-- unit.
use ai_model_arena.Common.{
  ℕ, zero, suc, ◌≡◌, refl, ap, true, false, some, List, [], ◌∷◌, arith, get_elem?,
}
use ai_model_arena.CharSets.{
  CharRange, CharSet, in_range, has, overlaps_any, char_sets_disjoint, disjoint_from_all,
  branch_first_sets_disjoint,
}

overlaps_any-has :
    (c : ℕ) (a : CharRange) (b : CharSet)
    → in_range c a ≡ true
    → has c b ≡ true
    → overlaps_any a b ≡ true
unfolding overlaps_any
overlaps_any-has c a [] h k = cc
overlaps_any-has c a (b ∷ bs) h k = ground (arith, overlaps_any-has c a bs h)

pub char_sets_disjoint-has :
    (c : ℕ) (a b : CharSet) → char_sets_disjoint a b ≡ true → has c a ≡ true → has c b ≡ false
unfolding char_sets_disjoint
char_sets_disjoint-has c [] b h k = cc
char_sets_disjoint-has c (r ∷ rs) b h k =
    ground (arith, char_sets_disjoint-has c rs b, overlaps_any-has c r b)

disjoint_from_all-has :
    (c j : ℕ) (a b : CharSet) (sets : List CharSet)
    → disjoint_from_all a sets ≡ true
    → get_elem? sets j ≡ some b
    → has c a ≡ true
    → has c b ≡ false
unfolding disjoint_from_all
disjoint_from_all-has c j a b [] h e k = ground arith
disjoint_from_all-has c zero a b (x ∷ sets) h e k =
    let same : x ≡ b = ground arith in ground (arith, char_sets_disjoint-has c a x)
disjoint_from_all-has c (suc j) a b (x ∷ sets) h e k =
    disjoint_from_all-has c j a b sets (ground arith) e k

-- Where the first sets of the branches pass the test, a code unit can start at most one branch.
pub branch_first_sets_disjoint_unique :
    (c i j : ℕ) (a b : CharSet) (sets : List CharSet)
    → branch_first_sets_disjoint sets ≡ true
    → get_elem? sets i ≡ some a
    → get_elem? sets j ≡ some b
    → has c a ≡ true
    → has c b ≡ true
    → i ≡ j
unfolding branch_first_sets_disjoint
branch_first_sets_disjoint_unique c i j a b [] h p q ha hb = ground arith
branch_first_sets_disjoint_unique c zero zero a b (x ∷ sets) h p q ha hb = refl
branch_first_sets_disjoint_unique c zero (suc j) a b (x ∷ sets) h p q ha hb =
    ground (arith, disjoint_from_all-has c j x b sets)
branch_first_sets_disjoint_unique c (suc i) zero a b (x ∷ sets) h p q ha hb =
    ground (arith, disjoint_from_all-has c i x a sets)
branch_first_sets_disjoint_unique c (suc i) (suc j) a b (x ∷ sets) h p q ha hb =
    ap suc (branch_first_sets_disjoint_unique c i j a b sets (ground arith) p q ha hb)
