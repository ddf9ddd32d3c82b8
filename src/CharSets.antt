-- ===== src/CharSets.antt =====
-- The sets of UTF-16 code units of the regular expression guard, in src/tools/executors.ts: lists of ranges
-- of code units, their complement, union and disjointness, and folding by case. The language's case
-- mappings, from a code unit to the code units of the mapped text, are arguments. A sort by the lower end
-- is a stable insertion sort. The caches, which only avoid work, are left out.
pub mod Complement
pub mod Apart
mod Points
mod Table
pub mod Fold
mod Examples
use ai_model_arena.Common.{
  ℕ, zero, suc, ◌+◌, ◌-◌, ◌≤◌, ◌≡◌, Bool, true, false, not, ◌&&◌, ◌||◌, Option, none, some, List,
  [], ◌∷◌, ◌++◌, if◌then◌else◌, leb, ltb, ◌==◌, max,
}

abbrev pub CharRange : Type 0
CharRange = ℕ × ℕ

abbrev pub CharSet : Type 0
CharSet = List CharRange

abbrev pub max_code_unit : ℕ
max_code_unit = 0xffff

abbrev pub in_range : ℕ → CharRange → Bool
in_range c (lo, hi) = leb lo c && leb c hi

-- The set that the ranges stand for.
abbrev pub has : ℕ → CharSet → Bool
has c [] = false
has c (r ∷ rs) = in_range c r || has c rs

abbrev pub digit_set : CharSet
digit_set = (0x30, 0x39) ∷ []

abbrev pub word_set : CharSet
word_set = (0x30, 0x39) ∷ (0x41, 0x5a) ∷ (0x5f, 0x5f) ∷ (0x61, 0x7a) ∷ []

abbrev pub space_set : CharSet
space_set =
    (0x09, 0x0d)
    ∷ (0x20, 0x20)
    ∷ (0xa0, 0xa0)
    ∷ (0x1680, 0x1680)
    ∷ (0x2000, 0x200a)
    ∷ (0x2028, 0x2029)
    ∷ (0x202f, 0x202f)
    ∷ (0x205f, 0x205f)
    ∷ (0x3000, 0x3000)
    ∷ (0xfeff, 0xfeff)
    ∷ []

insert_range : CharRange → CharSet → CharSet
insert_range r [] = r ∷ []
insert_range r (q ∷ qs) = if leb r.0 q.0 then r ∷ q ∷ qs else q ∷ insert_range r qs

sort_ranges : CharSet → CharSet
sort_ranges [] = []
sort_ranges (r ∷ rs) = insert_range r (sort_ranges rs)

-- The loop, which is at the code unit `next`.
complement_from : ℕ → CharSet → CharSet
complement_from next [] = if leb next max_code_unit then (next, max_code_unit) ∷ [] else []
complement_from next ((lo, hi) ∷ rs) =
    let rest = complement_from (max next (hi + 1)) rs in
    if ltb next lo then (next, lo - 1) ∷ rest else rest

unfoldable pub complement_char_set : CharSet → CharSet
unfolding complement_from sort_ranges insert_range
complement_char_set ranges = complement_from 0 (sort_ranges ranges)

abbrev pub single_char_set : ℕ → CharSet
single_char_set code = (code, code) ∷ []

abbrev overlaps : CharRange → CharRange → Bool
overlaps (a0, a1) (b0, b1) = leb a0 b1 && leb b0 a1

overlaps_any : CharRange → CharSet → Bool
overlaps_any a [] = false
overlaps_any a (b ∷ bs) = overlaps a b || overlaps_any a bs

unfoldable pub char_sets_disjoint : CharSet → CharSet → Bool
unfolding overlaps_any
char_sets_disjoint [] b = true
char_sets_disjoint (a ∷ rest) b = not (overlaps_any a b) && char_sets_disjoint rest b

disjoint_from_all : CharSet → List CharSet → Bool
disjoint_from_all a [] = true
disjoint_from_all a (b ∷ bs) = char_sets_disjoint a b && disjoint_from_all a bs

unfoldable pub branch_first_sets_disjoint : List CharSet → Bool
unfolding disjoint_from_all
branch_first_sets_disjoint [] = true
branch_first_sets_disjoint (a ∷ sets) = disjoint_from_all a sets && branch_first_sets_disjoint sets

abbrev pub union_char_sets : Option CharSet → Option CharSet → Option CharSet
union_char_sets none b = none
union_char_sets (some a) none = none
union_char_sets (some a) (some b) = some (a ++ b)

-- The case mappings: the code units of the text that a text of one code unit maps to.
pub record CaseMaps : Type 0 where
  pub lower : ℕ → List ℕ
  pub upper : ℕ → List ℕ

abbrev pub mem : ℕ → List ℕ → Bool
mem c [] = false
mem c (x ∷ xs) = (c == x) || mem c xs

add_point : ℕ → List ℕ → List ℕ
add_point c points = if mem c points then points else points ++ c ∷ []

-- A mapped text of several code units is left out.
add_mapped : List ℕ → List ℕ → List ℕ
unfolding add_point
add_mapped (c ∷ []) points = add_point c points
add_mapped _ points = points

add_case_variants : CaseMaps → List ℕ → ℕ → List ℕ
unfolding add_mapped
add_case_variants m points code =
    add_mapped (m.upper code) (add_mapped (m.lower code) (add_point code points))

insert_point : ℕ → List ℕ → List ℕ
insert_point c [] = c ∷ []
insert_point c (x ∷ xs) = if leb c x then c ∷ x ∷ xs else x ∷ insert_point c xs

sort_points : List ℕ → List ℕ
sort_points [] = []
sort_points (c ∷ cs) = insert_point c (sort_points cs)

-- The loop, with the last range of `out`.
ranges_from : CharRange → List ℕ → CharSet
ranges_from (lo, hi) [] = (lo, hi) ∷ []
ranges_from (lo, hi) (code ∷ cs) =
    let grown = ranges_from (lo, code) cs in
    let fresh = (lo, hi) ∷ ranges_from (code, code) cs in if (hi + 1) == code then grown else fresh

ranges_of_sorted : List ℕ → CharSet
unfolding ranges_from
ranges_of_sorted [] = []
ranges_of_sorted (code ∷ cs) = ranges_from (code, code) cs

points_to_ranges : List ℕ → CharSet
unfolding ranges_of_sorted sort_points insert_point
points_to_ranges points = ranges_of_sorted (sort_points points)

-- `n` code units from `code` on.
add_codes : CaseMaps → ℕ → ℕ → List ℕ → List ℕ
unfolding add_case_variants
add_codes m zero code points = points
add_codes m (suc n) code points = add_codes m n (code + 1) (add_case_variants m points code)

add_ranges : CaseMaps → CharSet → List ℕ → List ℕ
unfolding add_codes
add_ranges m [] points = points
add_ranges m ((lo, hi) ∷ rs) points = add_ranges m rs (add_codes m ((hi + 1) - lo) lo points)

-- The table `present` of the path for wide sets.
abbrev pub Present : Type 0
Present = ℕ → Bool

mark_mapped : List ℕ → Present → Present
mark_mapped (c ∷ []) present x = (x == c) || present x
mark_mapped _ present x = present x

-- `n` code units from `code` on, in a table that the loop itself writes.
mark_variants : CaseMaps → ℕ → ℕ → Present → Present
unfolding mark_mapped
mark_variants m zero code present = present
mark_variants m (suc n) code present = mark_variants m n (code + 1) (
    if present code
    then mark_mapped (m.upper code) (mark_mapped (m.lower code) present)
    else present)

-- `n` code units from `code` on; `run_start` is the start of the run that is open, if one is.
runs_from : Present → ℕ → ℕ → Option ℕ → CharSet
runs_from present zero code none = []
runs_from present zero code (some run_start) = (run_start, max_code_unit) ∷ []
runs_from present (suc n) code none =
    runs_from present n (code + 1) (if present code then some code else none)
runs_from present (suc n) code (some run_start) =
    let open_run = runs_from present n (code + 1) (some run_start) in
    let closed = (run_start, code - 1) ∷ runs_from present n (code + 1) none in
    if present code then open_run else closed

span_ends : CharSet → ℕ
span_ends [] = 0
span_ends ((lo, hi) ∷ rs) = (hi + 1) + span_ends rs

span_starts : CharSet → ℕ
span_starts [] = 0
span_starts ((lo, hi) ∷ rs) = lo + span_starts rs

abbrev code_units : ℕ
code_units = 0x10000

pub narrow_fold : CaseMaps → CharSet → CharSet
unfolding add_ranges points_to_ranges
narrow_fold m set = points_to_ranges (add_ranges m set [])

pub wide_fold : CaseMaps → CharSet → CharSet
unfolding mark_variants runs_from
wide_fold m set = runs_from (mark_variants m code_units 0 (λ c. has c set)) code_units 0 none

-- `span <= 4096`, where a range that is not in order counts as less than nothing.
unfoldable pub fold_char_set : CaseMaps → CharSet → CharSet
unfolding narrow_fold wide_fold span_ends span_starts
fold_char_set m set =
    if leb (span_ends set) (4096 + span_starts set) then narrow_fold m set else wide_fold m set
