-- ===== src/CharSets/Fold.antt =====
-- Folding by case, in src/tools/executors.ts, and what it is for: matching without case compares the
-- canonical forms of two code units, and a canonical form is the code unit or one of its mapped ones.
use ai_model_arena.Common.{ℕ, ◌+◌, ◌≤◌, ◌≡◌, ◌≢◌, Bool, true, false, if◌then◌else◌, leb}
use ai_model_arena.CharSets.{
  CharSet, max_code_unit, has, CaseMaps, narrow_fold, wide_fold, fold_char_set, char_sets_disjoint,
  span_ends, span_starts,
}
use ai_model_arena.CharSets.Apart.{char_sets_disjoint-has}
use ai_model_arena.CharSets.Points.{is_variant, narrow_fold-has}
use ai_model_arena.CharSets.Table.{wide_fold-has}

has-either :
    (c : ℕ) (b : Bool) (s t : CharSet)
    → has c s ≡ true
    → has c t ≡ true
    → has c (if b then s else t) ≡ true
has-either c true s t h k = h
has-either c false s t h k = k

pub fold_char_set-has :
    (m : CaseMaps) (set : CharSet) (c x : ℕ)
    → x ≤ max_code_unit
    → c ≤ max_code_unit
    → has x set ≡ true
    → is_variant m x c ≡ true
    → has c (fold_char_set m set) ≡ true
unfolding fold_char_set
fold_char_set-has m set c x hx hc h v =
    has-either c (leb (span_ends set) (4096 + span_starts set)) (narrow_fold m set)
      (wide_fold m set) (narrow_fold-has m set c x h v) (wide_fold-has m set c x hx hc h v)

-- A canonical form for matching without case: the code unit itself or one that a mapping sends it to.
abbrev pub IsCanonical : CaseMaps → (ℕ → ℕ) → Type 0
IsCanonical m canonical =
    (x : ℕ)
    → x ≤ max_code_unit
    → (canonical x ≤ max_code_unit) × (is_variant m x (canonical x) ≡ true)

-- Where the folded sets have no common code unit, no code unit of the one set matches a code unit of the
-- other without case, for any such canonical form.
pub fold_char_set-apart :
    (m : CaseMaps) (canonical : ℕ → ℕ) (a b : CharSet) (x y : ℕ)
    → IsCanonical m canonical
    → char_sets_disjoint (fold_char_set m a) (fold_char_set m b) ≡ true
    → x ≤ max_code_unit
    → y ≤ max_code_unit
    → has x a ≡ true
    → has y b ≡ true
    → canonical x ≢ canonical y
fold_char_set-apart m canonical a b x y w d hx hy ha hb e =
    let (bound_x, variant_x) = w x hx in
    let (bound_y, variant_y) = w y hy in
    let in_a = fold_char_set-has m a (canonical x) x hx bound_x ha variant_x in
    let in_b = fold_char_set-has m b (canonical y) y hy bound_y hb variant_y in
    let not_in_b =
      char_sets_disjoint-has (canonical x) (fold_char_set m a) (fold_char_set m b) d in_a in
    cc
