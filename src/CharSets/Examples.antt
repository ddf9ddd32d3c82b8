-- ===== src/CharSets/Examples.antt =====
-- The theorems on sets of code units, in src/tools/executors.ts, at the sets of small classes, and tests.
use ai_model_arena.Common.{
  ℕ, ◌+◌, ◌-◌, ◌≡◌, ◌≢◌, refl, not, ◌&&◌, [], ◌∷◌, if◌then◌else◌, leb, arith,
}
use ai_model_arena.CharSets.{
  CharSet, has, digit_set, complement_char_set, char_sets_disjoint, branch_first_sets_disjoint,
  CaseMaps, fold_char_set,
}
use ai_model_arena.CharSets.Complement.{has-complement}
use ai_model_arena.CharSets.Apart.{branch_first_sets_disjoint_unique}
use ai_model_arena.CharSets.Fold.{fold_char_set-apart, IsCanonical}

abbrev upper_ascii : ℕ → ℕ
upper_ascii c = if leb b'a' c && leb c b'z' then c - 32 else c

abbrev ascii : CaseMaps
ascii = record {
  lower = λ c. (if leb b'A' c && leb c b'Z' then c + 32 else c) ∷ [];
  upper = λ c. upper_ascii c ∷ [];
}

-- A range that is not in order, between two that overlap.
abbrev odd_set : CharSet
odd_set = (b'c', b'f') ∷ (b'z', b'b') ∷ (b'a', b'd') ∷ []

has-complement_example : has b'e' (complement_char_set odd_set) ≡ not (has b'e' odd_set)
has-complement_example = has-complement b'e' odd_set (omega arith)

odd_set_test : complement_char_set odd_set ≡ (0, b'a' - 1) ∷ (b'g', b'y') ∷ (b'g', 0xffff) ∷ []
unfolding complement_char_set
odd_set_test = refl

branch_first_sets_disjoint_unique_example : ◌≡◌ {A = ℕ} 1 1
unfolding branch_first_sets_disjoint char_sets_disjoint
branch_first_sets_disjoint_unique_example =
    branch_first_sets_disjoint_unique b'7' 1 1 digit_set digit_set
      (((b'a', b'z') ∷ []) ∷ digit_set ∷ []) refl refl refl refl refl

upper_ascii-IsCanonical : IsCanonical ascii upper_ascii
upper_ascii-IsCanonical x h = ground arith

fold_char_set-apart_example : upper_ascii b'q' ≢ upper_ascii b'7'
unfolding fold_char_set char_sets_disjoint
fold_char_set-apart_example =
    fold_char_set-apart ascii upper_ascii ((b'p', b'r') ∷ []) digit_set b'q' b'7'
      upper_ascii-IsCanonical refl (omega arith) (omega arith) refl refl
