-- ===== src/EditFile/Examples.antt =====
-- The theorems on the edit tool, in src/tools/executors.ts, at a small file, and tests.
use Prim.Native.Char.{code}
use ai_model_arena.Common.{ℕ, ◌≡◌, ◌≢◌, refl, true, false, String, List, [], ◌∷◌}
use ai_model_arena.EditFile.{
  replaced, replaced_all, ambiguous, replace_single, replace_all, edit_file, search_from, is_prefix,
  split, join,
}
use ai_model_arena.EditFile.Single.{IsReplaced, replace_single-IsReplaced, replace_single-back}
use ai_model_arena.EditFile.All.{hits, substitute, replace_all-substitute}

abbrev codes : String → List ℕ
codes String.[] = []
codes (String.◌∷◌ c s) = code c ∷ codes s

replace_single-IsReplaced_example :
    IsReplaced (codes "b") (codes "xy") (codes "a\nbc") (codes "a\nxyc")
unfolding replace_single search_from is_prefix
replace_single-IsReplaced_example =
    replace_single-IsReplaced (codes "b") (codes "xy") (codes "a\nbc") (codes "a\nxyc") 2 refl

x_not_empty : codes "xy" ≢ []
x_not_empty e = cc

replace_single-back_example : codes "a\nbc" ≡ codes "a\nbc"
unfolding replace_single search_from is_prefix
replace_single-back_example =
    replace_single-back (codes "b") (codes "xy") (codes "a\nbc") (codes "a\nxyc") (codes "a\nbc") 2
      2 x_not_empty refl refl

replace_all-substitute_example :
    replace_all (codes "aa") (codes "b") (codes "aaaxaa") ≡ replaced_all (codes "baxb") 3
unfolding hits substitute is_prefix
replace_all-substitute_example =
    replace_all-substitute b'a' (codes "a") (codes "b") (codes "aaaxaa")

-- Two occurrences that overlap are two for a single replacement, and one for the replacement of all.
overlap_test : edit_file false (codes "aa") (codes "b") (codes "aaa") ≡ ambiguous 2 (1 ∷ 1 ∷ [])
unfolding edit_file replace_single search_from is_prefix
overlap_test = refl

overlap_all_test :
    edit_file true (codes "aa") (codes "b") (codes "aaa") ≡ replaced_all (codes "ba") 2
unfolding edit_file replace_all split join is_prefix
overlap_all_test = refl

-- No part at all: the tool reports -1 occurrences of the empty text in an empty file.
empty_test : edit_file true [] (codes "b") [] ≡ replaced_all [] 0
unfolding edit_file replace_all split join
empty_test = refl

-- A match that starts at the end of line 1 is reported at line 2.
newline_test : edit_file false (codes "\nb") (codes "c") (codes "a\nb") ≡ replaced (codes "ac") 2
unfolding edit_file replace_single search_from is_prefix
newline_test = refl
