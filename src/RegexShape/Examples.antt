-- ===== src/RegexShape/Examples.antt =====
-- The theorems on the guard of the code search, in src/tools/executors.ts, at small patterns, and tests.
use Prim.Native.Char.{code}
use ai_model_arena.Common.{
  ℕ, ◌+◌, ◌-◌, ◌≡◌, refl, Bool, true, false, ◌&&◌, String, List, [], ◌∷◌, if◌then◌else◌, leb, inl,
  inr,
}
use ai_model_arena.CharSets.{CaseMaps, branch_first_sets_disjoint, char_sets_disjoint}
use ai_model_arena.RegexShape.Quantifiers.{quantifier_at, quantifier_end}
use ai_model_arena.RegexShape.Group.{
  nested_quantifier, apply_atom, note_quantifier, close_group, judge_group, absorb, alternate,
}
use ai_model_arena.RegexShape.{
  Verdict, safe, rejected, find_catastrophic_regex_shape, scan, step, invalid, admit_regex,
}
use ai_model_arena.RegexShape.Literals.{literals-safe}
use ai_model_arena.RegexShape.Nested.{find_catastrophic-nested}

abbrev codes : String → List ℕ
codes String.[] = []
codes (String.◌∷◌ c s) = code c ∷ codes s

abbrev ascii : CaseMaps
ascii = record {
  lower = λ c. (if leb b'A' c && leb c b'Z' then c + 32 else c) ∷ [];
  upper = λ c. (if leb b'a' c && leb c b'z' then c - 32 else c) ∷ [];
}

-- `x(ba+)*` is rejected for `(ba+)*`.
find_catastrophic-nested_example :
    find_catastrophic_regex_shape ascii false (codes "x(ba+)*$")
    ≡ rejected (record { kind = nested_quantifier; construct = codes "(ba+)*" })
find_catastrophic-nested_example =
    find_catastrophic-nested ascii false (codes "x") (codes "b") (codes "$") b'a' b'+' b'*'
      (refl, tt) (refl, tt) refl (inr refl) (inl refl)

literals_test : find_catastrophic_regex_shape ascii true (codes "foo") ≡ safe
literals_test = literals-safe ascii true (codes "foo") (refl, (refl, (refl, tt)))

abbrev is_safe : Verdict → Bool
is_safe safe = true
is_safe _ = false

disjoint_branches_test :
    is_safe (find_catastrophic_regex_shape ascii true (codes "(foo|bar)+")) ≡ true
unfolding find_catastrophic_regex_shape scan step apply_atom quantifier_at note_quantifier
    quantifier_end alternate judge_group close_group absorb branch_first_sets_disjoint
    char_sets_disjoint
disjoint_branches_test = refl

-- The engine tries `2 ^ n` ways to match `n` times `xa` and a `!` with each of these patterns. The scan
-- rejects the first one, and forgets the inner alternation behind the outer one of the second.
inner_alternation_test :
    is_safe (find_catastrophic_regex_shape ascii true (codes "(x(a|a))+$")) ≡ false
unfolding find_catastrophic_regex_shape scan step apply_atom quantifier_at note_quantifier
    quantifier_end alternate judge_group close_group absorb branch_first_sets_disjoint
    char_sets_disjoint
inner_alternation_test = refl

forgotten_alternation_test :
    is_safe (find_catastrophic_regex_shape ascii true (codes "(x(a|a)|b)+$")) ≡ true
unfolding find_catastrophic_regex_shape scan step apply_atom quantifier_at note_quantifier
    quantifier_end alternate judge_group close_group absorb branch_first_sets_disjoint
    char_sets_disjoint
forgotten_alternation_test = refl

invalid_test : admit_regex ascii (λ p. false) true (codes "(") ≡ invalid
unfolding admit_regex
invalid_test = refl
