-- ===== src/RegexShape/Quantifiers.antt =====
-- The quantifiers that the guard of src/tools/executors.ts reads at an index of the pattern. A count is a
-- natural number, where the program has the floating-point number of its digits.
pub mod Ends
use ai_model_arena.Common.{
  ℕ, zero, suc, ◌+◌, ◌-◌, ◌*◌, ◌≡◌, Bool, true, false, not, ◌&&◌, ◌||◌, Option, none, some, List,
  [], ◌∷◌, ◌++◌, if◌then◌else◌, leb, ltb, ◌==◌, length, take, drop, get_elem?,
}
use ai_model_arena.RegexShape.Syntax.{Pattern, is_at, is_digit}

-- `max` is none where the quantifier has no upper bound.
pub record RegexQuantifier : Type 0 where
  pub last : ℕ
  pub min : ℕ
  pub max : Option ℕ

-- The digits at the head of a text: their value after `acc`, their count after `n`, and the rest.
read_digits : ℕ → ℕ → Pattern → ℕ × ℕ × Pattern
read_digits acc n [] = (acc, n, [])
read_digits acc n (c ∷ cs) =
    let more = read_digits (10 * acc + (c - b'0')) (n + 1) cs in
    if is_digit c then more else (acc, n, c ∷ cs)

abbrev starts_with : ℕ → Pattern → Bool
starts_with c [] = false
starts_with c (d ∷ ds) = d == c

-- Behind `{`, the first number and a comma, `n` code units from `index`.
second_count : ℕ → ℕ → ℕ → Pattern → Option RegexQuantifier
unfolding read_digits
second_count index n least cs =
    let (most, k, rest) = read_digits 0 0 cs in
    if starts_with b'}' rest
    then some
        (record { last = index + n + k; min = least; max = if k == 0 then none else some most })
    else none

counted_quantifier : ℕ → Pattern → Option RegexQuantifier
unfolding read_digits second_count
counted_quantifier index cs =
    let (least, k, rest) = read_digits 0 0 cs in
    if k == 0
    then none
    else if starts_with b'}' rest
    then some (record { last = index + 1 + k; min = least; max = some least })
    else if starts_with b',' rest
    then second_count index (k + 2) least (drop 1 rest)
    else none

unfoldable pub quantifier_of : Pattern → ℕ → ℕ → Option RegexQuantifier
unfolding counted_quantifier
quantifier_of pattern index ch =
    if ch == b'*'
    then some (record { last = index; min = 0; max = none })
    else if ch == b'+'
    then some (record { last = index; min = 1; max = none })
    else if ch == b'?'
    then some (record { last = index; min = 0; max = some 1 })
    else if ch == b'{'
    then counted_quantifier index (drop (index + 1) pattern)
    else none

unfoldable pub quantifier_at : Pattern → ℕ → Option RegexQuantifier
unfolding quantifier_of
quantifier_at pattern index = elim (get_elem? pattern index) [
  | none ↦ none
  | some ch ↦ quantifier_of pattern index ch
]

unfoldable pub quantifier_end : Pattern → Option RegexQuantifier → ℕ → ℕ
quantifier_end pattern none fallback = fallback
quantifier_end pattern (some q) fallback =
    if is_at pattern (q.last + 1) b'?' then q.last + 1 else q.last
