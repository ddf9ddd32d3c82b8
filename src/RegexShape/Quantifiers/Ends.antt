-- ===== src/RegexShape/Quantifiers/Ends.antt =====
-- Where the quantifiers of a pattern end, in src/tools/executors.ts.
use ai_model_arena.Common.{ℕ, ◌+◌, ◌≤◌, ◌≡◌, inl, inr, some, drop, get_elem?, arith, Option-cases}
use ai_model_arena.RegexShape.Syntax.{Pattern}
use ai_model_arena.RegexShape.Quantifiers.{
  RegexQuantifier, second_count, counted_quantifier, quantifier_of, quantifier_at, quantifier_end,
  read_digits,
}

second_count-le :
    (index n least : ℕ) (cs : Pattern) (q : RegexQuantifier)
    → second_count index n least cs ≡ some q
    → index ≤ q.last
unfolding second_count
second_count-le index n least cs q h = ground arith

counted_quantifier-le :
    (index : ℕ) (cs : Pattern) (q : RegexQuantifier)
    → counted_quantifier index cs ≡ some q
    → index ≤ q.last
unfolding counted_quantifier
counted_quantifier-le index cs q h =
    let (least, k, rest) = read_digits 0 0 cs in
    ground (arith, second_count-le index (k + 2) least (drop 1 rest) q)

quantifier_of-le :
    (p : Pattern) (index ch : ℕ) (q : RegexQuantifier)
    → quantifier_of p index ch ≡ some q
    → index ≤ q.last
unfolding quantifier_of
quantifier_of-le p index ch q h = ground (arith, counted_quantifier-le index (drop (index + 1) p) q)

pub quantifier_at-le :
    (p : Pattern) (index : ℕ) (q : RegexQuantifier)
    → quantifier_at p index ≡ some q
    → index ≤ q.last
unfolding quantifier_at
quantifier_at-le p index q h = elim (Option-cases (get_elem? p index)) [
  | inl e ↦ let here = rw (e, quantifier_at) at h in cc
  | inr (ch, e) ↦ quantifier_of-le p index ch q (rw (e, quantifier_at) at h)
]

pub quantifier_end-le :
    (p : Pattern) (last : ℕ) → last ≤ quantifier_end p (quantifier_at p (last + 1)) last
unfolding quantifier_end
quantifier_end-le p last = elim (Option-cases (quantifier_at p (last + 1))) [
  | inl e ↦ rw e (omega arith)
  | inr (q, e) ↦ rw e (ground (arith, quantifier_at-le p (last + 1) q e))
]
