-- ===== src/RegexShape/Syntax/Ends.antt =====
-- Where the pieces of a pattern end, in src/tools/executors.ts: each is read forwards, and the loop over a
-- character class ends at its bracket or behind the pattern.
use ai_model_arena.Common.{
  ℕ, zero, suc, ◌+◌, ◌≤◌, ◌<◌, ◌≡◌, refl, ◌∙◌, ◌⊎◌, inl, inr, ap, Bool, true, false, Option, none,
  some, [], ◌∷◌, if◌then◌else◌, ◌==◌, length, get_elem?, arith, Bool-cases, Option-cases, ==_iff,
}
use ai_model_arena.RegexShape.Syntax.{
  Pattern, is_at, fixed_hex, unknown_escape, escape_at, parse_escape_set, ClassAtom, ClassState,
  parse_class_atom, class_round, dash_end, in_class, class_loop, class_next, hex_piece, after_dash,
  after_atom, class_body, parse_char_class, hex_number, slice,
}

pub get_elem?-lt : (p : Pattern) (i c : ℕ) → get_elem? p i ≡ some c → i < length p
get_elem?-lt [] i c h = ground arith
get_elem?-lt (x ∷ xs) zero c h = omega arith
get_elem?-lt (x ∷ xs) (suc i) c h = omega (arith, get_elem?-lt xs i c h)

hex_piece-le : (n pos : ℕ) (o : Option ℕ) → pos ≤ (hex_piece n pos o).last
unfolding hex_piece
hex_piece-le n pos none = omega arith
hex_piece-le n pos (some code) = omega arith

fixed_hex-le : (n pos : ℕ) (p : Pattern) → pos ≤ (fixed_hex n pos p).last
unfolding fixed_hex
fixed_hex-le n pos p =
    let digits = slice (pos + 1) (pos + 1 + n) p in
    hex_piece-le n pos (if length digits == n then hex_number (some 0) digits else none)

unknown_escape-le : (ch pos : ℕ) (p : Pattern) → pos ≤ (unknown_escape ch pos p).last
unfolding unknown_escape
unknown_escape-le ch pos p = ground (arith, fixed_hex-le 2 pos p, fixed_hex-le 4 pos p)

escape_at-le : (pos : ℕ) (o : Option ℕ) (p : Pattern) → pos ≤ (escape_at pos o p).last
unfolding escape_at
escape_at-le pos none p = omega arith
escape_at-le pos (some ch) p = ground (arith, unknown_escape-le ch pos p)

pub parse_escape_set-lt : (p : Pattern) (i : ℕ) → i < (parse_escape_set p i).last
unfolding parse_escape_set
parse_escape_set-lt p i = omega (arith, escape_at-le (i + 1) (get_elem? p (i + 1)) p)

parse_class_atom-le : (p : Pattern) (i ch : ℕ) → i ≤ (parse_class_atom p i ch).last
unfolding parse_class_atom
parse_class_atom-le p i ch = ground (arith, parse_escape_set-lt p i)

after_dash-lt :
    (p : Pattern) (a : ClassAtom) (lo : ℕ) (o : Option ℕ) (s : ClassState)
    → a.last < (after_dash p a lo o s).index
unfolding after_dash
after_dash-lt p a lo none s = omega arith
after_dash-lt p a lo (some d) s = omega (arith, parse_class_atom-le p (a.last + 2) d)

after_atom-lt :
    (p : Pattern) (a : ClassAtom) (o : Option ℕ) (s : ClassState)
    → a.last < (after_atom p a o s).index
unfolding after_atom
after_atom-lt p a none s = omega arith
after_atom-lt p a (some lo) s = after_dash-lt p a lo (dash_end p (a.last + 1)) s

class_round-lt : (p : Pattern) (ch : ℕ) (s : ClassState) → s.index < (class_round p ch s).index
unfolding class_round
class_round-lt p ch s =
    let a = parse_class_atom p s.index ch in
    omega (arith, parse_class_atom-le p s.index ch, after_atom-lt p a a.single s)

class_loop-le : (fuel : ℕ) (p : Pattern) (s : ClassState) → s.index ≤ (class_loop fuel p s).index
unfolding class_loop
class_loop-le zero p s = omega arith
class_loop-le (suc fuel) p s =
    elim (in_class p s.index)
      as (λ o. s.index ≤ (class_next o s (λ c. class_loop fuel p (class_round p c s))).index) [
        | none ↦ omega arith
        | some c ↦ omega (arith, class_round-lt p c s, class_loop-le fuel p (class_round p c s))
      ]

in_class-beyond : (p : Pattern) (i : ℕ) → length p ≤ i → in_class p i ≡ none
unfolding in_class
in_class-beyond [] i h = refl
in_class-beyond (x ∷ xs) zero h = absurd (omega arith)
in_class-beyond (x ∷ xs) (suc i) h = in_class-beyond xs i (omega arith)

-- The loop over a class stops at a bracket or behind the pattern.
class_loop-ends :
    (fuel : ℕ) (p : Pattern) (s : ClassState)
    → length p ≤ s.index + fuel
    → in_class p (class_loop fuel p s).index ≡ none
unfolding class_loop
class_loop-ends zero p s h = in_class-beyond p s.index (omega arith)
class_loop-ends (suc fuel) p s h = elim (Option-cases (in_class p s.index)) [
  | inl e ↦ rw e e
  | inr (c, e) ↦
      let later =
        class_loop-ends fuel p (class_round p c s) (omega (arith, class_round-lt p c s)) in
      rw e later
]

class_body-le : (p : Pattern) (negated : Bool) (i : ℕ) → i ≤ (class_body p negated i).last
unfolding class_body
class_body-le p negated i =
    ground
      (arith, class_loop-le (length p) p (record { ranges = []; understood = true; index = i }))

pub parse_char_class-lt : (p : Pattern) (start : ℕ) → start < (parse_char_class p start).last
unfolding parse_char_class
parse_char_class-lt p start =
    ground (arith, class_body-le p true (start + 2), class_body-le p false (start + 1))

-- At a closing bracket, or behind the last code unit.
abbrev pub EndsAt : Pattern → ℕ → Type 0
EndsAt p i = (get_elem? p i ≡ some b']') ⊎ (get_elem? p i ≡ none)

in_class-EndsAt : (p : Pattern) (i : ℕ) → in_class p i ≡ none → EndsAt p i
unfolding in_class
in_class-EndsAt p i h = elim (Option-cases (get_elem? p i)) [
  | inl e ↦ inr e
  | inr (c, e) ↦
      let here = rw (e, in_class) at h in
      let stops : (c == b']') ≡ true = ground arith in inl (e ∙ ap some ((==_iff c b']').0 stops))
]

is_at-some : (p : Pattern) (i c : ℕ) → is_at p i c ≡ true → get_elem? p i ≡ some c
is_at-some p i c h = elim (Option-cases (get_elem? p i)) [
  | inl e ↦ let here = rw (e, is_at) at h in cc
  | inr (d, e) ↦ let here = rw (e, is_at) at h in e ∙ ap some ((==_iff d c).0 here)
]

class_body-EndsAt : (p : Pattern) (negated : Bool) (i : ℕ) → EndsAt p (class_body p negated i).last
unfolding class_body
class_body-EndsAt p negated i =
    let s : ClassState = record { ranges = []; understood = true; index = i } in
    elim (Bool-cases (is_at p i b']')) [
      | inl e ↦ rw e (inl (is_at-some p i b']' e))
      | inr n ↦ rw n (
          in_class-EndsAt p (class_loop (length p) p s).index
            (class_loop-ends (length p) p s (omega arith)))
    ]

-- A character class ends at its closing bracket, or behind the last code unit of the pattern.
pub parse_char_class-EndsAt : (p : Pattern) (start : ℕ) → EndsAt p (parse_char_class p start).last
unfolding parse_char_class
parse_char_class-EndsAt p start = elim (Bool-cases (is_at p (start + 1) b'^')) [
  | inl e ↦ rw e (class_body-EndsAt p true (start + 2))
  | inr n ↦ rw n (class_body-EndsAt p false (start + 1))
]
