-- ===== src/RegexShape.antt =====
-- The guard of the code search against regular expressions that backtrack exponentially, in
-- src/tools/executors.ts: a scan of the pattern with a stack of open groups. The innermost group is the
-- head of the list. The loop runs on one unit of fuel for each code unit of the pattern.
pub mod Syntax
pub mod Quantifiers
pub mod Group
pub mod Progress
pub mod Literals
pub mod Repeats
pub mod Nested
mod Examples
use ai_model_arena.Common.{
  ℕ, zero, suc, ◌+◌, ◌-◌, ◌≡◌, Bool, true, false, not, ◌&&◌, ◌||◌, Option, none, some, List, [],
  ◌∷◌, ◌++◌, if◌then◌else◌, leb, ltb, ◌==◌, length, drop, get_elem?,
}
use ai_model_arena.CharSets.{CharSet, CaseMaps, fold_char_set, single_char_set}
use ai_model_arena.RegexShape.Syntax.{
  Pattern, slice, is_at, Piece, parse_escape_set, parse_char_class,
}
use ai_model_arena.RegexShape.Quantifiers.{RegexQuantifier, quantifier_at, quantifier_end}
use ai_model_arena.RegexShape.Group.{
  RegexGroupState, new_group_state, RegexShapeFinding, Applied, found, applied, apply_atom,
  is_unbounded, note_quantifier, alternate, close_group, judge_group, absorb,
}

-- The end of one round: at `index` the next one starts. `crash` is the exception of a `)` that closes no
-- group.
pub data Round : Type 0 where
  go_on : (index : ℕ) → RegexGroupState → List RegexGroupState → Round
  reject : RegexShapeFinding → Round
  crash : Round

pub data Verdict : Type 0 where
  safe : Verdict
  rejected : RegexShapeFinding → Verdict
  crashed : Verdict
  unfinished : Verdict

abbrev pub optional : Option RegexQuantifier → Bool
optional none = false
optional (some q) = q.min == 0

abbrev pub then_go : ℕ → List RegexGroupState → Applied → Round
then_go index below (found f) = reject f
then_go index below (applied g) = go_on index g below

-- The start of a group's content behind `(`: lookbehind, named capture, and the other groups with `?`.
index_of : ℕ → ℕ → Pattern → Option ℕ
index_of c index [] = none
index_of c index (d ∷ ds) = if d == c then some index else index_of c (index + 1) ds

named_content : ℕ → Option ℕ → ℕ
named_content content none = content + 2
named_content content (some close) = close + 1

content_start : Pattern → ℕ → ℕ
unfolding index_of named_content
content_start pattern content =
    if not (is_at pattern content b'?')
    then content
    else if not (is_at pattern (content + 1) b'<')
    then content + 2
    else if is_at pattern (content + 2) b'=' || is_at pattern (content + 2) b'!'
    then content + 3
    else named_content content (index_of b'>' (content + 2) (drop (content + 2) pattern))

module _ (maps : CaseMaps) (case_sensitive : Bool) (pattern : Pattern) where
  abbrev pub fold_first : Option CharSet → Option CharSet
  fold_first none = none
  fold_first (some set) = some (if case_sensitive then set else fold_char_set maps set)

  -- An atom from `start` to `last` with the set `first`; `anchor` atoms match nothing of the text.
  pub atom : Option CharSet → Bool → ℕ → ℕ → RegexGroupState → List RegexGroupState → Round
  atom first anchor start last current below =
      let q = quantifier_at pattern (last + 1) in
      then_go (quantifier_end pattern q last + 1) below
        (apply_atom pattern (note_quantifier q current) first (anchor || optional q) start)

  pop_into : ℕ → RegexGroupState → Option RegexQuantifier → List RegexGroupState → Round
  pop_into i group q [] = crash
  pop_into i group q (parent ∷ below) = then_go (quantifier_end pattern q i + 1) below (
      apply_atom pattern (absorb group q parent) group.first (group.nullable || optional q)
        group.start)

  close_unless :
      Option RegexShapeFinding
      → ℕ
      → RegexGroupState
      → Option RegexQuantifier
      → List RegexGroupState
      → Round
  unfolding pop_into
  close_unless none i group q below = pop_into i group q below
  close_unless (some f) i group q below = reject f

  close : ℕ → RegexGroupState → List RegexGroupState → Round
  unfolding close_unless
  close i current below =
      let group = close_group current in
      let q = quantifier_at pattern (i + 1) in
      close_unless (judge_group pattern group q) i group q below

  abbrev is_quantifier_char : ℕ → Bool
  is_quantifier_char ch = (ch == b'*' || ch == b'+') || (ch == b'?' || ch == b'{')

  stray : ℕ → ℕ → Option RegexQuantifier
  stray i ch = if is_quantifier_char ch then quantifier_at pattern i else none

  abbrev note_stray : RegexQuantifier → RegexGroupState → RegexGroupState
  note_stray q g = record g {
    has_unbounded_quantifier = g.has_unbounded_quantifier || is_unbounded q.max;
  }

  -- A wildcard, an anchor or a literal.
  plain : ℕ → ℕ → RegexGroupState → List RegexGroupState → Round
  unfolding atom
  plain i ch current below =
      if ch == b'.'
      then atom none false i i current below
      else if ch == b'^' || ch == b'$'
      then atom none true i i current below
      else atom (fold_first (some (single_char_set ch))) false i i current below

  stray_or_plain : Option RegexQuantifier → ℕ → ℕ → RegexGroupState → List RegexGroupState → Round
  unfolding plain
  stray_or_plain none i ch current below = plain i ch current below
  stray_or_plain (some q) i ch current below = go_on (q.last + 1) (note_stray q current) below

  abbrev piece : Piece → ℕ → RegexGroupState → List RegexGroupState → Round
  unfolding atom
  piece p i current below = atom (fold_first p.set) false i p.last current below

  unfoldable pub step : ℕ → ℕ → RegexGroupState → List RegexGroupState → Round
  unfolding piece close stray stray_or_plain content_start
  step i ch current below =
      if ch == b'\\'
      then piece (parse_escape_set pattern i) i current below
      else if ch == b'['
      then piece (parse_char_class pattern i) i current below
      else if ch == b'('
      then go_on (content_start pattern (i + 1)) (new_group_state i) (current ∷ below)
      else if ch == b')'
      then close i current below
      else if ch == b'|'
      then go_on (i + 1) (alternate current) below
      else stray_or_plain (stray i ch) i ch current below

  abbrev pub then_scan : (ℕ → RegexGroupState → List RegexGroupState → Verdict) → Round → Verdict
  then_scan next (go_on i current below) = next i current below
  then_scan next (reject f) = rejected f
  then_scan next crash = crashed

  -- `i < pattern.length`
  abbrev pub when_inside : Option ℕ → (ℕ → Verdict) → Verdict
  when_inside none next = safe
  when_inside (some ch) next = next ch

  -- Without fuel, the loop's condition is still tested once.
  unfoldable pub scan : ℕ → ℕ → RegexGroupState → List RegexGroupState → Verdict
  scan zero i current below = when_inside (get_elem? pattern i) (λ ch. unfinished)
  scan (suc fuel) i current below =
      when_inside (get_elem? pattern i) (λ ch. then_scan (scan fuel) (step i ch current below))

  unfoldable pub find_catastrophic_regex_shape : Verdict
  find_catastrophic_regex_shape = scan (length pattern) 0 (new_group_state 0) []

-- What the code search does with a query that is a regular expression. The engine, which compiles it,
-- is a parameter.
pub data Admission : Type 0 where
  too_long invalid : Admission
  judged : Verdict → Admission

abbrev pub max_query_length : ℕ
max_query_length = 500

unfoldable pub admit_regex : CaseMaps → (Pattern → Bool) → Bool → Pattern → Admission
admit_regex maps compiles case_sensitive query =
    if ltb max_query_length (length query)
    then too_long
    else if not (compiles query)
    then invalid
    else judged (find_catastrophic_regex_shape maps case_sensitive query)
