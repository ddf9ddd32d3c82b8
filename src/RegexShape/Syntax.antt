-- ===== src/RegexShape/Syntax.antt =====
-- The pieces of a regular expression that the guard of src/tools/executors.ts reads at an index of the
-- pattern: escapes and character classes. A pattern is a list of UTF-16 code units, which the engine has
-- accepted before it is read.
pub mod Ends
use ai_model_arena.Common.{
  ℕ, zero, suc, ◌+◌, ◌-◌, ◌*◌, ◌≡◌, Bool, true, false, not, ◌&&◌, ◌||◌, Option, none, some, List,
  [], ◌∷◌, ◌++◌, if◌then◌else◌, leb, ltb, ◌==◌, length, take, drop, get_elem?,
}
use ai_model_arena.CharSets.{
  CharRange, CharSet, digit_set, word_set, space_set, single_char_set, complement_char_set,
  in_range,
}

abbrev pub Pattern : Type 0
Pattern = List ℕ

abbrev pub slice : ℕ → ℕ → Pattern → Pattern
slice from to pattern = take (to - from) (drop from pattern)

-- `pattern[index] === c`
abbrev pub is_at : Pattern → ℕ → ℕ → Bool
is_at pattern index c = elim (get_elem? pattern index) [ none ↦ false | some d ↦ d == c ]

abbrev pub is_digit : ℕ → Bool
is_digit c = in_range c (b'0', b'9')

abbrev is_alphanumeric : ℕ → Bool
is_alphanumeric c = in_range c (b'A', b'Z') || (in_range c (b'a', b'z') || is_digit c)

hex_value : ℕ → Option ℕ
hex_value c =
    if is_digit c
    then some (c - b'0')
    else if in_range c (b'a', b'f')
    then some (c - b'a' + 10)
    else if in_range c (b'A', b'F')
    then some (c - b'A' + 10)
    else none

abbrev then_hex : ℕ → Option ℕ → Option ℕ
then_hex acc none = none
then_hex acc (some d) = some (16 * acc + d)

hex_number : Option ℕ → Pattern → Option ℕ
unfolding hex_value
hex_number none cs = none
hex_number (some acc) [] = some acc
hex_number (some acc) (c ∷ cs) = hex_number (then_hex acc (hex_value c)) cs

-- The character sets of the letters `dDwWsSnrtfv`.
escape_set : ℕ → Option CharSet
escape_set c =
    if c == b'd'
    then some digit_set
    else if c == b'D'
    then some (complement_char_set digit_set)
    else if c == b'w'
    then some word_set
    else if c == b'W'
    then some (complement_char_set word_set)
    else if c == b's'
    then some space_set
    else if c == b'S'
    then some (complement_char_set space_set)
    else if c == b'n'
    then some (single_char_set 0x0a)
    else if c == b'r'
    then some (single_char_set 0x0d)
    else if c == b't'
    then some (single_char_set 0x09)
    else if c == b'f'
    then some (single_char_set 0x0c)
    else if c == b'v'
    then some (single_char_set 0x0b)
    else none

-- A set, if the piece is understood, and the index of the piece's last code unit.
pub record Piece : Type 0 where
  pub set : Option CharSet
  pub last : ℕ

hex_piece : ℕ → ℕ → Option ℕ → Piece
hex_piece n pos none = record { set = none; last = pos }
hex_piece n pos (some code) = record { set = some (single_char_set code); last = pos + n }

fixed_hex : ℕ → ℕ → Pattern → Piece
unfolding hex_piece hex_number
fixed_hex n pos pattern =
    let digits = slice (pos + 1) (pos + 1 + n) pattern in
    hex_piece n pos (if length digits == n then hex_number (some 0) digits else none)

unknown_escape : ℕ → ℕ → Pattern → Piece
unfolding fixed_hex
unknown_escape ch pos pattern =
    if ch == b'x'
    then fixed_hex 2 pos pattern
    else if ch == b'u'
    then fixed_hex 4 pos pattern
    else if is_alphanumeric ch
    then record { set = none; last = pos }
    else record { set = some (single_char_set ch); last = pos }

escape_at : ℕ → Option ℕ → Pattern → Piece
unfolding escape_set unknown_escape
escape_at pos none pattern = record { set = none; last = pos }
escape_at pos (some ch) pattern = elim (escape_set ch) [
  | some known ↦ record { set = some known; last = pos }
  | none ↦ unknown_escape ch pos pattern
]

unfoldable pub parse_escape_set : Pattern → ℕ → Piece
unfolding escape_at
parse_escape_set pattern index = escape_at (index + 1) (get_elem? pattern (index + 1)) pattern

pub record ClassAtom : Type 0 where
  pub single : Option ℕ
  pub set : Option CharSet
  pub last : ℕ

single_of : Option CharSet → Option ℕ
single_of (some ((lo, hi) ∷ [])) = if lo == hi then some lo else none
single_of _ = none

abbrev escaped_atom : Piece → ClassAtom
escaped_atom esc = record { single = single_of esc.set; set = esc.set; last = esc.last }

parse_class_atom : Pattern → ℕ → ℕ → ClassAtom
unfolding parse_escape_set single_of
parse_class_atom pattern index ch =
    if ch == b'\\'
    then escaped_atom (parse_escape_set pattern index)
    else record { single = some ch; set = some (single_char_set ch); last = index }

-- What the loop over a class keeps: the ranges, if all was understood so far, and the index.
pub record ClassState : Type 0 where
  pub ranges : CharSet
  pub understood : Bool
  pub index : ℕ

abbrev add_set : Option CharSet → ClassState → ClassState
add_set none s = record s { understood = false }
add_set (some set) s = record s { ranges = s.ranges ++ set }

abbrev add_span : ℕ → Option ℕ → ClassState → ClassState
add_span lo none s = record s { understood = false }
add_span lo (some hi) s = record s { ranges = s.ranges ++ (lo, hi) ∷ [] }

-- The code unit behind a dash that makes a range.
dash_end : Pattern → ℕ → Option ℕ
dash_end pattern next =
    if is_at pattern next b'-' && not (is_at pattern (next + 1) b']')
    then get_elem? pattern (next + 1)
    else none

-- The atom's set, or the range from the atom to the code unit `d` behind the dash.
after_dash : Pattern → ClassAtom → ℕ → Option ℕ → ClassState → ClassState
unfolding parse_class_atom
after_dash pattern a lo none s = record (add_set a.set s) { index = a.last + 1 }
after_dash pattern a lo (some d) s =
    let b = parse_class_atom pattern (a.last + 2) d in
    record (add_span lo b.single s) { index = b.last + 1 }

after_atom : Pattern → ClassAtom → Option ℕ → ClassState → ClassState
unfolding after_dash dash_end
after_atom pattern a none s = record (add_set a.set s) { index = a.last + 1 }
after_atom pattern a (some lo) s = after_dash pattern a lo (dash_end pattern (a.last + 1)) s

-- One round, at the code unit `ch`.
class_round : Pattern → ℕ → ClassState → ClassState
unfolding after_atom parse_class_atom
class_round pattern ch s =
    let a = parse_class_atom pattern s.index ch in after_atom pattern a a.single s

-- The code unit of the next round, if the loop goes on.
in_class : Pattern → ℕ → Option ℕ
in_class pattern index = elim (get_elem? pattern index) [
  | none ↦ none
  | some c ↦ if c == b']' then none else some c
]

abbrev class_next : Option ℕ → ClassState → (ℕ → ClassState) → ClassState
class_next none s next = s
class_next (some c) s next = next c

class_loop : ℕ → Pattern → ClassState → ClassState
unfolding class_round in_class
class_loop zero pattern s = s
class_loop (suc fuel) pattern s =
    class_next (in_class pattern s.index) s (λ c. class_loop fuel pattern (class_round pattern c s))

abbrev class_piece : Bool → ClassState → Piece
class_piece negated s = record {
  set =
      if not s.understood
      then none
      else some (if negated then complement_char_set s.ranges else s.ranges);
  last = s.index;
}

class_body : Pattern → Bool → ℕ → Piece
unfolding class_loop
class_body pattern negated i =
    if is_at pattern i b']'
    then record { set = some (if negated then complement_char_set [] else []); last = i }
    else class_piece negated
        (class_loop (length pattern) pattern (record { ranges = []; understood = true; index = i }))

unfoldable pub parse_char_class : Pattern → ℕ → Piece
unfolding class_body
parse_char_class pattern start =
    if is_at pattern (start + 1) b'^'
    then class_body pattern true (start + 2)
    else class_body pattern false (start + 1)
