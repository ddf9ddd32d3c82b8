-- ===== src/RegexShape/Group.antt =====
-- The state that the guard of src/tools/executors.ts keeps for each open group of a regular expression.
pub mod Atoms
use ai_model_arena.Common.{
  ℕ, ◌+◌, ◌≡◌, Bool, true, false, not, ◌&&◌, ◌||◌, Option, none, some, List, [], ◌∷◌, ◌++◌,
  if◌then◌else◌, leb, ltb, ◌==◌,
}
use ai_model_arena.CharSets.{
  CharSet, char_sets_disjoint, branch_first_sets_disjoint, union_char_sets,
}
use ai_model_arena.RegexShape.Syntax.{Pattern, slice}
use ai_model_arena.RegexShape.Quantifiers.{RegexQuantifier}

-- `branch_first` is none where the branch has no atom yet.
pub record RegexGroupState : Type 0 where
  pub start : ℕ
  pub has_unbounded_quantifier : Bool
  pub has_ambiguous_alternation : Bool
  pub has_variable_repeat : Bool
  pub has_ambiguous_sequence : Bool
  pub first : Option CharSet
  pub nullable : Bool
  pub branch_first : Option (Option CharSet)
  pub branch_nullable : Bool
  pub branch_firsts : List (Option CharSet)
  pub branch_nullables : List Bool
  pub saw_alternation : Bool
  pub nullable_run : ℕ
  pub nullable_run_start : ℕ

abbrev pub new_group_state : ℕ → RegexGroupState
new_group_state start = record {
  start = start;
  has_unbounded_quantifier = false;
  has_ambiguous_alternation = false;
  has_variable_repeat = false;
  has_ambiguous_sequence = false;
  first = none;
  nullable = true;
  branch_first = none;
  branch_nullable = true;
  branch_firsts = [];
  branch_nullables = [];
  saw_alternation = false;
  nullable_run = 0;
  nullable_run_start = start;
}

pub data Kind : Type 0 where
  nested_quantifier ambiguous_alternation ambiguous_repeat : Kind

pub record RegexShapeFinding : Type 0 where
  pub kind : Kind
  pub construct : Pattern

abbrev pub bounded_outer_repeat_max : ℕ
bounded_outer_repeat_max = 8

abbrev are_disjoint : Option CharSet → Option CharSet → Bool
are_disjoint none b = false
are_disjoint (some a) none = false
are_disjoint (some a) (some b) = char_sets_disjoint a b

-- The run of atoms that can match nothing.
abbrev count_nullable : Bool → ℕ → RegexGroupState → RegexGroupState
count_nullable nullable pos g =
    if nullable
    then record g {
      nullable_run_start = if g.nullable_run == 0 then pos else g.nullable_run_start;
      nullable_run = g.nullable_run + 1;
    }
    else record g { nullable_run = 0 }

grow_branch : Option CharSet → Bool → Option (Option CharSet) → RegexGroupState → RegexGroupState
grow_branch first nullable none g = record g { branch_first = some first }
grow_branch first nullable (some before) g =
    if g.branch_nullable
    then record g {
      has_ambiguous_sequence =
          g.has_ambiguous_sequence || (nullable || not (are_disjoint before first));
      branch_first = some (union_char_sets before first);
    }
    else g

abbrev end_atom : Bool → RegexGroupState → RegexGroupState
end_atom nullable g = record g { branch_nullable = g.branch_nullable && nullable }

pub data Applied : Type 0 where
  found : RegexShapeFinding → Applied
  applied : RegexGroupState → Applied

unfoldable pub apply_atom : Pattern → RegexGroupState → Option CharSet → Bool → ℕ → Applied
unfolding grow_branch
apply_atom pattern g first nullable pos =
    if not nullable && leb 8 g.nullable_run
    then found (record {
      kind = ambiguous_repeat;
      construct = slice g.nullable_run_start (pos + 1) pattern;
    })
    else (let counted = count_nullable nullable pos g in
        applied (end_atom nullable (grow_branch first nullable counted.branch_first counted)))

abbrev pub is_repeat : Option ℕ → Bool
is_repeat none = true
is_repeat (some most) = leb 2 most

-- `q.max >= 2 && q.min !== q.max`, for a bounded quantifier.
abbrev pub is_variable : ℕ → Option ℕ → Bool
is_variable least none = false
is_variable least (some most) = leb 2 most && not (least == most)

abbrev pub is_unbounded : Option ℕ → Bool
is_unbounded none = true
is_unbounded (some most) = false

unfoldable pub note_quantifier : Option RegexQuantifier → RegexGroupState → RegexGroupState
note_quantifier none g = g
note_quantifier (some q) g = record g {
  has_unbounded_quantifier = g.has_unbounded_quantifier || is_unbounded q.max;
  has_variable_repeat = g.has_variable_repeat || is_variable q.min q.max;
}

abbrev pub first_or_null : Option (Option CharSet) → Option CharSet
first_or_null none = none
first_or_null (some first) = first

any_true : List Bool → Bool
any_true [] = false
any_true (b ∷ bs) = b || any_true bs

-- The branches' first sets, if all are known.
all_known : List (Option CharSet) → Option (List CharSet)
all_known [] = some []
all_known (none ∷ firsts) = none
all_known (some s ∷ firsts) = elim (all_known firsts) [ none ↦ none | some sets ↦ some (s ∷ sets) ]

flat : List CharSet → CharSet
flat [] = []
flat (s ∷ sets) = s ++ flat sets

alternation_first : Option (List CharSet) → Option CharSet
unfolding flat
alternation_first none = none
alternation_first (some sets) = if branch_first_sets_disjoint sets then some (flat sets) else none

abbrev is_null : Option CharSet → Bool
is_null none = true
is_null (some s) = false

-- `|`, and the first lines of `)`.
abbrev pub end_branch : RegexGroupState → RegexGroupState
end_branch g = record g {
  branch_firsts = g.branch_firsts ++ first_or_null g.branch_first ∷ [];
  branch_nullables = g.branch_nullables ++ g.branch_nullable ∷ [];
}

unfoldable pub alternate : RegexGroupState → RegexGroupState
alternate g = record (end_branch g) {
  branch_first = none;
  branch_nullable = true;
  saw_alternation = true;
}

abbrev head_first : List (Option CharSet) → Option CharSet
head_first [] = none
head_first (f ∷ fs) = f

unfoldable pub close_group : RegexGroupState → RegexGroupState
unfolding any_true all_known alternation_first
close_group group =
    let g = end_branch group in
    let first = alternation_first (all_known g.branch_firsts) in
    if g.saw_alternation
    then record g {
      nullable = any_true g.branch_nullables;
      has_ambiguous_alternation = is_null first;
      first = first;
    }
    else record g { nullable = g.branch_nullable; first = head_first g.branch_firsts }

abbrev reaches_threshold : ℕ → Option ℕ → Bool
reaches_threshold least none = leb bounded_outer_repeat_max least
reaches_threshold least (some most) = true

abbrev is_large : Option ℕ → Bool
is_large none = true
is_large (some most) = leb bounded_outer_repeat_max most

abbrev finding : Pattern → RegexGroupState → RegexQuantifier → Kind → Option RegexShapeFinding
finding pattern g q kind =
    some (record { kind = kind; construct = slice g.start (q.last + 1) pattern })

unfoldable pub judge_group :
    Pattern → RegexGroupState → Option RegexQuantifier → Option RegexShapeFinding
judge_group pattern g none = none
judge_group pattern g (some q) =
    if not (is_repeat q.max)
    then none
    else if g.has_unbounded_quantifier
    then finding pattern g q nested_quantifier
    else if g.has_ambiguous_alternation
    then finding pattern g q ambiguous_alternation
    else if is_large q.max && g.has_variable_repeat
    then finding pattern g q nested_quantifier
    else if is_large q.max && (reaches_threshold q.min q.max && g.nullable)
    then finding pattern g q ambiguous_repeat
    else if g.has_ambiguous_sequence
    then finding pattern g q ambiguous_repeat
    else none

-- What the parent takes over of a closed group.
unfoldable pub absorb : RegexGroupState → Option RegexQuantifier → RegexGroupState → RegexGroupState
absorb group q parent =
    let own = note_quantifier q parent in
    record own {
      has_unbounded_quantifier = own.has_unbounded_quantifier || group.has_unbounded_quantifier;
      has_ambiguous_alternation = own.has_ambiguous_alternation || group.has_ambiguous_alternation;
      has_variable_repeat = own.has_variable_repeat || group.has_variable_repeat;
      has_ambiguous_sequence = own.has_ambiguous_sequence || group.has_ambiguous_sequence;
    }
