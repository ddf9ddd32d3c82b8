-- ===== src/RegexShape/Group/Atoms.antt =====
-- What the operations on a group's state, in src/tools/executors.ts, keep and judge.
use ai_model_arena.Common.{
  ℕ, ◌+◌, ◌<◌, ◌≡◌, refl, Bool, true, false, Option, none, some, if◌then◌else◌, leb, arith,
  Bool-cases, inl, inr,
}
use ai_model_arena.CharSets.{CharSet}
use ai_model_arena.RegexShape.Syntax.{Pattern, slice}
use ai_model_arena.RegexShape.Quantifiers.{RegexQuantifier}
use ai_model_arena.RegexShape.Group.{
  RegexGroupState, nested_quantifier, applied, apply_atom, grow_branch, count_nullable, end_atom,
  close_group, judge_group,
}

grow_branch_keeps :
    (first : Option CharSet) (nullable : Bool) (o : Option (Option CharSet)) (g : RegexGroupState)
    → ((grow_branch first nullable o g).start ≡ g.start)
      × ((grow_branch first nullable o g).has_unbounded_quantifier ≡ g.has_unbounded_quantifier)
      × ((grow_branch first nullable o g).nullable_run ≡ g.nullable_run)
unfolding grow_branch
grow_branch_keeps first nullable none g = (refl, refl, refl)
grow_branch_keeps first nullable (some before) g = elim (Bool-cases g.branch_nullable) [
  | inl e ↦ rw e (refl, refl, refl)
  | inr e ↦ rw e (refl, refl, refl)
]

-- Behind fewer than eight nullable atoms, an atom is no finding. It leaves the group's start and whether
-- it has an unbounded quantifier, and the run of nullable atoms ends at an atom that is not nullable.
pub apply_atom-applied :
    (p : Pattern) (g : RegexGroupState) (first : Option CharSet) (nullable : Bool) (pos : ℕ)
    → g.nullable_run < 8
    → (h : RegexGroupState) × (apply_atom p g first nullable pos ≡ applied h)
      × (h.start ≡ g.start)
      × (h.has_unbounded_quantifier ≡ g.has_unbounded_quantifier)
      × (h.nullable_run ≡ (if nullable then g.nullable_run + 1 else 0))
unfolding apply_atom
apply_atom-applied p g first true pos small =
    let counted = count_nullable true pos g in
    let kept = grow_branch_keeps first true counted.branch_first counted in
    (
      end_atom true (grow_branch first true counted.branch_first counted),
      refl,
      kept.0,
      kept.1,
      kept.2,
    )
apply_atom-applied p g first false pos small =
    let counted = count_nullable false pos g in
    let kept = grow_branch_keeps first false counted.branch_first counted in
    let few : leb 8 g.nullable_run ≡ false = ground arith in
    (
      end_atom false (grow_branch first false counted.branch_first counted),
      rw few refl,
      kept.0,
      kept.1,
      kept.2,
    )

pub close_group-keeps :
    (g : RegexGroupState)
    → ((close_group g).start ≡ g.start)
      × ((close_group g).has_unbounded_quantifier ≡ g.has_unbounded_quantifier)
unfolding close_group
close_group-keeps g = elim (Bool-cases g.saw_alternation) [
  | inl e ↦ rw e (refl, refl)
  | inr e ↦ rw e (refl, refl)
]

-- A group with an unbounded quantifier inside, under an unbounded one, is a finding.
pub judge_group-nested :
    (p : Pattern) (g : RegexGroupState) (q : RegexQuantifier)
    → g.has_unbounded_quantifier ≡ true
    → q.max ≡ none
    → judge_group p g (some q)
      ≡ some (record { kind = nested_quantifier; construct = slice g.start (q.last + 1) p })
unfolding judge_group
judge_group-nested p g q h k = rw (k, h) refl
