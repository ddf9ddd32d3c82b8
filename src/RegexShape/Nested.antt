-- ===== src/RegexShape/Nested.antt =====
-- What the scan of src/tools/executors.ts rejects: a group with an unbounded quantifier at its end, under
-- an unbounded quantifier.
use ai_model_arena.Common.{
  ℕ, suc, ◌+◌, ◌-◌, ◌≤◌, ◌≡◌, refl, ◌∙◌, sym, ap, Bool, [], ◌∷◌, ◌++◌, length, arith, All,
  append_assoc, length-append, drop-append, take-append,
}
use ai_model_arena.CharSets.{CaseMaps}
use ai_model_arena.RegexShape.Syntax.{Pattern, slice}
use ai_model_arena.RegexShape.Group.{new_group_state, nested_quantifier}
use ai_model_arena.RegexShape.{rejected, find_catastrophic_regex_shape}
use ai_model_arena.RegexShape.Progress.{find_catastrophic-settled}
use ai_model_arena.RegexShape.Literals.{
  IsLiteral, behind, rounds, behind-length, rounds-le, literals-scan,
}
use ai_model_arena.RegexShape.Repeats.{IsUnbounded, group-scan}

slice-append :
    (a b d : Pattern) (from to : ℕ)
    → from ≡ length a
    → to ≡ length a + length b
    → slice from to (a ++ (b ++ d)) ≡ b
slice-append a b d from to e f =
    let size : to - from ≡ length b = omega arith in
    rw (size, e, drop-append a (b ++ d)) (take-append b d)

-- A pattern of literals, then a group of literals whose last one stands under `*` or `+`, with `*` or `+`
-- behind the group, is rejected for this group, whatever follows.
pub find_catastrophic-nested :
    (maps : CaseMaps) (case_sensitive : Bool) (pre w rest : Pattern) (c u o : ℕ)
    → All IsLiteral pre
    → All IsLiteral w
    → IsLiteral c
    → IsUnbounded u
    → IsUnbounded o
    → find_catastrophic_regex_shape maps case_sensitive
        (pre ++ b'(' ∷ (w ++ c ∷ u ∷ b')' ∷ o ∷ rest))
      ≡ rejected
          (record { kind = nested_quantifier; construct = b'(' ∷ (w ++ c ∷ u ∷ b')' ∷ o ∷ []) })
find_catastrophic-nested maps case_sensitive pre w rest c u o ps ls l inner outer =
    let tail = b'(' ∷ (w ++ c ∷ u ∷ b')' ∷ o ∷ rest) in
    let p = pre ++ tail in
    let i = behind pre 0 in
    let n = suc (rounds w (suc (suc (length p)))) in
    let found =
      rejected
        (record { kind = nested_quantifier; construct = slice i (behind w (i + 1) + 4) p }) in
    let group = b'(' ∷ (w ++ c ∷ u ∷ b')' ∷ o ∷ []) in
    let split : tail ≡ group ++ rest =
      ap (λ (t : Pattern). b'(' ∷ t) (sym (append_assoc w (c ∷ u ∷ b')' ∷ o ∷ []) rest)) in
    let size : length group ≡ length w + 5 =
      omega (arith, length-append w (c ∷ u ∷ b')' ∷ o ∷ [])) in
    let construct : slice i (behind w (i + 1) + 4) p ≡ group =
      ap (λ (t : Pattern). slice i (behind w (i + 1) + 4) (pre ++ t)) split
      ∙ slice-append pre group rest i (behind w (i + 1) + 4) (omega (arith, behind-length pre 0))
          (omega (arith, behind-length w (i + 1), behind-length pre 0)) in
    let enough : length p ≤ rounds pre n =
      omega (arith, rounds-le pre n, rounds-le w (suc (suc (length p)))) in
    sym (find_catastrophic-settled maps case_sensitive p (rounds pre n) enough).1
    ∙ literals-scan maps case_sensitive p pre tail 0 n (new_group_state 0) [] found refl ps refl
        refl
        (λ h kept e.
          group-scan maps case_sensitive p i c u o (length p) w rest h [] e ls l inner outer)
    ∙ ap (λ (t : Pattern). rejected (record { kind = nested_quantifier; construct = t })) construct
