-- ===== src/RegexShape/Repeats.antt =====
-- The rounds of the scan of src/tools/executors.ts over a group of literals whose last one is repeated.
use native.Mathlib.Numerals.{add-one}
use ai_model_arena.Common.{
  ℕ, suc, ◌+◌, ◌≡◌, refl, ◌∙◌, ◌⊎◌, inl, inr, ap, Bool, true, false, Option, none, some, List, [],
  ◌∷◌, ◌++◌, if◌then◌else◌, ◌==◌, drop, arith, All,
}
use ai_model_arena.CharSets.{CaseMaps, CharSet, single_char_set}
use ai_model_arena.RegexShape.Syntax.{Pattern, is_at, slice}
use ai_model_arena.RegexShape.Quantifiers.{
  RegexQuantifier, quantifier_of, quantifier_at, quantifier_end,
}
use ai_model_arena.RegexShape.Group.{
  RegexGroupState, new_group_state, RegexShapeFinding, nested_quantifier, apply_atom, close_group,
  judge_group, note_quantifier,
}
use ai_model_arena.RegexShape.Group.Atoms.{
  apply_atom-applied, close_group-keeps, judge_group-nested,
}
use ai_model_arena.RegexShape.{
  go_on, reject, rejected, then_go, atom, close, close_unless, fold_first, step, optional,
  then_scan, scan, content_start,
}
use ai_model_arena.RegexShape.Progress.{scan-inside}
use ai_model_arena.RegexShape.Literals.{
  IsLiteral, get_elem?-drop, drop_next, quantifier_at-drop, step-literal, behind, rounds,
  literals-scan,
}

-- The quantifiers `*` and `+`.
abbrev pub IsUnbounded : ℕ → Type 0
IsUnbounded u = (u ≡ b'*') ⊎ (u ≡ b'+')

quantifier_of-unbounded :
    (p : Pattern) (i u : ℕ)
    → IsUnbounded u
    → quantifier_of p i u ≡ some (record { last = i; min = if u == b'*' then 0 else 1; max = none })
unfolding quantifier_of
quantifier_of-unbounded p i u (inl e) = rw e refl
quantifier_of-unbounded p i u (inr e) = rw e refl

is_at-drop : (p s : Pattern) (i c d : ℕ) → drop i p ≡ c ∷ s → (c == d) ≡ false → is_at p i d ≡ false
is_at-drop p s i c d h k = rw (get_elem?-drop p s i c h, is_at) k

module _ (maps : CaseMaps) (case_sensitive : Bool) (p : Pattern) where
  -- A repeated atom makes its group one with an unbounded quantifier.
  atom-repeated :
      (first : Option CharSet) (i u d : ℕ) (s : Pattern) (g : RegexGroupState)
      (below : List RegexGroupState)
      → drop (i + 1) p ≡ u ∷ d ∷ s
      → IsUnbounded u
      → (d == b'?') ≡ false
      → g.nullable_run ≡ 0
      → (h : RegexGroupState) × (atom maps case_sensitive p first false i i g below
          ≡ go_on (i + 2) h below)
        × (h.start ≡ g.start)
        × (h.has_unbounded_quantifier ≡ true)
  unfolding atom quantifier_end note_quantifier
  atom-repeated first i u d s g below e unbounded plain z =
      let q : RegexQuantifier = record {
        last = i + 1;
        min = if u == b'*' then 0 else 1;
        max = none;
      } in
      let noted = note_quantifier (some q) g in
      let (h, step_eq, start, flag, run) =
        apply_atom-applied p noted first (q.min == 0) i (omega arith) in
      let at_q : quantifier_at p (i + 1) ≡ some q =
        quantifier_at-drop p (d ∷ s) (i + 1) u e ∙ quantifier_of-unbounded p (i + 1) u unbounded in
      let behind_q : drop (i + 1 + 1) p ≡ d ∷ s =
        ap (λ k. drop k p) (add-one (i + 1)) ∙ drop_next p (d ∷ s) (i + 1) u e in
      let greedy = is_at-drop p s (i + 1 + 1) d b'?' behind_q plain in
      let next : quantifier_end p (some q) i + 1 ≡ i + 2 = ground (arith, greedy) in
      (
        h,
        ap
              (λ (o : Option RegexQuantifier).
                then_go (quantifier_end p o i + 1) below
                  (apply_atom p (note_quantifier o g) first (optional o) i))
              at_q
            ∙ ap (then_go (quantifier_end p (some q) i + 1) below) step_eq
            ∙ ap (λ j. go_on j h below) next,
        start,
        flag ∙ ground arith,
      )

  step-close :
      (i : ℕ) (g : RegexGroupState) (below : List RegexGroupState)
      → step maps case_sensitive p i b')' g below
        ≡ close_unless maps case_sensitive p
            (judge_group p (close_group g) (quantifier_at p (i + 1)))
            i
            (close_group g)
            (quantifier_at p (i + 1))
            below
  unfolding step close
  step-close i g below = refl

  close-nested :
      (i u : ℕ) (s : Pattern) (g : RegexGroupState) (below : List RegexGroupState)
      → drop (i + 1) p ≡ u ∷ s
      → IsUnbounded u
      → g.has_unbounded_quantifier ≡ true
      → step maps case_sensitive p i b')' g below
        ≡ reject (record { kind = nested_quantifier; construct = slice g.start (i + 1 + 1) p })
  unfolding close_unless
  close-nested i u s g below e unbounded flag =
      let q : RegexQuantifier = record {
        last = i + 1;
        min = if u == b'*' then 0 else 1;
        max = none;
      } in
      let at_q : quantifier_at p (i + 1) ≡ some q =
        quantifier_at-drop p s (i + 1) u e ∙ quantifier_of-unbounded p (i + 1) u unbounded in
      let kept = close_group-keeps g in
      let judged = judge_group-nested p (close_group g) q (kept.1 ∙ flag) refl in
      step-close i g below
      ∙ ap
          (λ (o : Option RegexQuantifier).
            close_unless maps case_sensitive p (judge_group p (close_group g) o) i (close_group g) o
              below)
          at_q
      ∙ ap
          (λ (o : Option RegexShapeFinding).
            close_unless maps case_sensitive p o i (close_group g) (some q) below)
          judged
      ∙ ap
          (λ (j : ℕ).
            reject (record { kind = nested_quantifier; construct = slice j (i + 1 + 1) p }))
          kept.0

  step-open :
      (i c : ℕ) (s : Pattern) (g : RegexGroupState) (below : List RegexGroupState)
      → drop (i + 1) p ≡ c ∷ s
      → (c == b'?') ≡ false
      → step maps case_sensitive p i b'(' g below ≡ go_on (i + 1) (new_group_state i) (g ∷ below)
  unfolding step content_start
  step-open i c s g below e plain = rw (is_at-drop p s (i + 1) c b'?' e plain) refl

  -- The tail of the group: a literal under `u`, the bracket and the quantifier behind it.
  tail-scan :
      (j c u o n : ℕ) (rest : Pattern) (h : RegexGroupState) (below : List RegexGroupState)
      → drop j p ≡ c ∷ u ∷ b')' ∷ o ∷ rest
      → IsLiteral c
      → IsUnbounded u
      → IsUnbounded o
      → h.nullable_run ≡ 0
      → scan maps case_sensitive p (suc (suc n)) j h below
        ≡ rejected (record { kind = nested_quantifier; construct = slice h.start (j + 4) p })
  tail-scan j c u o n rest h below e l inner outer z =
      let first = fold_first maps case_sensitive p (some (single_char_set c)) in
      let at_u : drop (j + 1) p ≡ u ∷ b')' ∷ o ∷ rest =
        rw add-one (drop_next p (u ∷ b')' ∷ o ∷ rest) j c e) in
      let two : j + 2 ≡ suc (j + 1) = omega arith in
      let at_bracket : drop (j + 2) p ≡ b')' ∷ o ∷ rest =
        ap (λ k. drop k p) two ∙ drop_next p (b')' ∷ o ∷ rest) (j + 1) u at_u in
      let at_o : drop (j + 2 + 1) p ≡ o ∷ rest =
        rw add-one (drop_next p (o ∷ rest) (j + 2) b')' at_bracket) in
      let (h', moved, start, flag) =
        atom-repeated first j u b')' (o ∷ rest) h below at_u inner refl z in
      scan-inside maps case_sensitive p (suc n) j c h below
        (get_elem?-drop p (u ∷ b')' ∷ o ∷ rest) j c e)
      ∙ ap (then_scan maps case_sensitive p (scan maps case_sensitive p (suc n)))
          (step-literal maps case_sensitive p j c h below l ∙ moved)
      ∙ scan-inside maps case_sensitive p n (j + 2) b')' h' below
          (get_elem?-drop p (o ∷ rest) (j + 2) b')' at_bracket)
      ∙ ap (then_scan maps case_sensitive p (scan maps case_sensitive p n))
          (close-nested (j + 2) o rest h' below at_o outer flag)
      ∙ ap
          (λ (k : ℕ).
            rejected (record { kind = nested_quantifier; construct = slice k (j + 2 + 1 + 1) p }))
          start
      ∙ ap
          (λ (k : ℕ). rejected (record { kind = nested_quantifier; construct = slice h.start k p }))
          (omega arith)

  head_not_question :
      (w s : Pattern) (c : ℕ)
      → All IsLiteral w
      → IsLiteral c
      → (d : ℕ) × (ds : Pattern) × ((w ++ c ∷ s) ≡ d ∷ ds) × ((d == b'?') ≡ false)
  head_not_question [] s c ls l = (c, s, refl, ground arith)
  head_not_question (d ∷ w) s c (k, ks) l = (d, w ++ c ∷ s, refl, ground arith)

  pub group-scan :
      (i c u o n : ℕ) (w rest : Pattern) (g : RegexGroupState) (below : List RegexGroupState)
      → drop i p ≡ b'(' ∷ (w ++ c ∷ u ∷ b')' ∷ o ∷ rest)
      → All IsLiteral w
      → IsLiteral c
      → IsUnbounded u
      → IsUnbounded o
      → scan maps case_sensitive p (suc (rounds w (suc (suc n)))) i g below
        ≡ rejected
            (record { kind = nested_quantifier; construct = slice i (behind w (i + 1) + 4) p })
  group-scan i c u o n w rest g below e ls l inner outer =
      let s = c ∷ u ∷ b')' ∷ o ∷ rest in
      let inside : drop (i + 1) p ≡ w ++ s = rw add-one (drop_next p (w ++ s) i b'(' e) in
      let (d, ds, head, plain) = head_not_question w (u ∷ b')' ∷ o ∷ rest) c ls l in
      scan-inside maps case_sensitive p (rounds w (suc (suc n))) i b'(' g below
        (get_elem?-drop p (w ++ s) i b'(' e)
      ∙ ap (then_scan maps case_sensitive p (scan maps case_sensitive p (rounds w (suc (suc n)))))
          (step-open i d ds g below (inside ∙ head) plain)
      ∙ literals-scan maps case_sensitive p w s (i + 1) (suc (suc n)) (new_group_state i)
          (g ∷ below)
          (rejected
            (record { kind = nested_quantifier; construct = slice i (behind w (i + 1) + 4) p }))
          inside ls (ground arith) refl
          (λ h kept at_s.
            tail-scan (behind w (i + 1)) c u o n rest h (g ∷ below) at_s l inner outer kept.2
            ∙ ap
                (λ (k : ℕ). rejected (record {
                  kind = nested_quantifier;
                  construct = slice k (behind w (i + 1) + 4) p;
                }))
                kept.0)
