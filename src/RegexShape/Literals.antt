-- ===== src/RegexShape/Literals.antt =====
-- The rounds of the scan of src/tools/executors.ts over code units that stand for themselves.
use ai_model_arena.Common.{
  ℕ, zero, suc, ◌+◌, ◌≤◌, ◌<◌, ◌≡◌, refl, ◌∙◌, sym, ap, Bool, true, false, not, ◌||◌, Option, none,
  some, List, [], ◌∷◌, ◌++◌, ◌==◌, length, drop, get_elem?, arith, All, append-nil,
}
use native.Mathlib.Numerals.{add-one}
use ai_model_arena.CharSets.{CaseMaps, CharSet, single_char_set}
use ai_model_arena.RegexShape.Syntax.{Pattern}
use ai_model_arena.RegexShape.Quantifiers.{quantifier_of, quantifier_at, quantifier_end}
use ai_model_arena.RegexShape.Group.{RegexGroupState, new_group_state, note_quantifier}
use ai_model_arena.RegexShape.{
  go_on, Verdict, safe, atom, plain, stray_or_plain, fold_first, step, then_scan, scan,
  find_catastrophic_regex_shape, is_quantifier_char,
}
use ai_model_arena.RegexShape.Group.Atoms.{apply_atom-applied}
use ai_model_arena.RegexShape.Progress.{scan-at_end, scan-inside, find_catastrophic-settled}

abbrev pub is_meta : ℕ → Bool
is_meta c =
    (((c == b'\\' || c == b'[') || (c == b'(' || c == b')'))
      || ((c == b'|' || c == b'.') || (c == b'^' || c == b'$')))
    || ((c == b'*' || c == b'+') || (c == b'?' || c == b'{'))

abbrev pub IsLiteral : ℕ → Type 0
IsLiteral c = is_meta c ≡ false

-- What stands behind a piece is no quantifier.
abbrev pub is_plain_head : Pattern → Bool
is_plain_head [] = true
is_plain_head (c ∷ cs) = not ((c == b'*' || c == b'+') || (c == b'?' || c == b'{'))

pub get_elem?-drop : (p s : Pattern) (i c : ℕ) → drop i p ≡ c ∷ s → get_elem? p i ≡ some c
get_elem?-drop [] s zero c h = ground arith
get_elem?-drop [] s (suc i) c h = ground arith
get_elem?-drop (x ∷ xs) s zero c h = ground arith
get_elem?-drop (x ∷ xs) s (suc i) c h = get_elem?-drop xs s i c h

pub get_elem?-drop_end : (p : Pattern) (i : ℕ) → drop i p ≡ [] → get_elem? p i ≡ none
get_elem?-drop_end [] i h = refl
get_elem?-drop_end (x ∷ xs) zero h = ground arith
get_elem?-drop_end (x ∷ xs) (suc i) h = get_elem?-drop_end xs i h

pub drop_next : (p s : Pattern) (i c : ℕ) → drop i p ≡ c ∷ s → drop (suc i) p ≡ s
drop_next [] s zero c h = ground arith
drop_next [] s (suc i) c h = ground arith
drop_next (x ∷ xs) s zero c h = ground arith
drop_next (x ∷ xs) s (suc i) c h = drop_next xs s i c h

quantifier_of-plain :
    (p : Pattern) (i c : ℕ) (cs : Pattern)
    → is_plain_head (c ∷ cs) ≡ true
    → quantifier_of p i c ≡ none
unfolding quantifier_of
quantifier_of-plain p i c cs h = ground arith

pub quantifier_at-drop :
    (p s : Pattern) (i c : ℕ) → drop i p ≡ c ∷ s → quantifier_at p i ≡ quantifier_of p i c
unfolding quantifier_at
quantifier_at-drop p s i c h = rw (get_elem?-drop p s i c h, quantifier_at) refl

pub quantifier_at-plain :
    (p s : Pattern) (i : ℕ) → drop i p ≡ s → is_plain_head s ≡ true → quantifier_at p i ≡ none
unfolding quantifier_at
quantifier_at-plain p [] i h k = rw (get_elem?-drop_end p i h, quantifier_at) refl
quantifier_at-plain p (c ∷ cs) i h k =
    quantifier_at-drop p cs i c h ∙ quantifier_of-plain p i c cs k

-- What the rounds over literals leave of a group `g`.
abbrev pub IsKept : RegexGroupState → RegexGroupState → Type 0
IsKept g h =
    (h.start ≡ g.start)
    × (h.has_unbounded_quantifier ≡ g.has_unbounded_quantifier)
    × (h.nullable_run ≡ 0)

module _ (maps : CaseMaps) (case_sensitive : Bool) (p : Pattern) where
  -- A literal's round is the atom of its set.
  pub step-literal :
      (i c : ℕ) (g : RegexGroupState) (below : List RegexGroupState)
      → IsLiteral c
      → step maps case_sensitive p i c g below
        ≡ atom maps case_sensitive p
            (fold_first maps case_sensitive p (some (single_char_set c)))
            false
            i
            i
            g
            below
  unfolding step
  step-literal i c g below l =
      let e1 : (c == b'\\') ≡ false = ground arith in
      let e2 : (c == b'[') ≡ false = ground arith in
      let e3 : (c == b'(') ≡ false = ground arith in
      let e4 : (c == b')') ≡ false = ground arith in
      let e5 : (c == b'|') ≡ false = ground arith in
      let e6 : is_quantifier_char maps case_sensitive p c ≡ false = ground arith in
      let e7 : (c == b'.') ≡ false = ground arith in
      let e8 : (c == b'^' || c == b'$') ≡ false = ground arith in
      rw (e1, e2, e3, e4, e5, e6, stray_or_plain, plain, e7, e8) refl

  atom-plain :
      (first : Option CharSet) (i : ℕ) (g : RegexGroupState) (below : List RegexGroupState)
      → quantifier_at p (i + 1) ≡ none
      → g.nullable_run < 8
      → (h : RegexGroupState) × (atom maps case_sensitive p first false i i g below
          ≡ go_on (i + 1) h below)
        × IsKept g h
  unfolding atom quantifier_end note_quantifier
  atom-plain first i g below e z =
      let (h, step_eq, start, unbounded, run) = apply_atom-applied p g first false i z in
      (h, rw (e, step_eq) refl, (start, unbounded, run))

-- The index behind a text that starts at `i`, and fuel for its rounds.
abbrev pub behind : Pattern → ℕ → ℕ
behind [] i = i
behind (c ∷ w) i = behind w (i + 1)

abbrev pub rounds : Pattern → ℕ → ℕ
rounds [] n = n
rounds (c ∷ w) n = suc (rounds w n)

pub behind-length : (w : Pattern) (i : ℕ) → behind w i ≡ i + length w
behind-length [] i = omega arith
behind-length (c ∷ w) i = omega (arith, behind-length w (i + 1))

pub rounds-le : (w : Pattern) (n : ℕ) → n ≤ rounds w n
rounds-le [] n = omega arith
rounds-le (c ∷ w) n = omega (arith, rounds-le w n)

is_plain_head-append :
    (w s : Pattern) → All IsLiteral w → is_plain_head s ≡ true → is_plain_head (w ++ s) ≡ true
is_plain_head-append [] s l h = h
is_plain_head-append (c ∷ w) s (l, ls) h = ground arith

module _ (maps : CaseMaps) (case_sensitive : Bool) (p : Pattern) where
  -- The scan over literals, with any verdict that the rest of the scan has for each group that they leave.
  pub literals-scan :
      (w s : Pattern) (i n : ℕ) (g : RegexGroupState) (below : List RegexGroupState) (v : Verdict)
      → drop i p ≡ w ++ s
      → All IsLiteral w
      → is_plain_head s ≡ true
      → g.nullable_run ≡ 0
      → ((h : RegexGroupState)
          → IsKept g h
          → drop (behind w i) p ≡ s
          → scan maps case_sensitive p n (behind w i) h below ≡ v)
      → scan maps case_sensitive p (rounds w n) i g below ≡ v
  literals-scan [] s i n g below v e l k z rest = rest g (refl, refl, z) e
  literals-scan (c ∷ w) s i n g below v e (l, ls) k z rest =
      let tail : drop (i + 1) p ≡ w ++ s = rw add-one (drop_next p (w ++ s) i c e) in
      let alone = quantifier_at-plain p (w ++ s) (i + 1) tail (is_plain_head-append w s ls k) in
      let first = fold_first maps case_sensitive p (some (single_char_set c)) in
      let (h, moved, (start, unbounded, run)) =
        atom-plain maps case_sensitive p first i g below alone (omega arith) in
      scan-inside maps case_sensitive p (rounds w n) i c g below (get_elem?-drop p (w ++ s) i c e)
      ∙ ap (then_scan maps case_sensitive p (scan maps case_sensitive p (rounds w n)))
          (step-literal maps case_sensitive p i c g below l ∙ moved)
      ∙ literals-scan w s (i + 1) n h below v tail ls k run
          (λ h' kept. rest h' (kept.0 ∙ start, kept.1 ∙ unbounded, kept.2))

-- A pattern of literals is safe.
pub literals-safe :
    (maps : CaseMaps) (case_sensitive : Bool) (w : Pattern)
    → All IsLiteral w
    → find_catastrophic_regex_shape maps case_sensitive w ≡ safe
literals-safe maps case_sensitive w l =
    let whole : drop 0 w ≡ w ++ [] = sym (append-nil w) in
    let fuel = rounds w (length w) in
    let run =
      literals-scan maps case_sensitive w w [] 0 (length w) (new_group_state 0) [] safe whole l refl
        refl
        (λ h kept e.
          scan-at_end maps case_sensitive w (length w) (behind w 0) h []
            (get_elem?-drop_end w (behind w 0) e)) in
    sym (find_catastrophic-settled maps case_sensitive w fuel (rounds-le w (length w))).1 ∙ run
