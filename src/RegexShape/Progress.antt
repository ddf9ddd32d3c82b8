-- ===== src/RegexShape/Progress.antt =====
-- The scan of src/tools/executors.ts moves on in every round, so its loops end.
use ai_model_arena.Common.{
  ℕ, zero, suc, ◌+◌, ◌≤◌, ◌<◌, ◌≡◌, refl, ◌≢◌, ◌∙◌, inl, inr, sym, Bool, true, false, ◌||◌, Option,
  none, some, List, [], ◌∷◌, if◌then◌else◌, ◌==◌, length, drop, get_elem?, arith, Option-cases,
}
use ai_model_arena.CharSets.{CaseMaps, CharSet}
use ai_model_arena.RegexShape.Syntax.{Pattern, parse_escape_set, parse_char_class}
use ai_model_arena.RegexShape.Quantifiers.{RegexQuantifier, quantifier_at, quantifier_end}
use ai_model_arena.RegexShape.Group.{
  RegexGroupState, new_group_state, RegexShapeFinding, Applied, found, applied, close_group,
  judge_group,
}
use ai_model_arena.RegexShape.Syntax.Ends.{parse_escape_set-lt, parse_char_class-lt}
use ai_model_arena.RegexShape.Quantifiers.Ends.{quantifier_at-le, quantifier_end-le}
use ai_model_arena.RegexShape.{
  Round, go_on, reject, crash, safe, unfinished, then_go, index_of, named_content, content_start,
  atom, pop_into, close_unless, close, plain, stray, stray_or_plain, step, then_scan, scan,
  find_catastrophic_regex_shape,
}

-- The next round, if there is one, starts behind `i`.
abbrev MovesOn : ℕ → Round → Type 0
MovesOn i (go_on index current below) = i < index
MovesOn i (reject f) = Unit
MovesOn i crash = Unit

then_go-MovesOn :
    (i index : ℕ) (below : List RegexGroupState) (a : Applied)
    → i < index
    → MovesOn i (then_go index below a)
then_go-MovesOn i index below (found f) h = tt
then_go-MovesOn i index below (applied g) h = h

index_of-le : (c index n : ℕ) (p : Pattern) → index_of c index p ≡ some n → index ≤ n
unfolding index_of
index_of-le c index n [] h = ground arith
index_of-le c index n (d ∷ p) h = ground (arith, index_of-le c (index + 1) n p)

named_content-le :
    (content : ℕ) (p : Pattern) → content ≤ named_content content (index_of b'>' (content + 2) p)
unfolding named_content
named_content-le content p = elim (Option-cases (index_of b'>' (content + 2) p)) [
  | inl e ↦ rw e (omega arith)
  | inr (n, e) ↦ rw e (omega (arith, index_of-le b'>' (content + 2) n p e))
]

content_start-le : (p : Pattern) (content : ℕ) → content ≤ content_start p content
unfolding content_start
content_start-le p content = ground (arith, named_content-le content (drop (content + 2) p))

if-MovesOn :
    (i : ℕ) (b : Bool) (r s : Round) → MovesOn i r → MovesOn i s → MovesOn i (if b then r else s)
if-MovesOn i true r s h k = h
if-MovesOn i false r s h k = k

module _ (maps : CaseMaps) (case_sensitive : Bool) (pattern : Pattern) where
  atom-MovesOn :
      (first : Option CharSet) (anchor : Bool) (i start last : ℕ) (current : RegexGroupState)
      (below : List RegexGroupState)
      → i ≤ last
      → MovesOn i (atom maps case_sensitive pattern first anchor start last current below)
  unfolding atom
  atom-MovesOn first anchor i start last current below h =
      let q = quantifier_at pattern (last + 1) in
      then_go-MovesOn i (quantifier_end pattern q last + 1) below _
        (omega (arith, quantifier_end-le pattern last))

  pop_into-MovesOn :
      (i : ℕ) (group : RegexGroupState) (below : List RegexGroupState)
      → MovesOn i
          (pop_into maps case_sensitive pattern i group (quantifier_at pattern (i + 1)) below)
  unfolding pop_into
  pop_into-MovesOn i group [] = tt
  pop_into-MovesOn i group (parent ∷ below) =
      let q = quantifier_at pattern (i + 1) in
      then_go-MovesOn i (quantifier_end pattern q i + 1) below _
        (omega (arith, quantifier_end-le pattern i))

  close_unless-MovesOn :
      (o : Option RegexShapeFinding) (i : ℕ) (group : RegexGroupState)
      (below : List RegexGroupState)
      → MovesOn i
          (close_unless maps case_sensitive pattern o i group (quantifier_at pattern (i + 1)) below)
  unfolding close_unless
  close_unless-MovesOn none i group below = pop_into-MovesOn i group below
  close_unless-MovesOn (some f) i group below = tt

  close-MovesOn :
      (i : ℕ) (current : RegexGroupState) (below : List RegexGroupState)
      → MovesOn i (close maps case_sensitive pattern i current below)
  unfolding close
  close-MovesOn i current below =
      let group = close_group current in
      close_unless-MovesOn (judge_group pattern group (quantifier_at pattern (i + 1))) i group below

  plain-MovesOn :
      (i ch : ℕ) (current : RegexGroupState) (below : List RegexGroupState)
      → MovesOn i (plain maps case_sensitive pattern i ch current below)
  unfolding plain
  plain-MovesOn i ch current below =
      if-MovesOn i (ch == b'.') _ _ (atom-MovesOn none false i i i current below (omega arith)) (
        if-MovesOn i (ch == b'^' || ch == b'$') _ _
          (atom-MovesOn none true i i i current below (omega arith))
          (atom-MovesOn _ false i i i current below (omega arith)))

  stray-le :
      (i ch : ℕ) (q : RegexQuantifier)
      → stray maps case_sensitive pattern i ch ≡ some q
      → i ≤ q.last
  unfolding stray
  stray-le i ch q h = ground (arith, quantifier_at-le pattern i q)

  stray_or_plain-MovesOn :
      (i ch : ℕ) (current : RegexGroupState) (below : List RegexGroupState)
      → MovesOn i (
          stray_or_plain maps case_sensitive pattern
            (stray maps case_sensitive pattern i ch)
            i
            ch
            current
            below)
  unfolding stray_or_plain
  stray_or_plain-MovesOn i ch current below =
      elim (Option-cases (stray maps case_sensitive pattern i ch)) [
        | inl e ↦ rw e (plain-MovesOn i ch current below)
        | inr (q, e) ↦ rw e (omega (arith, stray-le i ch q e))
      ]

  pub step-MovesOn :
      (i ch : ℕ) (current : RegexGroupState) (below : List RegexGroupState)
      → MovesOn i (step maps case_sensitive pattern i ch current below)
  unfolding step
  step-MovesOn i ch current below =
      let esc = parse_escape_set pattern i in
      let cls = parse_char_class pattern i in
      if-MovesOn i (ch == b'\\') _ _
        (atom-MovesOn _ false i i esc.last current below
          (omega (arith, parse_escape_set-lt pattern i)))
        (if-MovesOn i (ch == b'[') _ _
          (atom-MovesOn _ false i i cls.last current below
            (omega (arith, parse_char_class-lt pattern i)))
          (if-MovesOn i (ch == b'(') _ _ (omega (arith, content_start-le pattern (i + 1))) (
            if-MovesOn i (ch == b')') _ _ (close-MovesOn i current below) (
              if-MovesOn i (ch == b'|') _ _ (omega arith)
                (stray_or_plain-MovesOn i ch current below)))))

  get_elem?-beyond : (p : Pattern) (i : ℕ) → length p ≤ i → get_elem? p i ≡ none
  get_elem?-beyond [] i h = refl
  get_elem?-beyond (x ∷ xs) zero h = absurd (omega arith)
  get_elem?-beyond (x ∷ xs) (suc i) h = get_elem?-beyond xs i (omega arith)

  pub scan-at_end :
      (n i : ℕ) (current : RegexGroupState) (below : List RegexGroupState)
      → get_elem? pattern i ≡ none
      → scan maps case_sensitive pattern n i current below ≡ safe
  unfolding scan
  scan-at_end zero i current below e = rw e refl
  scan-at_end (suc n) i current below e = rw e refl

  pub scan-inside :
      (n i ch : ℕ) (current : RegexGroupState) (below : List RegexGroupState)
      → get_elem? pattern i ≡ some ch
      → scan maps case_sensitive pattern (suc n) i current below
        ≡ then_scan maps case_sensitive pattern
            (scan maps case_sensitive pattern n)
            (step maps case_sensitive pattern i ch current below)
  unfolding scan
  scan-inside n i ch current below e = rw e refl

  scan-beyond :
      (n i : ℕ) (current : RegexGroupState) (below : List RegexGroupState)
      → length pattern ≤ i
      → scan maps case_sensitive pattern n i current below ≡ safe
  scan-beyond n i current below h = scan-at_end n i current below (get_elem?-beyond pattern i h)

  -- There is a verdict with the fuel `n`, and the same one with the fuel `k`.
  abbrev IsSettled : (n k i : ℕ) → RegexGroupState → List RegexGroupState → Type 0
  IsSettled n k i current below =
      (scan maps case_sensitive pattern n i current below ≢ unfinished)
      × (scan maps case_sensitive pattern k i current below
          ≡ scan maps case_sensitive pattern n i current below)

  then_scan-settled :
      (n k i : ℕ) (r : Round)
      → MovesOn i r
      → length pattern ≤ i + suc n
      → ((j : ℕ) (g : RegexGroupState) (b : List RegexGroupState)
          → length pattern ≤ j + n
          → IsSettled n k j g b)
      → (then_scan maps case_sensitive pattern (scan maps case_sensitive pattern n) r ≢ unfinished)
        × (then_scan maps case_sensitive pattern (scan maps case_sensitive pattern k) r
            ≡ then_scan maps case_sensitive pattern (scan maps case_sensitive pattern n) r)
  then_scan-settled n k i (go_on j g b) h e ih = ih j g b (omega arith)
  then_scan-settled n k i (reject f) h e ih = (λ x. cc, refl)
  then_scan-settled n k i crash h e ih = (λ x. cc, refl)

  scan-IsSettled :
      (n k i : ℕ) (current : RegexGroupState) (below : List RegexGroupState)
      → n ≤ k
      → length pattern ≤ i + n
      → IsSettled n k i current below
  scan-IsSettled zero k i current below le h =
      let here = scan-beyond zero i current below (omega arith) in
      let there = scan-beyond k i current below (omega arith) in (λ x. cc, there ∙ sym here)
  scan-IsSettled (suc n) zero i current below le h = absurd (omega arith)
  scan-IsSettled (suc n) (suc k) i current below le h = elim (Option-cases (get_elem? pattern i)) [
    | inl e ↦
        let here = scan-at_end (suc n) i current below e in
        let there = scan-at_end (suc k) i current below e in (λ x. cc, there ∙ sym here)
    | inr (ch, e) ↦
        let here = scan-inside n i ch current below e in
        let there = scan-inside k i ch current below e in
        let rest =
          then_scan-settled n k i (step maps case_sensitive pattern i ch current below)
            (step-MovesOn i ch current below) h
            (λ j g b bound. scan-IsSettled n k j g b (omega arith) bound) in
        (λ x. rest.0 (sym here ∙ x), there ∙ rest.1 ∙ sym here)
  ]

pub find_catastrophic-settled :
    (maps : CaseMaps) (case_sensitive : Bool) (pattern : Pattern) (fuel : ℕ)
    → length pattern ≤ fuel
    → (find_catastrophic_regex_shape maps case_sensitive pattern ≢ unfinished)
      × (scan maps case_sensitive pattern fuel 0 (new_group_state 0) []
          ≡ find_catastrophic_regex_shape maps case_sensitive pattern)
unfolding find_catastrophic_regex_shape
find_catastrophic-settled maps case_sensitive pattern fuel h =
    scan-IsSettled maps case_sensitive pattern (length pattern) fuel 0 (new_group_state 0) [] h
      (omega arith)
