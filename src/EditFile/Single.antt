-- ===== src/EditFile/Single.antt =====
-- The single replacement of the edit tool, in src/tools/executors.ts.
use ai_model_arena.Common.{
  ℕ, zero, suc, ◌+◌, ◌≤◌, ◌<◌, ◌≡◌, ◌≢◌, refl, ◌∙◌, sym, ap, inl, inr, Bool, true, false, ◌&&◌, [],
  ◌∷◌, ◌++◌, if◌then◌else◌, ◌==◌, length, take, drop, arith, Bool-cases,
}
use ai_model_arena.EditFile.{
  Content, is_prefix, Search, no_search, count_line, note_match, search_from, replaced, replace_at,
  single_result, replace_single,
}
use ai_model_arena.EditFile.Occurrences.{occurrences, is_prefix-split, once_unique}

abbrev round : Bool → ℕ → ℕ → Search → Search
round hit i c s = if hit then note_match i (count_line c s) else count_line c s

round-count :
    (hit : Bool) (i c : ℕ) (s : Search)
    → (round hit i c s).match_count ≡ s.match_count + (if hit then 1 else 0)
round-count hit i c s = ground arith

round-idx :
    (hit : Bool) (i c : ℕ) (s : Search)
    → (round hit i c s).idx ≡ (if hit && (s.match_count == 0) then i else s.idx)
round-idx hit i c s = ground arith

search_from-count :
    (old rest : Content) (i : ℕ) (s : Search)
    → (search_from old i rest s).match_count ≡ s.match_count + occurrences old rest
unfolding search_from occurrences
search_from-count old [] i s = omega arith
search_from-count old (c ∷ rest) i s =
    let hit = is_prefix old (c ∷ rest) in
    let later = search_from-count old rest (i + 1) (round hit i c s) in
    omega (arith, later, round-count hit i c s)

-- Behind the first match, the index stays.
search_from-kept :
    (old rest : Content) (i : ℕ) (s : Search)
    → 1 ≤ s.match_count
    → (search_from old i rest s).idx ≡ s.idx
unfolding search_from
search_from-kept old [] i s h = refl
search_from-kept old (c ∷ rest) i s h =
    let hit = is_prefix old (c ∷ rest) in
    search_from-kept old rest (i + 1) (round hit i c s) (omega (arith, round-count hit i c s))
    ∙ round-idx hit i c s
    ∙ ground arith

-- The index is one where the text stands.
search_from-found :
    (old rest : Content) (i : ℕ) (s : Search)
    → s.match_count ≡ 0
    → 1 ≤ occurrences old rest
    → (k : ℕ) × ((search_from old i rest s).idx ≡ i + k)
      × (k < length rest)
      × (is_prefix old (drop k rest) ≡ true)
unfolding search_from occurrences
search_from-found old [] i s z h = absurd (omega arith)
search_from-found old (c ∷ rest) i s z h = elim (Bool-cases (is_prefix old (c ∷ rest))) [
  | inl e ↦
      let kept =
        search_from-kept old rest (i + 1) (round true i c s)
          (omega (arith, round-count true i c s)) in
      let first : (round true i c s).idx ≡ i = round-idx true i c s ∙ ground arith in
      (
        0,
        ap (λ b. (search_from old (i + 1) rest (round b i c s)).idx) e
            ∙ kept
            ∙ first
            ∙ (omega arith),
        omega arith,
        e,
      )
  | inr n ↦
      let (k, idx, inside, here) =
        search_from-found old rest (i + 1) (round false i c s)
          (omega (arith, round-count false i c s)) (ground arith) in
      (
        suc k,
        ap (λ b. (search_from old (i + 1) rest (round b i c s)).idx) n ∙ idx ∙ (omega arith),
        omega arith,
        here,
      )
]

-- What a single replacement that succeeds says of the text and of its result.
pub record IsReplaced (old new original modified : Content) : Type 0 where
  pub pre : Content
  pub post : Content
  pub before : original ≡ pre ++ (old ++ post)
  pub after : modified ≡ pre ++ (new ++ post)
  pub only : occurrences old original ≡ 1

take-drop : (k : ℕ) (xs : Content) → xs ≡ take k xs ++ drop k xs
take-drop zero xs = refl
take-drop (suc k) [] = refl
take-drop (suc k) (c ∷ xs) = ap (λ t. c ∷ t) (take-drop k xs)

drop-nil : (n : ℕ) → drop {A = ℕ} n [] ≡ []
drop-nil zero = refl
drop-nil (suc n) = refl

drop-drop : (a b : ℕ) (xs : Content) → drop a (drop b xs) ≡ drop (b + a) xs
drop-drop a zero xs = let same : a ≡ 0 + a = omega arith in ap (λ k. drop k xs) same
drop-drop a (suc b) [] = drop-nil a ∙ sym (drop-nil (suc b + a))
drop-drop a (suc b) (c ∷ xs) =
    let same : suc (b + a) ≡ suc b + a = omega arith in
    drop-drop a b xs ∙ ap (λ k. drop k (c ∷ xs)) same

single_result-inv :
    (old new original modified : Content) (s : Search) (line : ℕ)
    → single_result old new original s ≡ replaced modified line
    → (s.match_count ≡ 1) × (replace_at old s.idx new original ≡ modified)
single_result-inv old new original modified s line h = ground arith

-- Where a single replacement succeeds, the old text stands at exactly one position of the content, and the
-- result is the content with the new text in its place.
pub replace_single-IsReplaced :
    (old new original modified : Content) (line : ℕ)
    → replace_single old new original ≡ replaced modified line
    → IsReplaced old new original modified
unfolding replace_single
replace_single-IsReplaced old new original modified line h =
    let s = search_from old 0 original no_search in
    let (one, result) = single_result-inv old new original modified s line h in
    let count : occurrences old original ≡ 1 =
      omega (arith, search_from-count old original 0 no_search) in
    let (k, idx, inside, here) = search_from-found old original 0 no_search refl (omega arith) in
    let at_k : s.idx ≡ k = omega arith in
    record {
      pre = take k original;
      post = drop (k + length old) original;
      before =
          take-drop k original
          ∙ ap (λ t. take k original ++ t)
              (is_prefix-split old (drop k original) here
                ∙ ap (λ t. old ++ t) (drop-drop (length old) k original));
      after = sym result ∙ ap (λ j. replace_at old j new original) at_k;
      only = count;
    }

-- An edit and then the edit back, where both succeed and the new text is not empty, give the content
-- before the first one.
pub replace_single-back :
    (old new original modified restored : Content) (line line' : ℕ)
    → new ≢ []
    → replace_single old new original ≡ replaced modified line
    → replace_single new old modified ≡ replaced restored line'
    → restored ≡ original
replace_single-back old [] original modified restored line line' ne h h' = absurd (ne refl)
replace_single-back old (c ∷ new) original modified restored line line' ne h h' =
    let there = replace_single-IsReplaced old (c ∷ new) original modified line h in
    let back = replace_single-IsReplaced (c ∷ new) old modified restored line' h' in
    let (heads, tails) =
      once_unique c new modified there.pre there.post back.pre back.post back.only there.after
        back.before in
    back.after
    ∙ ap (λ t. back.pre ++ (old ++ t)) (sym tails)
    ∙ ap (λ t. t ++ (old ++ there.post)) (sym heads)
    ∙ sym there.before
