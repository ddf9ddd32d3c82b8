-- ===== src/EditFile/Occurrences.antt =====
-- The positions at which a text stands in a content, for the edit tool of src/tools/executors.ts.
use ai_model_arena.Common.{
  ℕ, zero, suc, ◌+◌, ◌≤◌, ◌<◌, ◌≡◌, refl, ◌∙◌, sym, ap, true, [], ◌∷◌, ◌++◌, if◌then◌else◌, length,
  length-append, take, drop, arith, drop-append, take-append,
}
use ai_model_arena.EditFile.{Content, is_prefix}

-- How many positions of a text a text stands at.
unfoldable pub occurrences : Content → Content → ℕ
occurrences old [] = 0
occurrences old (c ∷ rest) = (if is_prefix old (c ∷ rest) then 1 else 0) + occurrences old rest

is_prefix-append : (old post : Content) → is_prefix old (old ++ post) ≡ true
unfolding is_prefix
is_prefix-append [] post = refl
is_prefix-append (c ∷ old) post = ground (arith, is_prefix-append old post)

pub is_prefix-split :
    (old xs : Content) → is_prefix old xs ≡ true → xs ≡ old ++ drop (length old) xs
unfolding is_prefix
is_prefix-split [] xs h = refl
is_prefix-split (c ∷ old) [] h = ground arith
is_prefix-split (c ∷ old) (d ∷ xs) h =
    let same : c ≡ d = ground arith in let rest = is_prefix-split old xs (ground arith) in cc

pub occurrences-pos :
    (old xs : Content) (i : ℕ)
    → i < length xs
    → is_prefix old (drop i xs) ≡ true
    → 1 ≤ occurrences old xs
unfolding occurrences
occurrences-pos old [] i h k = absurd (omega arith)
occurrences-pos old (c ∷ xs) zero h k = ground arith
occurrences-pos old (c ∷ xs) (suc i) h k = ground (arith, occurrences-pos old xs i (omega arith) k)

-- A text that stands at one position stands at no other.
occurrences_unique :
    (old xs : Content) (i j : ℕ)
    → i < length xs
    → j < length xs
    → is_prefix old (drop i xs) ≡ true
    → is_prefix old (drop j xs) ≡ true
    → occurrences old xs ≡ 1
    → i ≡ j
unfolding occurrences
occurrences_unique old [] i j hi hj pi pj one = absurd (omega arith)
occurrences_unique old (c ∷ xs) zero zero hi hj pi pj one = refl
occurrences_unique old (c ∷ xs) zero (suc j) hi hj pi pj one =
    ground (arith, occurrences-pos old xs j (omega arith) pj)
occurrences_unique old (c ∷ xs) (suc i) zero hi hj pi pj one =
    ground (arith, occurrences-pos old xs i (omega arith) pi)
occurrences_unique old (c ∷ xs) (suc i) (suc j) hi hj pi pj one =
    let below = occurrences-pos old xs i (omega arith) pi in
    ap suc (occurrences_unique old xs i j (omega arith) (omega arith) pi pj (ground arith))

-- The text stands at the index behind `pre`.
is_prefix-at :
    (old xs pre post : Content)
    → xs ≡ pre ++ (old ++ post)
    → is_prefix old (drop (length pre) xs) ≡ true
is_prefix-at old xs pre post e =
    ap (λ t. is_prefix old (drop (length pre) t)) e
    ∙ ap (is_prefix old) (drop-append pre (old ++ post))
    ∙ is_prefix-append old post

starts_inside :
    (c : ℕ) (old xs pre post : Content) → xs ≡ pre ++ ((c ∷ old) ++ post) → length pre < length xs
starts_inside c old xs pre post e =
    omega (arith, ap length e, length-append pre ((c ∷ old) ++ post))

-- A text that is not empty and stands once stands at the end of one prefix only, before one rest.
pub once_unique :
    (c : ℕ) (old xs pre post pre' post' : Content)
    → occurrences (c ∷ old) xs ≡ 1
    → xs ≡ pre ++ ((c ∷ old) ++ post)
    → xs ≡ pre' ++ ((c ∷ old) ++ post')
    → (pre ≡ pre') × (post ≡ post')
once_unique c old xs pre post pre' post' one e e' =
    let same : length pre ≡ length pre' =
      occurrences_unique (c ∷ old) xs (length pre) (length pre') (starts_inside c old xs pre post e)
        (starts_inside c old xs pre' post' e') (is_prefix-at (c ∷ old) xs pre post e)
        (is_prefix-at (c ∷ old) xs pre' post' e') one in
    let heads : pre ≡ pre' =
      sym (take-append pre ((c ∷ old) ++ post))
      ∙ ap (take (length pre)) (sym e ∙ e')
      ∙ ap (λ k. take k (pre' ++ ((c ∷ old) ++ post'))) same
      ∙ take-append pre' ((c ∷ old) ++ post') in
    let tails : (c ∷ old) ++ post ≡ (c ∷ old) ++ post' =
      sym (drop-append pre ((c ∷ old) ++ post))
      ∙ ap (drop (length pre)) (sym e ∙ e')
      ∙ ap (λ k. drop k (pre' ++ ((c ∷ old) ++ post'))) same
      ∙ drop-append pre' ((c ∷ old) ++ post') in
    (
      heads,
      sym (drop-append (c ∷ old) post)
          ∙ ap (drop (length (c ∷ old))) tails
          ∙ drop-append (c ∷ old) post',
    )
