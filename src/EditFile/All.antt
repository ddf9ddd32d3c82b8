-- ===== src/EditFile/All.antt =====
-- The replacement of all occurrences by the edit tool, in src/tools/executors.ts, which splits and joins.
use ai_model_arena.Common.{
  ℕ, zero, suc, ◌-◌, ◌≡◌, refl, ◌∙◌, ap, inl, inr, true, false, List, [], ◌∷◌, ◌++◌, if◌then◌else◌,
  length, Bool-cases, ◌==◌, arith,
}
use ai_model_arena.EditFile.{
  Content, is_prefix, push_front, splits, split, join, not_found, replaced_all, replace_all,
}

-- One pass from left to right: where the old text stands, the new text is written and the old one passed
-- over. `skip` code units are still to be passed over.
unfoldable pub substitute : Content → Content → ℕ → Content → Content
substitute old new skip [] = []
substitute old new (suc skip) (c ∷ rest) = substitute old new skip rest
substitute old new zero (c ∷ rest) =
    let hit = new ++ substitute old new (length old - 1) rest in
    let miss = c ∷ substitute old new 0 rest in if is_prefix old (c ∷ rest) then hit else miss

abbrev IsCons : List Content → Type 0
IsCons [] = false ≡ true
IsCons (part ∷ parts) = Unit

push_front-IsCons : (c : ℕ) (parts : List Content) → IsCons (push_front c parts)
push_front-IsCons c [] = tt
push_front-IsCons c (part ∷ parts) = tt

splits-IsCons : (old : Content) (skip : ℕ) (xs : Content) → IsCons (splits old skip xs)
unfolding splits
splits-IsCons old skip [] = tt
splits-IsCons old (suc skip) (c ∷ xs) = splits-IsCons old skip xs
splits-IsCons old zero (c ∷ xs) = elim (Bool-cases (is_prefix old (c ∷ xs))) [
  | inl e ↦ rw e tt
  | inr n ↦ rw n (push_front-IsCons c (splits old 0 xs))
]

join-cons :
    (new : Content) (parts : List Content)
    → IsCons parts
    → join new ([] ∷ parts) ≡ new ++ join new parts
unfolding join
join-cons new [] h = cc
join-cons new (part ∷ parts) h = refl

join-push_front :
    (new : Content) (c : ℕ) (parts : List Content)
    → IsCons parts
    → join new (push_front c parts) ≡ c ∷ join new parts
unfolding join
join-push_front new c [] h = cc
join-push_front new c (part ∷ []) h = refl
join-push_front new c (part ∷ next ∷ parts) h = refl

join-splits :
    (old new : Content) (skip : ℕ) (xs : Content)
    → join new (splits old skip xs) ≡ substitute old new skip xs
unfolding splits substitute
join-splits old new skip [] = unfold join in refl
join-splits old new (suc skip) (c ∷ xs) = join-splits old new skip xs
join-splits old new zero (c ∷ xs) = elim (Bool-cases (is_prefix old (c ∷ xs))) [
  | inl e ↦ rw e (
      join-cons new (splits old (length old - 1) xs) (splits-IsCons old (length old - 1) xs)
      ∙ ap (λ t. new ++ t) (join-splits old new (length old - 1) xs))
  | inr n ↦ rw n (
      join-push_front new c (splits old 0 xs) (splits-IsCons old 0 xs)
      ∙ ap (λ t. c ∷ t) (join-splits old new 0 xs))
]

join-split :
    (c : ℕ) (old new original : Content)
    → join new (split (c ∷ old) original) ≡ substitute (c ∷ old) new 0 original
unfolding split
join-split c old new original = join-splits (c ∷ old) new 0 original

-- How many occurrences the pass replaces.
unfoldable pub hits : Content → ℕ → Content → ℕ
hits old skip [] = 0
hits old (suc skip) (c ∷ rest) = hits old skip rest
hits old zero (c ∷ rest) =
    let hit = hits old (length old - 1) rest in
    let miss = hits old 0 rest in if is_prefix old (c ∷ rest) then suc hit else miss

length-push_front :
    (c : ℕ) (parts : List Content) → IsCons parts → length (push_front c parts) ≡ length parts
length-push_front c [] h = cc
length-push_front c (part ∷ parts) h = refl

length-splits :
    (old : Content) (skip : ℕ) (xs : Content) → length (splits old skip xs) ≡ suc (hits old skip xs)
unfolding splits hits
length-splits old skip [] = refl
length-splits old (suc skip) (c ∷ xs) = length-splits old skip xs
length-splits old zero (c ∷ xs) = elim (Bool-cases (is_prefix old (c ∷ xs))) [
  | inl e ↦ rw e (ap suc (length-splits old (length old - 1) xs))
  | inr n ↦
      rw n (length-push_front c (splits old 0 xs) (splits-IsCons old 0 xs) ∙ length-splits old 0 xs)
]

length-split :
    (c : ℕ) (old original : Content)
    → length (split (c ∷ old) original) ≡ suc (hits (c ∷ old) 0 original)
unfolding split
length-split c old original = length-splits (c ∷ old) 0 original

-- For an old text that is not empty, the tool reports that it is not found exactly when a pass from left
-- to right replaces nothing; otherwise it writes what this pass makes of the content, where each
-- occurrence that does not overlap the one before is replaced, and counts one part more than the pass
-- replaces.
pub replace_all-substitute :
    (c : ℕ) (old new original : Content)
    → replace_all (c ∷ old) new original ≡ (
        if hits (c ∷ old) 0 original == 0
        then not_found
        else replaced_all (substitute (c ∷ old) new 0 original) (suc (hits (c ∷ old) 0 original)))
unfolding replace_all
replace_all-substitute c old new original =
    rw (length-split c old original) (rw (join-split c old new original) (ground arith))
