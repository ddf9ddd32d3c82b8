-- ===== src/Compaction/Window.antt =====
-- What `compactMessages` of src/agent-loop/loop.ts keeps and drops.
use ai_model_arena.Common.{
  ℕ, zero, suc, ◌+◌, ◌-◌, ◌≤◌, ◌<◌, true, ◌||◌, List, [], ◌∷◌, ◌≡◌, refl, sym, ◌∙◌, ap, ◌⊎◌, inl,
  inr, if◌then◌else◌, leb, leb→le, le→leb, Bool-cases, min, max, length, take, drop, arith,
}
use ai_model_arena.Chat.{ChatMessage}
use ai_model_arena.Compaction.{
  max_context_chars, total_chars, droppable, compact_rounds, compact_messages,
}
use ai_model_arena.Compaction.Scan.{
  length-take-min, length-drop, length-without, chars-without, scan-Scanned, without,
}

-- The messages from `start` on that `k` stands for, and what is left when they are gone.
abbrev pub IsWindow : ℕ → ℕ → List ChatMessage → List ChatMessage → Type 0
IsWindow start tail ms r =
    (k : ℕ) × (r ≡ without start k ms
      × start + k ≤ max start (length ms - tail)
      × (total_chars r ≤ max_context_chars ⊎ total_chars (droppable start tail r) ≡ 0))

without-zero : (start : ℕ) (ms : List ChatMessage) → without start 0 ms ≡ ms
without-zero zero ms = refl
without-zero (suc start) [] = refl
without-zero (suc start) (m ∷ ms) = ap (λ l. m ∷ l) (without-zero start ms)

-- A round that finds the window small enough, or nothing to drop, ends.
compact_rounds-done :
    (fuel start tail total : ℕ) (ms : List ChatMessage)
    → total ≤ max_context_chars ⊎ length ms - tail ≤ start
    → compact_rounds fuel start tail total ms ≡ ms
unfolding compact_rounds
compact_rounds-done zero start tail total ms h = refl
compact_rounds-done (suc fuel) start tail total ms (inl fits) =
    rw (le→leb total max_context_chars fits) refl
compact_rounds-done (suc fuel) start tail total ms (inr none_left) =
    elim (Bool-cases (leb total max_context_chars)) [
      | inl e ↦ rw e refl
      | inr e ↦ rw (e, le→leb (max start (length ms - tail)) start (omega (arith, none_left))) refl
    ]

droppable-none :
    (start tail : ℕ) (ms : List ChatMessage)
    → length ms - tail ≤ start
    → total_chars (droppable start tail ms) ≡ 0
droppable-none start tail ms h =
    let none_left : max start (length ms - tail) - start ≡ 0 = omega (arith, h) in rw none_left refl

IsWindow-same :
    (start tail : ℕ) (ms : List ChatMessage)
    → total_chars ms ≤ max_context_chars ⊎ total_chars (droppable start tail ms) ≡ 0
    → IsWindow start tail ms ms
IsWindow-same start tail ms h = (0, (sym (without-zero start ms), omega arith, h))

take-length : (ms : List ChatMessage) → take (length ms) ms ≡ ms
take-length [] = refl
take-length (m ∷ ms) = ap (λ l. m ∷ l) (take-length ms)

take-none : (k : ℕ) (ms : List ChatMessage) → k ≡ 0 → total_chars (take k ms) ≡ 0
take-none k ms e = rw e refl

module _ (start tail : ℕ) (ms : List ChatMessage) where
  length-droppable :
      start < length ms - tail → length (droppable start tail ms) ≡ length ms - tail - start
  length-droppable h = omega (
    arith,
    h,
    length-take-min (max start (length ms - tail) - start) (drop start ms),
    length-drop start ms,
  )

  module _ (k chars : ℕ) (more : start < length ms - tail)
      (le : k ≤ length (droppable start tail ms))
      (taken : chars ≡ total_chars (take k (droppable start tail ms))) where
    without-IsWindow :
        (total_chars ms - chars ≤ max_context_chars ⊎ k ≡ length (droppable start tail ms))
        → IsWindow start tail ms (without start k ms)
    without-IsWindow enough =
        let sum = chars-without start k (max start (length ms - tail) - start) ms le in
        let size = length-droppable more in
        (
          k,
          (
            refl,
            omega (arith, le, size, more),
            elim enough [
              | inl fits ↦ inl (omega (arith, fits, sum, taken))
              | inr all ↦ inr (
                  droppable-none start tail (without start k ms) (
                    omega (
                      arith,
                      all,
                      size,
                      more,
                      length-without start k ms (omega (arith, le, size, more)),
                    )))
            ],
          ),
        )

    rounds-after :
        (fuel : ℕ)
        → (total_chars ms - chars ≤ max_context_chars ⊎ k ≡ length (droppable start tail ms))
        → compact_rounds fuel start tail (total_chars ms - chars) (without start k ms)
          ≡ without start k ms
    rounds-after fuel enough =
        let size = length-droppable more in
        compact_rounds-done fuel start tail (total_chars ms - chars) (without start k ms)
          (elim enough [
            | inl fits ↦ inl fits
            | inr all ↦ inr (
                omega (
                  arith,
                  all,
                  size,
                  more,
                  length-without start k ms (omega (arith, le, size, more)),
                ))
          ])

    none_taken : (count : ℕ) → count ≡ k → (leb count 0 || leb chars 0) ≡ true → chars ≡ 0
    none_taken count same stop = elim (Bool-cases (leb count 0)) [
      | inl e ↦
          taken ∙ take-none k (droppable start tail ms) (omega (arith, leb→le count 0 e, same))
      | inr e ↦ ground (arith, e, stop)
    ]

    nothing_to_drop :
        max_context_chars < total_chars ms
        → chars ≡ 0
        → (total_chars ms - chars ≤ max_context_chars ⊎ k ≡ length (droppable start tail ms))
        → total_chars (droppable start tail ms) ≡ 0
    nothing_to_drop over empty (inl fits) = omega (arith, over, empty, fits)
    nothing_to_drop over empty (inr all) =
        ap total_chars (sym (take-length (droppable start tail ms)))
        ∙ ap (λ n. total_chars (take n (droppable start tail ms))) (sym all)
        ∙ sym taken
        ∙ empty

    splice-IsWindow :
        (fuel count : ℕ)
        → count ≡ k
        → max_context_chars < total_chars ms
        → (total_chars ms - chars ≤ max_context_chars ⊎ k ≡ length (droppable start tail ms))
        → IsWindow start tail ms (
            if leb count 0 || leb chars 0
            then ms
            else compact_rounds fuel start tail (total_chars ms - chars) (without start count ms))
    splice-IsWindow fuel count same over enough = elim (Bool-cases (leb count 0 || leb chars 0)) [
      | inl stop ↦ rw stop (
          IsWindow-same start tail ms
            (inr (nothing_to_drop over (none_taken count same stop) enough)))
      | inr go ↦ rw (go, same, rounds-after fuel enough) (without-IsWindow enough)
    ]

  compact_rounds-IsWindow :
      (fuel : ℕ) → IsWindow start tail ms (compact_rounds (suc fuel) start tail (total_chars ms) ms)
  unfolding compact_rounds
  compact_rounds-IsWindow fuel = elim (Bool-cases (leb (total_chars ms) max_context_chars)) [
    | inl fits ↦ rw fits (IsWindow-same start tail ms (inl (leb→le _ _ fits)))
    | inr over ↦ elim (Bool-cases (leb (max start (length ms - tail)) start)) [
      | inl end ↦
          rw (over, end)
            (IsWindow-same start tail ms
              (inr (droppable-none start tail ms (omega (arith, leb→le _ _ end)))))
      | inr more ↦
          let (k, (le, count, chars, enough)) =
            scan-Scanned (total_chars ms) 0 0 (droppable start tail ms) in
          rw (over, more)
            (splice-IsWindow k _ (ground (arith, more)) le (omega (arith, chars)) fuel _
              (omega (arith, count)) (ground (arith, over)) enough)
    ]
  ]

-- A compaction keeps at most two messages at the head and the protected ones at the tail, and drops consecutive
-- messages after the head, if any; afterwards the window has at most the allowed characters, or the messages that
-- could still be dropped have none.
pub compact_messages-IsWindow :
    (ms : List ChatMessage) (protected_tail : ℕ)
    → IsWindow
        (min 2 (length ms - protected_tail))
        protected_tail
        ms
        (compact_messages ms protected_tail)
unfolding compact_messages
compact_messages-IsWindow [] tail = IsWindow-same (min 2 (0 - tail)) tail [] (inl (omega arith))
compact_messages-IsWindow (m ∷ ms) tail =
    let start = min 2 (length (m ∷ ms) - tail) in
    elim (Bool-cases (leb (total_chars (m ∷ ms)) max_context_chars)) [
      | inl fits ↦ rw fits (IsWindow-same start tail (m ∷ ms) (inl (leb→le _ _ fits)))
      | inr over ↦ elim (Bool-cases (leb (length (m ∷ ms)) 2)) [
        | inl short ↦
            rw (over, short)
              (IsWindow-same start tail (m ∷ ms) (
                inr (
                  droppable-none start tail (m ∷ ms)
                    (omega (arith, leb→le (length (m ∷ ms)) 2 short)))))
        | inr long ↦ rw (over, long) (compact_rounds-IsWindow start tail (m ∷ ms) (length ms))
      ]
    ]
