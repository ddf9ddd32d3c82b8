-- ===== src/Compaction/Scan.antt =====
-- What a round of `compactMessages` in src/agent-loop/loop.ts scans, and the lists without the messages it drops.
use ai_model_arena.Common.{
  ℕ, zero, suc, ◌+◌, ◌-◌, ◌≤◌, List, [], ◌∷◌, ◌++◌, ◌≡◌, refl, ◌⊎◌, inl, inr, leb, leb→le,
  Bool-cases, min, length, take, drop, length-append, arith,
}
use ai_model_arena.Chat.{ChatMessage, content_length}
use ai_model_arena.Compaction.{max_context_chars, total_chars, scan}

pub length-take-min : (n : ℕ) (ms : List ChatMessage) → length (take n ms) ≡ min n (length ms)
length-take-min zero ms = omega arith
length-take-min (suc n) [] = omega arith
length-take-min (suc n) (m ∷ ms) = omega (arith, length-take-min n ms)

pub length-drop : (n : ℕ) (ms : List ChatMessage) → length (drop n ms) ≡ length ms - n
length-drop zero ms = omega arith
length-drop (suc n) [] = omega arith
length-drop (suc n) (m ∷ ms) = omega (arith, length-drop n ms)

-- The messages without `k` of them from `start` on.
abbrev pub without : ℕ → ℕ → List ChatMessage → List ChatMessage
without start k ms = take start ms ++ drop k (drop start ms)

pub length-without :
    (start k : ℕ) (ms : List ChatMessage)
    → start + k ≤ length ms
    → length (without start k ms) + k ≡ length ms
length-without start k ms h = omega (
  arith,
  h,
  length-append (take start ms) (drop k (drop start ms)),
  length-take-min start ms,
  length-drop start ms,
  length-drop k (drop start ms),
)

pub chars-drop :
    (k e : ℕ) (ms : List ChatMessage)
    → k ≤ length (take e ms)
    → total_chars (drop k ms) + total_chars (take k (take e ms)) ≡ total_chars ms
chars-drop zero e ms h = omega arith
chars-drop (suc k) zero ms h = omega (arith, h)
chars-drop (suc k) (suc e) [] h = omega (arith, h)
chars-drop (suc k) (suc e) (m ∷ ms) h = omega (arith, chars-drop k e ms (omega (arith, h)))

pub chars-without :
    (start k e : ℕ) (ms : List ChatMessage)
    → k ≤ length (take e (drop start ms))
    → total_chars (without start k ms) + total_chars (take k (take e (drop start ms)))
      ≡ total_chars ms
chars-without zero k e ms h = chars-drop k e ms h
chars-without (suc start) k e [] h = chars-drop k e [] h
chars-without (suc start) k e (m ∷ ms) h = omega (arith, chars-without start k e ms h)

-- What a scan finds: `k` messages from the front, enough of them or all.
abbrev pub Scanned : ℕ → ℕ → ℕ → List ChatMessage → ℕ × ℕ → Type 0
Scanned total dropped_chars dropped ms (chars, count) =
    (k : ℕ) × (k ≤ length ms
      × count ≡ dropped + k
      × chars ≡ dropped_chars + total_chars (take k ms)
      × (total - chars ≤ max_context_chars ⊎ k ≡ length ms))

pub scan-Scanned :
    (total dropped_chars dropped : ℕ) (ms : List ChatMessage)
    → Scanned total dropped_chars dropped ms (scan total dropped_chars dropped ms)
unfolding scan
scan-Scanned total dropped_chars dropped [] = (0, (omega arith, omega arith, omega arith, inr refl))
scan-Scanned total dropped_chars dropped (m ∷ ms) =
    elim (Bool-cases (leb (total - (dropped_chars + content_length m)) max_context_chars)) [
      | inl e ↦ rw e (1, (omega arith, omega arith, omega arith, inl (leb→le _ _ e)))
      | inr e ↦
          let (k, (le, count, chars, enough)) =
            scan-Scanned total (dropped_chars + content_length m) (dropped + 1) ms in
          rw e (
            suc k,
            (
              omega (arith, le),
              omega (arith, count),
              omega (arith, chars),
              elim enough [ inl fits ↦ inl fits | inr all ↦ inr (omega (arith, all)) ],
            ),
          )
    ]
