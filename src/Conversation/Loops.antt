-- ===== src/Conversation/Loops.antt =====
-- What the search for repeated calls of src/logger/conversation-parser.ts finds.
use ai_model_arena.Common.{
  ℕ, ◌+◌, ◌≤◌, ◌<◌, ◌≡◌, refl, ◌∙◌, sym, ap, subst, ◌⊎◌, inl, inr, true, Option, none, some, String,
  eq_iff, List, [], ◌∷◌, ◌++◌, map, leb, ltb, length, length-append, All, arith, Bool-cases,
}
use ai_model_arena.Conversation.{
  ToolCallEntry, ConsecutiveLoop, same_call, repeats, loop_of, detect_loops,
}

-- The call is of this tool with these arguments.
abbrev pub IsCall : String → String → ToolCallEntry → Type 0
IsCall name arguments c = (c.name ≡ name) × (c.arguments ≡ arguments)

-- `run` is a part of the calls, all of one tool with the same arguments.
pub record IsRun (name arguments : String) (run calls : List ToolCallEntry) : Type 0 where
  pub pre : List ToolCallEntry
  pub post : List ToolCallEntry
  pub split : calls ≡ pre ++ (run ++ post)
  pub same : All (IsCall name arguments) run

repeats-All :
    (c : ToolCallEntry) (cs : List ToolCallEntry) → All (IsCall c.name c.arguments) (repeats c cs)
unfolding repeats
repeats-All c [] = tt
repeats-All c (d ∷ ds) = elim (Bool-cases (same_call d c)) [
  | inl e ↦
      let same : IsCall c.name c.arguments d =
        ground (arith, eq_iff d.name c.name, eq_iff d.arguments c.arguments) in
      rw e (same, repeats-All c ds)
  | inr n ↦ rw n tt
]

repeats-split :
    (c : ToolCallEntry) (cs : List ToolCallEntry)
    → (post : List ToolCallEntry) × (cs ≡ repeats c cs ++ post)
unfolding repeats
repeats-split c [] = ([], refl)
repeats-split c (d ∷ ds) = elim (Bool-cases (same_call d c)) [
  | inl e ↦ let (post, split) = repeats-split c ds in (post, rw e (ap (λ t. d ∷ t) split))
  | inr n ↦ (d ∷ ds, rw n refl)
]

repeats-longest :
    (c : ToolCallEntry) (run post : List ToolCallEntry)
    → All (IsCall c.name c.arguments) run
    → length run ≤ length (repeats c (run ++ post))
unfolding repeats
repeats-longest c [] post h = omega arith
repeats-longest c (d ∷ run) post ((e, f), h) =
    let same : same_call d c ≡ true =
      ground (arith, eq_iff d.name c.name, eq_iff d.arguments c.arguments) in
    rw same (omega (arith, repeats-longest c run post h))

-- The three branches of one round.
detect_loops-cases :
    (n : ℕ) (c : ToolCallEntry) (cs : List ToolCallEntry) (o : Option ConsecutiveLoop)
    → detect_loops n (c ∷ cs) ≡ o
    → ((o ≡ none) × (1 + length cs < n))
      ⊎ ((o ≡ some (loop_of c (repeats c cs))) × (n ≤ 1 + length (repeats c cs)))
      ⊎ ((detect_loops n cs ≡ o) × (1 + length (repeats c cs) < n))
unfolding detect_loops
detect_loops-cases n c cs o h = elim (Bool-cases (ltb (1 + length cs) n)) [
  | inl short ↦ inl (sym h ∙ rw short refl, ground arith)
  | inr long ↦ inr (elim (Bool-cases (leb n (1 + length (repeats c cs)))) [
    | inl hit ↦ inl (sym h ∙ rw (long, hit) refl, ground arith)
    | inr miss ↦
        let later : detect_loops n (c ∷ cs) ≡ detect_loops n cs = rw (long, miss) refl in
        inr (sym later ∙ h, ground arith)
  ])
]

-- The found loop is a run of the calls.
abbrev pub Finds : ℕ → List ToolCallEntry → ConsecutiveLoop → Type 0
Finds n calls found =
    (arguments : String) × (run : List ToolCallEntry) × IsRun found.tool arguments run calls
    × (length run ≡ found.consecutive)
    × (n ≤ found.consecutive)
    × (map (λ (c : ToolCallEntry). c.turn) run ≡ found.turns)

Finds-loop_of :
    (n : ℕ) (c : ToolCallEntry) (cs : List ToolCallEntry)
    → n ≤ 1 + length (repeats c cs)
    → Finds n (c ∷ cs) (loop_of c (repeats c cs))
Finds-loop_of n c cs h =
    let (post, split) = repeats-split c cs in
    (
      c.arguments,
      c ∷ repeats c cs,
      record {
        pre = [];
        post = post;
        split = ap (λ t. c ∷ t) split;
        same = ((refl, refl), repeats-All c cs);
      },
      omega arith,
      h,
      refl,
    )

Finds-later :
    (n : ℕ) (c : ToolCallEntry) (cs : List ToolCallEntry) (found : ConsecutiveLoop)
    → Finds n cs found
    → Finds n (c ∷ cs) found
Finds-later n c cs found (arguments, run, r, size, least, turns) = (
  arguments,
  run,
  record { pre = c ∷ r.pre; post = r.post; split = ap (λ t. c ∷ t) r.split; same = r.same },
  size,
  least,
  turns,
)

-- A loop that is found is a run of as many calls as it counts, of its tool with the same arguments, at
-- least the minimum, with its turns.
pub detect_loops-Finds :
    (n : ℕ) (calls : List ToolCallEntry) (found : ConsecutiveLoop)
    → detect_loops n calls ≡ some found
    → Finds n calls found
detect_loops-Finds n [] found h = unfold detect_loops in ground arith
detect_loops-Finds n (c ∷ cs) found h = elim (detect_loops-cases n c cs (some found) h) [
  | inl (e, short) ↦ ground arith
  | inr (inl (e, long)) ↦
      let same : loop_of c (repeats c cs) ≡ found = ground arith in
      subst (Finds n (c ∷ cs)) same (Finds-loop_of n c cs long)
  | inr (inr (later, short)) ↦ Finds-later n c cs found (detect_loops-Finds n cs found later)
]

-- Where no loop is found, every run of calls of one tool with the same arguments is shorter than the
-- minimum, which is not 0.
pub detect_loops-none :
    (n : ℕ) (pre run post : List ToolCallEntry) (name arguments : String)
    → 0 < n
    → All (IsCall name arguments) run
    → detect_loops n (pre ++ (run ++ post)) ≡ none
    → length run < n
detect_loops-none n [] [] post name arguments pos same h = pos
detect_loops-none n [] (c ∷ run) post name arguments pos (first, same) h =
    let again : All (IsCall c.name c.arguments) run =
      subst (λ a. All (IsCall c.name a) run) (sym first.1)
        (subst (λ m. All (IsCall m arguments) run) (sym first.0) same) in
    elim (detect_loops-cases n c (run ++ post) none h) [
      | inl (e, short) ↦ omega (arith, length-append run post)
      | inr (inl (e, long)) ↦ ground arith
      | inr (inr (later, short)) ↦ omega (arith, repeats-longest c run post again)
    ]
detect_loops-none n (c ∷ pre) run post name arguments pos same h =
    elim (detect_loops-cases n c (pre ++ (run ++ post)) none h) [
      | inl (e, short) ↦ omega (arith, length-append pre (run ++ post), length-append run post)
      | inr (inl (e, long)) ↦ ground arith
      | inr (inr (later, short)) ↦ detect_loops-none n pre run post name arguments pos same later
    ]
