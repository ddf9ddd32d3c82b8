-- ===== src/RedisQueue/Server.antt =====
-- A server in memory that keeps the laws assumed of Redis, for the examples: ids are counted up.
use ai_model_arena.Common.{
  ℕ, suc, ◌≤◌, ◌<◌, ◌≡◌, refl, subst, ap, inl, inr, true, Option, none, some, List, [], ◌∷◌, ◌++◌,
  length, All, All-append, arith, Bool-cases, ◌==◌, if◌then◌else◌,
}
use ai_model_arena.Queue.{Task}
use ai_model_arena.RedisQueue.{Commands, Entry, remove_entry}
use ai_model_arena.RedisQueue.Laws.{Redis}

-- The ids go up, above `lo` and up to `hi`.
abbrev pub Within : ℕ → ℕ → List Entry → Type 0
Within lo hi [] = lo ≤ hi
Within lo hi (e ∷ es) = (lo < e.id) × Within e.id hi es

abbrev pub AreOlder : ℕ → List Entry → Type 0
AreOlder c es = All (λ e. e.id ≤ c) es

abbrev pub added : ℕ → Option Task → Entry
added id t = record { id = id; task = t }

pub lower-Within : (lo lo' hi : ℕ) (es : List Entry) → lo ≤ lo' → Within lo' hi es → Within lo hi es
lower-Within lo lo' hi [] le w = omega arith
lower-Within lo lo' hi (e ∷ es) le w = (omega (arith, w.0), w.1)

pub snoc-Within :
    (lo hi : ℕ) (t : Option Task) (es : List Entry)
    → Within lo hi es
    → Within lo (suc hi) (es ++ added (suc hi) t ∷ [])
snoc-Within lo hi t [] w = (omega arith, omega arith)
snoc-Within lo hi t (e ∷ es) w = (w.0, snoc-Within e.id hi t es w.1)

pub remove-Within :
    (lo hi id : ℕ) (es : List Entry) → Within lo hi es → Within lo hi (remove_entry id es)
remove-Within lo hi id [] w = w
remove-Within lo hi id (e ∷ es) w = elim (Bool-cases (e.id == id)) [
  | inl hit ↦
      rw hit (lower-Within lo e.id hi _ (omega (arith, w.0)) (remove-Within e.id hi id es w.1))
  | inr miss ↦ rw miss (w.0, remove-Within e.id hi id es w.1)
]

pub remove-above :
    (lo hi id : ℕ) (es : List Entry) → id ≤ lo → Within lo hi es → remove_entry id es ≡ es
remove-above lo hi id [] le w = refl
remove-above lo hi id (e ∷ es) le w =
    let rest = remove-above e.id hi id es (omega (arith, w.0)) w.1 in ground (arith, rest, w.0)

pub remove-older : (c id : ℕ) (es : List Entry) → c < id → AreOlder c es → remove_entry id es ≡ es
remove-older c id [] lt o = refl
remove-older c id (e ∷ es) lt o =
    let rest = remove-older c id es lt o.1 in ground (arith, rest, o.0)

pub older-remove : (c id : ℕ) (es : List Entry) → AreOlder c es → AreOlder c (remove_entry id es)
older-remove c id [] o = tt
older-remove c id (e ∷ es) o = elim (Bool-cases (e.id == id)) [
  | inl hit ↦ rw hit (older-remove c id es o.1)
  | inr miss ↦ rw miss (o.0, older-remove c id es o.1)
]

pub older-later : (c d : ℕ) (es : List Entry) → c ≤ d → AreOlder c es → AreOlder d es
older-later c d [] le o = tt
older-later c d (e ∷ es) le o = (omega (arith, o.0), older-later c d es le o.1)

pub remove_entry-last :
    (c : ℕ) (e : Entry) (es : List Entry)
    → c < e.id
    → AreOlder c es
    → remove_entry e.id (es ++ e ∷ []) ≡ es
remove_entry-last c e [] lt o = ground arith
remove_entry-last c e (x ∷ es) lt o =
    let rest = remove_entry-last c e es lt o.1 in ground (arith, rest, o.0)

pub find_entry : ℕ → List Entry → Option Entry
find_entry id [] = none
find_entry id (e ∷ es) = if e.id == id then some e else find_entry id es

pub find-remove : (id : ℕ) (es : List Entry) → find_entry id (remove_entry id es) ≡ none
unfolding find_entry
find-remove id [] = refl
find-remove id (e ∷ es) = elim (Bool-cases (e.id == id)) [
  | inl hit ↦ rw hit (find-remove id es)
  | inr miss ↦ rw (miss, miss) (find-remove id es)
]

pub record Memory : Type 0 where
  pub cursor : ℕ
  pub last : ℕ
  pub waits : List Entry
  pub held : List Entry
  pub dead : List Entry
  pub stream : List Entry
  pub len : ℕ
  pub ordered : Within cursor last waits
  pub older : AreOlder cursor held

abbrev pub add : Option Task → Memory → Memory
add t m = record m {
  last = suc m.last;
  waits = m.waits ++ added (suc m.last) t ∷ [];
  stream = m.stream ++ added (suc m.last) t ∷ [];
  len = suc m.len;
  ordered = snoc-Within m.cursor m.last t m.waits m.ordered;
}

abbrev pub add_dead : Option Task → Memory → Memory
add_dead t m = record m { dead = m.dead ++ added (suc (length m.dead)) t ∷ [] }

unfoldable pub read_from :
    (m : Memory) (es : List Entry) → Within m.cursor m.last es → Memory × Option Entry
read_from m [] w = (m, none)
read_from m (e ∷ es) w = (
  record m {
    cursor = e.id;
    waits = es;
    held = m.held ++ e ∷ [];
    ordered = w.1;
    older =
        All-append (λ x. x.id ≤ e.id) m.held (e ∷ [])
          (older-later m.cursor e.id m.held (omega (arith, w.0)) m.older) (omega arith, tt);
  },
  some e,
)

abbrev pub read : Memory → Memory × Option Entry
read m = read_from m m.waits m.ordered

abbrev pub acknowledge : ℕ → Memory → Memory
acknowledge id m = record m {
  held = remove_entry id m.held;
  older = older-remove m.cursor id m.held m.older;
}

abbrev pub delete : ℕ → Memory → Memory
delete id m = record m {
  waits = remove_entry id m.waits;
  stream = remove_entry id m.stream;
  ordered = remove-Within m.cursor m.last id m.waits m.ordered;
}

abbrev pub memory_commands : Commands
memory_commands = record {
  Server = Memory;
  set_nx = λ key m. (m, true);
  xadd = add;
  xadd_dlq = add_dead;
  xreadgroup = read;
  xack = acknowledge;
  xdel = delete;
  xdel_dlq = λ id m. record m { dead = remove_entry id m.dead };
  xrange = λ id m. find_entry id m.stream;
  xrange_dlq = λ m. m.dead;
  xlen = λ m. m.len;
  xlen_dlq = λ m. length m.dead;
  xpending = λ m. length m.held;
}

pub read_from-nil :
    (m : Memory) (es : List Entry) (w : Within m.cursor m.last es)
    → es ≡ []
    → read_from m es w ≡ (m, none)
unfolding read_from
read_from-nil m [] w h = refl
read_from-nil m (e ∷ es) w h = cc

pub read_from-cons :
    (m : Memory) (xs : List Entry) (w : Within m.cursor m.last xs) (e : Entry) (es : List Entry)
    → xs ≡ e ∷ es
    → let r = read_from m xs w in
      (r.1 ≡ some e)
      × (r.0.waits ≡ es)
      × (r.0.held ≡ m.held ++ e ∷ [])
      × (r.0.dead ≡ m.dead)
      × (r.0.len ≡ m.len)
unfolding read_from
read_from-cons m [] w e es h = cc
read_from-cons m (x ∷ xs) w e es h =
    let same : x ≡ e = cc in
    let rest : xs ≡ es = cc in (ap some same, rest, ap (λ y. m.held ++ y ∷ []) same, refl, refl)

pub unique_waits :
    (m : Memory) (e : Entry) (es : List Entry) → m.waits ≡ e ∷ es → remove_entry e.id es ≡ es
unique_waits m e es h =
    let w = subst (Within m.cursor m.last) h m.ordered in
    remove-above e.id m.last e.id es (omega arith) w.1

pub unique_held :
    (m : Memory) (e : Entry) (es : List Entry)
    → m.waits ≡ e ∷ es
    → remove_entry e.id (m.held ++ e ∷ []) ≡ m.held
unique_held m e es h =
    let w = subst (Within m.cursor m.last) h m.ordered in
    remove_entry-last m.cursor e m.held w.0 m.older

abbrev pub memory_redis : Redis
memory_redis = record {
  commands = memory_commands;
  undelivered = λ m. m.waits;
  pel = λ m. m.held;
  dlq = λ m. m.dead;
  last_id = λ m. m.last;
  unique_undelivered = unique_waits;
  unique_pel = unique_held;
  xpending_lem = λ m. refl;
  undelivered-xadd = λ t m. (suc m.last, omega arith, refl);
  pel-xadd = λ t m. refl;
  dlq-xadd = λ t m. refl;
  undelivered-xadd_dlq = λ t m. refl;
  pel-xadd_dlq = λ t m. refl;
  dlq-xadd_dlq = λ t m. (suc (length m.dead), refl);
  xreadgroup-nil = λ m h. read_from-nil m m.waits m.ordered h;
  xreadgroup-cons = λ m e es h. read_from-cons m m.waits m.ordered e es h;
  undelivered-xack = λ id m. refl;
  pel-xack = λ id m. refl;
  dlq-xack = λ id m. refl;
  xlen-xack = λ id m. refl;
  undelivered-xdel = λ id m. refl;
  pel-xdel = λ id m. refl;
  xrange-xdel = λ id m. find-remove id m.stream;
  dlq-xdel = λ id m. refl;
}

abbrev pub start : Memory
start = record {
  cursor = 0;
  last = 0;
  waits = [];
  held = [];
  dead = [];
  stream = [];
  len = 0;
  ordered = omega arith;
  older = tt;
}
