-- ===== src/RateLimit/Window.antt =====
-- The number of requests that the limiter of src/dashboard-server/auth-api.ts lets through in a minute.
use ai_model_arena.Common.{
  ℕ, ◌+◌, ◌≤◌, ◌<◌, ◌≡◌, refl, Bool, true, false, Option, none, some, List, [], ◌∷◌, arith,
  if◌then◌else◌, ltb, ◌==◌, ◌&&◌, String, str_eq, eq_iff, ap, Bool-cases, inl, inr,
}
use ai_model_arena.RateLimit.{
  RateLimitState, RateStore, minute_bucket, current_state, decide, counted, check_rate_limit, prune,
  Event, requests, prunes, step, empty_store,
}

abbrev pub time : Event → ℕ
time (requests now name) = now
time (prunes now) = now

-- The clock does not go back.
abbrev pub IsOrdered : ℕ → List Event → Type 0
IsOrdered t [] = Unit
IsOrdered t (e ∷ es) = (t ≤ time e) × IsOrdered (time e) es

-- 1 where the event is a request of `name` in the minute `bucket` that is let through.
abbrev pub passes : (String → ℕ) → String → ℕ → Event → RateStore → ℕ
passes limits name bucket (requests now n) s =
    if (str_eq name n && (bucket == minute_bucket now))
      && (check_rate_limit n (limits n) now s).1.allowed
    then 1
    else 0
passes limits name bucket (prunes now) s = 0

unfoldable pub admitted : (String → ℕ) → String → ℕ → List Event → RateStore → ℕ
admitted limits name bucket [] s = 0
admitted limits name bucket (e ∷ es) s =
    passes limits name bucket e s + admitted limits name bucket es (step limits e s)

abbrev count_of : Option RateLimitState → ℕ
count_of none = 0
count_of (some state) = state.count

passes-late :
    (limits : String → ℕ) (name : String) (bucket : ℕ) (e : Event) (s : RateStore)
    → bucket < minute_bucket (time e)
    → passes limits name bucket e s ≡ 0
passes-late limits name bucket (requests now n) s h = ground arith
passes-late limits name bucket (prunes now) s h = refl

admitted-late :
    (limits : String → ℕ) (name : String) (bucket t : ℕ) (es : List Event) (s : RateStore)
    → bucket < minute_bucket t
    → IsOrdered t es
    → admitted limits name bucket es s ≡ 0
unfolding admitted
admitted-late limits name bucket t [] s h w = refl
admitted-late limits name bucket t (e ∷ es) s h (l, w) =
    let later : bucket < minute_bucket (time e) = omega arith in
    let now = passes-late limits name bucket e s later in
    let rest = admitted-late limits name bucket (time e) es (step limits e s) later w in omega arith

-- A request moves the counter by one if it passes, and never over the limit.
decide-counted :
    (limit now : ℕ) (x : Option RateLimitState)
    → count_of x ≤ limit
    → ((if (decide limit now (current_state now x)).allowed then 1 else 0) + count_of x
        ≡ (counted limit (current_state now x)).count)
      × ((counted limit (current_state now x)).count ≤ limit)
decide-counted limit now none h = (ground arith, ground arith)
decide-counted limit now (some x) h = (ground arith, ground arith)

gate-counted :
    (hit : Bool) (limit other now : ℕ) (x y : Option RateLimitState)
    → (hit ≡ true → (x ≡ y) × (limit ≡ other))
    → count_of y ≤ other
    → ((if hit && (decide limit now (current_state now x)).allowed then 1 else 0) + count_of y
        ≡ count_of (if hit then some (counted limit (current_state now x)) else y))
      × (count_of (if hit then some (counted limit (current_state now x)) else y) ≤ other)
gate-counted false limit other now x y same h = (ground arith, h)
gate-counted true limit other now x y same h =
    let (x_y, limits_equal) = same refl in
    let counts : count_of x ≡ count_of y = ap count_of x_y in
    let (sum, bound) = decide-counted limit now x (omega arith) in (omega arith, omega arith)

hits-same :
    (limits : String → ℕ) (name n : String) (bucket mb : ℕ) (s : RateStore)
    → (str_eq name n && (bucket == mb)) ≡ true
    → (s n mb ≡ s name bucket) × (limits n ≡ limits name)
hits-same limits name n bucket mb s h =
    let names : n ≡ name = ground (arith, eq_iff name n) in
    let buckets : mb ≡ bucket = ground arith in ((λ i. s (names i) (buckets i)), ap limits names)

counts-IsBounded :
    (limits : String → ℕ) (name : String) (bucket t : ℕ) (es : List Event) (s : RateStore)
    → IsOrdered t es
    → count_of (s name bucket) ≤ limits name
    → count_of (s name bucket) + admitted limits name bucket es s ≤ limits name
unfolding admitted step check_rate_limit prune
counts-IsBounded limits name bucket t [] s w h = omega arith
counts-IsBounded limits name bucket t (requests now n ∷ es) s (l, w) h =
    let (sum, bound) =
      gate-counted (str_eq name n && (bucket == minute_bucket now)) (limits n) (limits name) now
        (s n (minute_bucket now)) (s name bucket)
        (hits-same limits name n bucket (minute_bucket now) s) h in
    let rest =
      counts-IsBounded limits name bucket now es (step limits (requests now n) s) w bound in
    omega arith
counts-IsBounded limits name bucket t (prunes now ∷ es) s (l, w) h =
    elim (Bool-cases (ltb (bucket + 2) (minute_bucket now))) [
      | inl old ↦
          let none_left = admitted-late limits name bucket now es (prune now s) (ground arith) w in
          omega arith
      | inr kept ↦
          let same : prune now s name bucket ≡ s name bucket = ground arith in
          let counts : count_of (prune now s name bucket) ≡ count_of (s name bucket) =
            ap count_of same in
          let rest = counts-IsBounded limits name bucket now es (prune now s) w (omega arith) in
          omega arith
    ]

-- In any history of requests and prunings by a clock that does not go back, from an empty store on, a
-- key's requests that are let through in one minute are at most the key's limit.
pub admitted-IsBounded :
    (limits : String → ℕ) (name : String) (bucket t : ℕ) (es : List Event)
    → IsOrdered t es
    → admitted limits name bucket es empty_store ≤ limits name
admitted-IsBounded limits name bucket t es w =
    let bound = counts-IsBounded limits name bucket t es empty_store w (omega arith) in omega arith
