-- ===== src/RateLimit/Examples.antt =====
-- Tests of RateLimit, on a key with two requests a minute.
use ai_model_arena.Common.{ℕ, ◌≡◌, ◌≤◌, refl, arith, List, [], ◌∷◌, String}
use ai_model_arena.RateLimit.{Event, requests, prunes, step, check_rate_limit, prune, empty_store}
use ai_model_arena.RateLimit.Window.{admitted, admitted-IsBounded}

abbrev limits : String → ℕ
limits name = 2

-- Three requests at the end of a minute, a pruning, and two at the start of the next minute.
abbrev burst : List Event
burst =
    requests 59_000 "ci"
    ∷ requests 59_500 "ci"
    ∷ requests 59_900 "ci"
    ∷ prunes 59_950
    ∷ requests 60_100 "ci"
    ∷ requests 60_200 "ci"
    ∷ []

admitted-IsBounded_example : admitted limits "ci" 0 burst empty_store ≤ 2
admitted-IsBounded_example =
    admitted-IsBounded limits "ci" 0 0 burst
      (omega arith, (omega arith, (omega arith, (omega arith, (omega arith, (omega arith, tt))))))

-- Four of them pass within 1,200 ms.
burst_test :
    (admitted limits "ci" 0 burst empty_store ≡ 2) × (admitted limits "ci" 1 burst empty_store ≡ 2)
unfolding admitted step check_rate_limit prune
burst_test = (refl, refl)

-- The first request of a window is told that the counter is reset a minute after it, and the window
-- ends a second after it.
reset_in_test : (check_rate_limit "ci" 2 59_000 empty_store).1.reset_in ≡ 60_000
unfolding check_rate_limit
reset_in_test = refl
