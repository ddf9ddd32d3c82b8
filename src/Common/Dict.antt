-- ===== src/Common/Dict.antt =====
-- JavaScript's `Map` and plain objects with text keys, as association lists: a write keeps the
-- position of a key that is there and appends a new one.
use Prim.Native.String.{String}
use Prim.Native.Nat.{ℕ, ◌+◌}
use mathlib.Core.Path.{◌≡◌, refl}
use mathlib.Core.Option.{Option, none, some}
use mathlib.Core.List.{List, [], ◌∷◌}
use native.Mathlib.Omega.{arith}
use text.Mathlib.Text.{◌==◌}
use text.Mathlib.TextEquality.{eq_iff}
use text.Mathlib.TextPositions.{eq_refl}
use ai_model_arena.Common.Tests.{if◌then◌else◌}

abbrev pub Dict {ℓ} : Type ℓ → Type ℓ
Dict V = List (String × V)

module _ {ℓ} {V : Type ℓ} where
  unfoldable pub get : String → Dict V → Option V
  get k [] = none
  get k ((j, v) ∷ m) = if j == k then some v else get k m

  unfoldable pub put : String → V → Dict V → Dict V
  put k v [] = (k, v) ∷ []
  put k v ((j, w) ∷ m) = if j == k then (k, v) ∷ m else (j, w) ∷ put k v m

  unfoldable pub del : String → Dict V → Dict V
  del k [] = []
  del k ((j, w) ∷ m) = if j == k then del k m else (j, w) ∷ del k m

  abbrev pub or_default : Option V → V → V
  or_default none d = d
  or_default (some v) d = v

  abbrev pub get_or : String → Dict V → V → V
  get_or k m d = or_default (get k m) d

  pub get-put :
      (j k : String) (v : V) (m : Dict V) → get j (put k v m) ≡ (if k == j then some v else get j m)
  unfolding get put
  get-put j k v [] = refl
  get-put j k v ((i, w) ∷ m) = ground (arith, eq_iff k j, eq_iff i k, eq_iff i j, get-put j k v m)

  pub get-del : (j k : String) (m : Dict V) → get j (del k m) ≡ (if k == j then none else get j m)
  unfolding get del
  get-del j k [] = ground arith
  get-del j k ((i, w) ∷ m) = ground (arith, eq_iff k j, eq_iff i k, eq_iff i j, get-del j k m)

  pub get-put_self : (k : String) (v : V) (m : Dict V) → get k (put k v m) ≡ some v
  get-put_self k v m = simp (get-put, eq_refl)

  pub get-del_self : (k : String) (m : Dict V) → get k (del k m) ≡ none
  get-del_self k m = simp (get-del, eq_refl)

  -- The sum of `f` over the values.
  abbrev pub sum_over : (V → ℕ) → Dict V → ℕ
  sum_over f [] = 0
  sum_over f ((k, v) ∷ m) = f v + sum_over f m

  -- Writing a new value moves the sum by the difference, where a missing value counts nothing.
  pub sum_over-put :
      (f : V → ℕ) (d : V) (k : String) (v : V) (m : Dict V)
      → f d ≡ 0
      → sum_over f (put k v m) + f (get_or k m d) ≡ sum_over f m + f v
  unfolding put get
  sum_over-put f d k v [] h = omega arith
  sum_over-put f d k v ((j, w) ∷ m) h = ground (arith, sum_over-put f d k v m h)
