-- ===== src/Common/Powers.antt =====
-- Powers of two, for the retry delays.
use Prim.Native.Nat.{ℕ, suc, ◌-◌, ◌*◌, ◌^◌, ◌≤◌}
use mathlib.Core.Path.{◌≡◌}
use native.Mathlib.Omega.{arith}
use native.Mathlib.Nat.{one-le-pow, pow-succ'}

pub two_pow_pos : (n : ℕ) → 1 ≤ 2 ^ n
two_pow_pos n = one-le-pow n 2 (omega arith)

pub two_pow_suc : (n : ℕ) → 2 ^ suc n ≡ 2 * 2 ^ n
two_pow_suc n = pow-succ' 2 n

pub suc-sub-one : (n : ℕ) → suc n - 1 ≡ n
suc-sub-one n = omega arith
