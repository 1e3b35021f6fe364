-- ===== src/Prelude/Words.antt =====
-- The arithmetic of `u64` that the policies use: saturating, checked and wrapping.
use Prim.Native.Nat.{ℕ, ◌+◌, ◌*◌, ◌%◌, ◌^◌, ◌≤◌, ◌<◌}
use mathlib.Core.Path.{◌≡◌}
use mathlib.Core.Option.{Option, none, some}
use native.Mathlib.Omega.{arith}
use agent_governance_policie.Prelude.Tests.{leb, if◌then◌else◌}

abbrev pub u64_max : ℕ
u64_max = 18446744073709551615

-- `a.saturating_add(b)`. `saturating_sub` is the subtraction of ℕ, which stops at 0.
unfoldable pub sat_add : ℕ → ℕ → ℕ
sat_add a b = if leb (a + b) u64_max then a + b else u64_max

-- `a.saturating_mul(b)`.
unfoldable pub sat_mul : ℕ → ℕ → ℕ
sat_mul a b = if leb (a * b) u64_max then a * b else u64_max

-- `a.checked_add(b)` and `a.checked_mul(b)`.
unfoldable pub checked_add : ℕ → ℕ → Option ℕ
checked_add a b = if leb (a + b) u64_max then some (a + b) else none

unfoldable pub checked_mul : ℕ → ℕ → Option ℕ
checked_mul a b = if leb (a * b) u64_max then some (a * b) else none

-- `a + b` in a release build, which wraps.
unfoldable pub wrap_add : ℕ → ℕ → ℕ
wrap_add a b = (a + b) % 2 ^ 64

pub sat_add-eq : (a b : ℕ) → a + b ≤ u64_max → sat_add a b ≡ a + b
unfolding sat_add
sat_add-eq a b h = ground arith

pub sat_add-le-max : (a b : ℕ) → sat_add a b ≤ u64_max
unfolding sat_add
sat_add-le-max a b = ground arith

pub sat_add-le : (a b : ℕ) → sat_add a b ≤ a + b
unfolding sat_add
sat_add-le a b = ground arith

-- Below the top a saturating sum is exact.
pub sat_add-lt : (a b : ℕ) → sat_add a b < u64_max → sat_add a b ≡ a + b
unfolding sat_add
sat_add-lt a b h = ground arith

pub le-sat_add : (a b : ℕ) → a ≤ u64_max → a ≤ sat_add a b
unfolding sat_add
le-sat_add a b h = ground arith

pub sat_mul-lt : (a b : ℕ) → sat_mul a b < u64_max → sat_mul a b ≡ a * b
unfolding sat_mul
sat_mul-lt a b h = ground arith

pub wrap_add-eq : (a b : ℕ) → a + b ≤ u64_max → wrap_add a b ≡ a + b
unfolding wrap_add
wrap_add-eq a b h = omega arith
