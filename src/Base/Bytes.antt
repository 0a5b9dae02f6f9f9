-- ===== src/Base/Bytes.antt =====
-- Single bits of a byte: `x & (1 << k)`, `x |= 1 << k` and `x &= ~(1 << k)`.
use Prim.Native.Nat.{ℕ, zero, suc, ◌-◌, ◌^◌, ◌<◌, bit_and, bit_or, bit_and-bitwise}
use mathlib.Core.Path.{◌≡◌, refl, ap}
use mathlib.Core.Bool.{Bool, true, false, not, ◌&&◌, ◌||◌}
use native.Mathlib.Omega.{arith}
use theft.Base.Tests.{◌==◌, ltb}

-- `x & (1 << k)` as a truth value.
abbrev pub bit_set : ℕ → ℕ → Bool
bit_set x k = not (bit_and x (2 ^ k) == 0)

-- `x | (1 << k)`, and `x & ~(1 << k)` on a byte.
abbrev pub or_bit : ℕ → ℕ → ℕ
or_bit x k = bit_or x (2 ^ k)

abbrev pub clear_bit : ℕ → ℕ → ℕ
clear_bit x k = bit_and x (255 - 2 ^ k)

-- A test at every number below a bound, by evaluation: `every test bound`.
every : (ℕ → Bool) → ℕ → Bool
every test zero = true
every test (suc bound) = every test bound && test bound

every_lem : (test : ℕ → Bool) (bound i : ℕ) → i < bound → every test bound ≡ true → test i ≡ true
unfolding every
every_lem test (suc bound) i below passed =
    ground (arith, every_lem test bound i, ap test {x = i} {y = bound})
every_lem test zero i below passed = absurd (omega arith)

same_bool : Bool → Bool → Bool
same_bool true b = b
same_bool false b = not b

same_bool_lem : (a b : Bool) → same_bool a b ≡ true → a ≡ b
unfolding same_bool
same_bool_lem a b h = ground arith

abbrev or_row : ℕ → ℕ → ℕ → Bool
or_row x k j = same_bool (bit_set (or_bit x k) j) (k == j || bit_set x j)

or_table : every (λ x. every (λ k. every (or_row x k) 8) 8) 256 ≡ true
unfolding every same_bool
or_table = refl

-- Setting one bit of a byte changes no other.
pub bit_set-or_bit :
    (x k j : ℕ) → x < 256 → k < 8 → j < 8 → bit_set (or_bit x k) j ≡ (k == j || bit_set x j)
bit_set-or_bit x k j hx hk hj =
    same_bool_lem _ _ (every_lem _ 8 j hj (every_lem _ 8 k hk (every_lem _ 256 x hx or_table)))

abbrev clear_row : ℕ → ℕ → ℕ → Bool
clear_row x k j = same_bool (bit_set (clear_bit x k) j) (not (k == j) && bit_set x j)

clear_table : every (λ x. every (λ k. every (clear_row x k) 8) 8) 256 ≡ true
unfolding every same_bool
clear_table = refl

pub bit_set-clear_bit :
    (x k j : ℕ)
    → x < 256
    → k < 8
    → j < 8
    → bit_set (clear_bit x k) j ≡ (not (k == j) && bit_set x j)
bit_set-clear_bit x k j hx hk hj =
    same_bool_lem _ _ (every_lem _ 8 j hj (every_lem _ 8 k hk (every_lem _ 256 x hx clear_table)))

range_table : every (λ x. every (λ k. ltb (or_bit x k) 256 && ltb (clear_bit x k) 256) 8) 256 ≡ true
unfolding every
range_table = refl

range_row : (x k : ℕ) → x < 256 → k < 8 → (ltb (or_bit x k) 256 && ltb (clear_bit x k) 256) ≡ true
range_row x k hx hk = every_lem _ 8 k hk (every_lem _ 256 x hx range_table)

-- Both keep a byte a byte.
pub or_bit-lt : (x k : ℕ) → x < 256 → k < 8 → or_bit x k < 256
or_bit-lt x k hx hk = ground (arith, range_row x k hx hk)

pub clear_bit-lt : (x k : ℕ) → x < 256 → k < 8 → clear_bit x k < 256
clear_bit-lt x k hx hk = ground (arith, range_row x k hx hk)

pub bit_set-zero : (j : ℕ) → bit_set 0 j ≡ false
bit_set-zero j = rw (bit_and-bitwise 0 (2 ^ j))
