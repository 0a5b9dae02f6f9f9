-- ===== src/Base/Words.antt =====
-- Machine words: the wrap of `uint64_t` and `uint8_t`, shifts, low masks and `|` of disjoint
-- fields as arithmetic, at every width.
use Prim.Native.Nat.{
  ℕ, zero, suc, ◌+◌, ◌-◌, ◌*◌, ◌/◌, ◌%◌, ◌^◌, ◌≤◌, ◌<◌, min, max, bit_and, bit_or,
}
use Prim.Native.Nat.{digits, bit_and-bitwise, bit_or-bitwise}
use mathlib.Core.Path.{◌≡◌, refl, sym, ap, ◌∙◌}
use native.Mathlib.Nat.{pow-suc, one-le-pow, add-zero, mul_assoc, div-div-eq-div-mul}
use native.Mathlib.Omega.{arith}

abbrev pub u8 : ℕ → ℕ
u8 n = n % 2 ^ 8

abbrev pub u64 : ℕ → ℕ
u64 n = n % 2 ^ 64

-- `x >> k`, and `x << k` before its wrap.
infixl 75 ◌>>>◌ ◌<<<◌
abbrev pub ◌>>>◌ : ℕ → ℕ → ℕ
x >>> k = x / 2 ^ k

abbrev pub ◌<<<◌ : ℕ → ℕ → ℕ
x <<< k = x * 2 ^ k

-- `(1LLU << k) - 1`
abbrev pub low_mask : ℕ → ℕ
low_mask k = 2 ^ k - 1

module _ (last : ℕ → ℕ) (join : ℕ → ℕ → ℕ) where
  -- Fuel that covers the first number is fuel enough.
  digits_enough :
      (x y fuel more : ℕ)
      → x ≤ fuel
      → x ≤ more
      → digits last join fuel x y ≡ digits last join more x y
  digits_enough zero y zero zero h k = refl
  digits_enough zero y (suc fuel) zero h k = refl
  digits_enough zero y zero (suc more) h k = refl
  digits_enough zero y (suc fuel) (suc more) h k = refl
  digits_enough (suc x) y (suc fuel) zero h k = absurd (omega arith)
  digits_enough (suc x) y zero more h k = absurd (omega arith)
  digits_enough (suc x) y (suc fuel) (suc more) h k =
      rw (digits_enough (suc x / 2) (y / 2) fuel more (omega arith) (omega arith))

  -- So the digits of a number at fuel of its own size end in those of its half.
  digits_half :
      (x y : ℕ)
      → digits last join x (suc x / 2) (y / 2) ≡ digits last join (suc x / 2) (suc x / 2) (y / 2)
  digits_half x y = digits_enough (suc x / 2) (y / 2) x (suc x / 2) (omega arith) (omega arith)

-- The lowest digit of `&` and of `|`.
pub bit_and_low : (x y : ℕ) → bit_and x y ≡ bit_and (x / 2) (y / 2) * 2 + min (x % 2) (y % 2)
bit_and_low zero y = omega (arith, bit_and-bitwise 0 (y / 2), bit_and-bitwise 0 y)
bit_and_low (suc x) y = omega (
  arith,
  digits_half (λ _. zero) min x y,
  bit_and-bitwise (suc x / 2) (y / 2),
  bit_and-bitwise (suc x) y,
)

pub bit_or_low : (x y : ℕ) → bit_or x y ≡ bit_or (x / 2) (y / 2) * 2 + max (x % 2) (y % 2)
bit_or_low zero y = omega (arith, bit_or-bitwise 0 (y / 2), bit_or-bitwise 0 y)
bit_or_low (suc x) y = omega (
  arith,
  digits_half (λ y. y) max x y,
  bit_or-bitwise (suc x / 2) (y / 2),
  bit_or-bitwise (suc x) y,
)

bit_and-zero_below : (bound x : ℕ) → x ≤ bound → bit_and x 0 ≡ 0
bit_and-zero_below bound zero h = bit_and-bitwise 0 0
bit_and-zero_below zero (suc x) h = absurd (omega arith)
bit_and-zero_below (suc bound) (suc x) h =
    let half = bit_and-zero_below bound (suc x / 2) (omega arith) in
    omega (arith, bit_and_low (suc x) 0, half)

pub two-mul-pow : (q k : ℕ) → q * 2 ^ suc k ≡ 2 * (q * 2 ^ k)
two-mul-pow q k = omega (arith, ap (λ (t : ℕ). q * t) (pow-suc 2 k))

pub pow-pos : (k : ℕ) → 1 ≤ 2 ^ k
pow-pos k = one-le-pow k 2 (omega arith)

pub pow-add : (a b : ℕ) → 2 ^ (a + b) ≡ 2 ^ a * 2 ^ b
pow-add a zero = rw add-zero (omega arith)
pow-add a (suc b) =
    ap (λ (t : ℕ). 2 ^ t) {x = a + suc b} {y = suc (a + b)} (omega arith)
    ∙ pow-suc 2 (a + b)
    ∙ ap (λ (t : ℕ). t * 2) (pow-add a b)
    ∙ mul_assoc (2 ^ a) (2 ^ b) 2
    ∙ ap (λ (t : ℕ). 2 ^ a * t) (sym (pow-suc 2 b))

bit_and_split : (k q r : ℕ) → r < 2 ^ k → bit_and (q * 2 ^ k + r) (low_mask k) ≡ r
bit_and_split zero q r h =
    omega (arith, bit_and-zero_below (q * 2 ^ 0 + r) (q * 2 ^ 0 + r) (omega arith))
bit_and_split (suc k) q r h = ground (
  arith,
  bit_and_low (q * 2 ^ suc k + r) (low_mask (suc k)),
  two-mul-pow q k,
  pow-suc 2 k,
  bit_and_split k q (r / 2) (omega (arith, pow-suc 2 k)),
)

-- A mask of the `k` low bits is the remainder by `2 ^ k`.
pub bit_and-low_mask : (k a : ℕ) → bit_and a (low_mask k) ≡ a % 2 ^ k
bit_and-low_mask k a = ground (arith, pow-pos k, bit_and_split k (a / 2 ^ k) (a % 2 ^ k))

bit_or-zero : (a : ℕ) → bit_or 0 a ≡ a
bit_or-zero a = bit_or-bitwise 0 a

-- `lo | (hi << k)` is a sum where `lo` fits in `k` bits.
pub bit_or_disjoint : (k lo hi : ℕ) → lo < 2 ^ k → bit_or lo (hi <<< k) ≡ lo + hi * 2 ^ k
bit_or_disjoint zero lo hi h = ground (arith, bit_or-zero (hi * 2 ^ 0))
bit_or_disjoint (suc k) lo hi h = ground (
  arith,
  bit_or_low lo (hi * 2 ^ suc k),
  two-mul-pow hi k,
  pow-suc 2 k,
  bit_or_disjoint k (lo / 2) hi (omega (arith, pow-suc 2 k)),
)

-- `x & (1 << i)` is the binary digit of `x` at `i`, in its place.
pub bit_and-pow : (i x : ℕ) → bit_and x (2 ^ i) ≡ x / 2 ^ i % 2 * 2 ^ i
bit_and-pow zero x =
    omega (arith, bit_and_low x 1, bit_and-zero_below (x / 2) (x / 2) (omega arith))
bit_and-pow (suc i) x = ground (
  arith,
  bit_and_low x (2 ^ suc i),
  pow-suc 2 i,
  two-mul-pow (x / 2 ^ suc i % 2) i,
  bit_and-pow i (x / 2),
  div-div-eq-div-mul x 2 (2 ^ i),
)
