-- ===== src/Pool/Value.antt =====
-- src/theft_autoshrink.c, `read_bits_at_offset`: the number that a run of bits spells.
use theft.Base.{ℕ, zero, suc, ◌+◌, ◌*◌, ◌^◌, ◌<◌, ◌≤◌, ◌≡◌, refl, arith, ap, ◌∙◌}
use theft.Base.{Bool, true, false, not, List, bit_or, if◌then◌else◌}
use native.Mathlib.Nat.{pow-suc}
use theft.Base.Words.{bit_or_disjoint, pow-add}
use theft.Base.BitArray.{test_bit}
use theft.Pool.{cursor_at, read_loop, read_bits_at_offset}
use theft.Pool.Cursor.{advance-cursor_at, test-cursor}

abbrev pub digit : Bool → ℕ
digit true = 1
digit false = 0

-- The number that `left` bits from `v` on spell, the lowest first.
abbrev pub value : List ℕ → ℕ → ℕ → ℕ
value bits zero v = 0
value bits (suc left) v = digit (test_bit bits v) + 2 * value bits left (v + 1)

pub value-lt : (bits : List ℕ) (n v : ℕ) → value bits n v < 2 ^ n
value-lt bits zero v = omega arith
value-lt bits (suc n) v = one (test_bit bits v) (value bits n (v + 1)) (value-lt bits n (v + 1))
  where
    one : (b : Bool) (r : ℕ) → r < 2 ^ n → digit b + 2 * r < 2 ^ suc n
    one true r h = omega (arith, pow-suc 2 n)
    one false r h = omega (arith, pow-suc 2 n)

or-digit :
    (i acc : ℕ) (b : Bool)
    → acc < 2 ^ i
    → (if not b then acc else bit_or acc (2 ^ i)) ≡ acc + 2 ^ i * digit b
or-digit i acc false h = omega arith
or-digit i acc true h = omega (
  arith,
  bit_or_disjoint i acc 1 h,
  ap (λ (t : ℕ). bit_or acc t) {x = 1 * 2 ^ i} {y = 2 ^ i} (omega arith),
)

digit-le : (b : Bool) → digit b ≤ 1
digit-le true = omega arith
digit-le false = omega arith

with-digit-lt : (i acc : ℕ) (b : Bool) → acc < 2 ^ i → acc + 2 ^ i * digit b < 2 ^ (i + 1)
with-digit-lt i acc true h = omega (arith, pow-add i 1)
with-digit-lt i acc false h = omega (arith, pow-add i 1)

spread : (p a d r : ℕ) → a + p * d + p * 2 * r ≡ a + p * (d + 2 * r)
spread p a d r = omega arith

pub read_loop-value :
    (left i v acc : ℕ) (bits : List ℕ)
    → acc < 2 ^ i
    → read_loop left i bits (cursor_at v) acc ≡ acc + 2 ^ i * value bits left v
unfolding read_loop
read_loop-value zero i v acc bits h = omega arith
read_loop-value (suc left) i v acc bits h =
    let d = digit (test_bit bits v) in
    let rest = value bits left (v + 1) in
    rw
      (
        test-cursor bits v,
        advance-cursor_at v,
        or-digit i acc (test_bit bits v) h,
        read_loop-value left (i + 1) (v + 1) (acc + 2 ^ i * d) bits
            (with-digit-lt i acc (test_bit bits v) h),
      )
      (rw (pow-add i 1) (spread (2 ^ i) acc d rest))

-- Runs with the same bits spell the same number.
pub same-value :
    (a b : List ℕ) (left v : ℕ)
    → ((w : ℕ) → v ≤ w → w < v + left → test_bit a w ≡ test_bit b w)
    → value a left v ≡ value b left v
same-value a b zero v h = refl
same-value a b (suc left) v h =
    rw
      (
        h v (omega arith) (omega arith),
        same-value a b left (v + 1) λ w low high. h w (omega arith) (omega arith),
      )
      refl

-- What is read is the number that the run spells.
pub read-value :
    (bits : List ℕ) (bit_offset size : ℕ)
    → read_bits_at_offset bits bit_offset size ≡ value bits size bit_offset
unfolding read_bits_at_offset
read-value bits bit_offset size =
    read_loop-value size 0 bit_offset 0 bits (omega arith) ∙ omega arith
