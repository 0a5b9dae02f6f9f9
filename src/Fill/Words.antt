-- ===== src/Fill/Words.antt =====
-- src/theft_autoshrink.c, `fill_buf`: the bits of a pool, read a word at a time.
use theft.Base.{
  ℕ, zero, suc, ◌+◌, ◌-◌, ◌*◌, ◌/◌, ◌%◌, ◌^◌, ◌<◌, ◌≤◌, ◌≡◌, refl, arith, ap, ◌∙◌, sym,
}
use theft.Base.{not, ◌==◌, List, get_or}
use native.Mathlib.Nat.{add-mul-div_left, add-mul-mod_self_left, div-eq_of_lt, mod-eq_of_lt}
use theft.Base.Words.{pow-pos, bit_and-pow}
use theft.Base.Bytes.{bit_set}
use theft.Base.BitArray.{test_bit, IsBytes, low_three}
use theft.Pool.Value.{digit, value, value-lt}
use theft.Pool.Number.{value-split}
use theft.Fill.{word_from, word_at}

-- The digit of a byte at a place.
digit-bit_set : (x k : ℕ) → digit (bit_set x k) ≡ x / 2 ^ k % 2
digit-bit_set x k =
    rw (bit_and-pow k x) (digit-ne_zero (x / 2 ^ k % 2) (2 ^ k) (omega arith) (pow-pos k))
  where
    digit-ne_zero : (d p : ℕ) → d < 2 → 1 ≤ p → digit (not (d * p == 0)) ≡ d
    digit-ne_zero zero p h k = ground arith
    digit-ne_zero (suc zero) p h k = ground arith
    digit-ne_zero (suc (suc d)) p h k = absurd (omega arith)

digit-at :
    (bits : List ℕ) (i j v : ℕ)
    → v ≡ 8 * i + j
    → j < 8
    → digit (test_bit bits v) ≡ get_or bits i 0 / 2 ^ j % 2
digit-at bits i j v e h =
    let byte : v / 8 ≡ i = omega arith in
    let place : v % 8 ≡ j = omega arith in
    rw (low_three v, byte, place) (digit-bit_set (get_or bits i 0) j)

-- A byte is the number of its eight bits.
byte-value : (bits : List ℕ) (i : ℕ) → IsBytes bits → get_or bits i 0 ≡ value bits 8 (8 * i)
byte-value bits i bytes = omega (
  arith,
  bytes i,
  digit-at bits i 0 (8 * i) (omega arith) (omega arith),
  digit-at bits i 1 (8 * i + 1) (omega arith) (omega arith),
  digit-at bits i 2 (8 * i + 1 + 1) (omega arith) (omega arith),
  digit-at bits i 3 (8 * i + 1 + 1 + 1) (omega arith) (omega arith),
  digit-at bits i 4 (8 * i + 1 + 1 + 1 + 1) (omega arith) (omega arith),
  digit-at bits i 5 (8 * i + 1 + 1 + 1 + 1 + 1) (omega arith) (omega arith),
  digit-at bits i 6 (8 * i + 1 + 1 + 1 + 1 + 1 + 1) (omega arith) (omega arith),
  digit-at bits i 7 (8 * i + 1 + 1 + 1 + 1 + 1 + 1 + 1) (omega arith) (omega arith),
)

word_from-value :
    (left i : ℕ) (bits : List ℕ)
    → IsBytes bits
    → word_from left i bits ≡ value bits (8 * left) (8 * i)
unfolding word_from
word_from-value zero i bits bytes = refl
word_from-value (suc left) i bits bytes =
    rw
      (
        byte-value bits i bytes,
        word_from-value left (i + 1) bits bytes,
        ap (λ (t : ℕ). value bits (8 * left) t) {x = 8 * (i + 1)} {y = 8 * i + 8} (omega arith),
      )
      (sym (
        ap (λ (t : ℕ). value bits t (8 * i)) {x = 8 * suc left} {y = 8 + 8 * left} (omega arith)
        ∙ value-split bits 8 (8 * left) (8 * i)))

-- The middle digits of a number in three parts.
middle : (p q a b c : ℕ) → a < p → b < q → (a + p * (b + q * c)) / p % q ≡ b
middle p q a b c small fits =
    let above = b + q * c in
    let high : (a + p * above) / p ≡ above =
      add-mul-div_left a above {y = p} (omega arith) ∙ rw (div-eq_of_lt small) (omega arith) in
    rw high (add-mul-mod_self_left b q c ∙ mod-eq_of_lt fits)

-- `(src[src_offset] >> src_bit) & mask` is the number of the bits from there on.
pub word_at-value :
    (bits : List ℕ) (offset bit_i n : ℕ)
    → IsBytes bits
    → bit_i + n ≤ 64
    → word_at bits offset / 2 ^ bit_i % 2 ^ n ≡ value bits n (64 * offset + bit_i)
word_at-value bits offset bit_i n bytes room =
    let rest = 64 - bit_i - n in
    rw
      (
        word_from-value 8 (8 * offset) bits bytes
            ∙ ap (λ (t : ℕ). value bits t (8 * (8 * offset))) {x = 64} {y = bit_i + (n + rest)}
                (omega arith)
            ∙ ap (λ (t : ℕ). value bits (bit_i + (n + rest)) t) {x = 8 * (8 * offset)}
                {y = 64 * offset} (omega arith)
            ∙ value-split bits bit_i (n + rest) (64 * offset),
        value-split bits n rest (64 * offset + bit_i),
      )
      (middle (2 ^ bit_i) (2 ^ n) (value bits bit_i (64 * offset))
        (value bits n (64 * offset + bit_i)) _ (value-lt bits bit_i (64 * offset))
        (value-lt bits n (64 * offset + bit_i)))
