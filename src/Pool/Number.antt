-- ===== src/Pool/Number.antt =====
-- src/theft_autoshrink.c: the buffer of a bit pool as one number, its first bit the lowest.
use theft.Base.{
  ℕ, zero, suc, ◌+◌, ◌*◌, ◌%◌, ◌^◌, ◌≤◌, ◌-◌, ◌≡◌, refl, sym, arith, ap, ◌∙◌, inl, inr,
}
use theft.Base.{List, length}
use theft.Base.BitArray.{test_bit, IsBytes}
use native.Mathlib.Nat.{pow-suc}
use theft.Pool.{read_bits_at_offset, write_bits_at_offset}
use theft.Pool.Value.{digit, value, same-value, read-value}
use theft.Pool.Bits.{read-write, write_bits-keeps, length-write_bits}

-- A run of bits in two parts.
pub value-split :
    (bits : List ℕ) (n m v : ℕ)
    → value bits (n + m) v ≡ value bits n v + 2 ^ n * value bits m (v + n)
value-split bits zero m v =
    ap (λ (t : ℕ). value bits t v) {x = 0 + m} {y = m} (omega arith)
    ∙ rw (ap (λ (t : ℕ). value bits m t) {x = v + 0} {y = v} (omega arith)) (omega arith)
value-split bits (suc n) m v =
    ap (λ (t : ℕ). value bits t v) {x = suc n + m} {y = suc (n + m)} (omega arith)
    ∙ ap (λ (t : ℕ). digit (test_bit bits v) + 2 * t) (value-split bits n m (v + 1))
    ∙ rw (ap (λ (t : ℕ). value bits m t) {x = v + 1 + n} {y = v + suc n} (omega arith), pow-suc 2 n)
        (regroup (digit (test_bit bits v)) (value bits n (v + 1)) (2 ^ n)
          (value bits m (v + suc n)))
  where
    regroup : (d a p b : ℕ) → d + 2 * (a + p * b) ≡ d + 2 * a + p * 2 * b
    regroup d a p b = omega arith

-- The number of all bits of a buffer.
abbrev pub number : List ℕ → ℕ
number bits = value bits (8 * length bits) 0

-- A buffer's number, with a run of its bits set apart.
number-around :
    (bits : List ℕ) (total bit_offset size : ℕ)
    → bit_offset + size ≤ total
    → value bits total 0
      ≡ value bits bit_offset 0
        + 2 ^ bit_offset
          * (value bits size bit_offset
              + 2 ^ size * value bits (total - bit_offset - size) (bit_offset + size))
number-around bits total bit_offset size inside =
    let rest = total - bit_offset - size in
    ap (λ (t : ℕ). value bits t 0) {x = total} {y = bit_offset + (size + rest)} (omega arith)
    ∙ value-split bits bit_offset (size + rest) 0
    ∙ rw
        (
          ap (λ (t : ℕ). value bits (size + rest) t) {x = 0 + bit_offset} {y = bit_offset}
              (omega arith),
          value-split bits size rest bit_offset,
        )
        refl

-- Writing a run of bits that lies in the buffer adds the new number of the run to the number of
-- the buffer, at the place of the run, and takes away the old one.
pub number-write :
    (bits : List ℕ) (bit_offset size x : ℕ)
    → IsBytes bits
    → bit_offset + size ≤ 8 * length bits
    → number (write_bits_at_offset bits bit_offset size x)
        + 2 ^ bit_offset * read_bits_at_offset bits bit_offset size
      ≡ number bits + 2 ^ bit_offset * (x % 2 ^ size)
number-write bits bit_offset size x bytes inside =
    let written = write_bits_at_offset bits bit_offset size x in
    let total = 8 * length bits in
    let rest = total - bit_offset - size in
    rw
      (
        length-write_bits bits bit_offset size x,
        number-around written total bit_offset size inside,
        number-around bits total bit_offset size inside,
        read-value bits bit_offset size,
        sym (read-value written bit_offset size) ∙ read-write bits bit_offset size x bytes inside,
        same-value written bits bit_offset 0 (λ w low high.
            write_bits-keeps bits bit_offset size x w bytes inside (inl (omega arith))),
        same-value written bits rest (bit_offset + size)
            (λ w low high. write_bits-keeps bits bit_offset size x w bytes inside (inr low)),
      )
      (exchange (value bits bit_offset 0) (2 ^ bit_offset) (value bits size bit_offset)
        (x % 2 ^ size) (2 ^ size * value bits rest (bit_offset + size)))
  where
    exchange : (a p y x c : ℕ) → a + p * (x + c) + p * y ≡ a + p * (y + c) + p * x
    exchange a p y x c = omega arith
