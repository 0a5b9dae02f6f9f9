-- ===== src/Pool/Bits.antt =====
-- src/theft_autoshrink.c, `write_bits_at_offset`: runs of bits before and after a write.
use theft.Base.{ℕ, zero, suc, ◌+◌, ◌*◌, ◌/◌, ◌%◌, ◌^◌, ◌<◌, ◌≤◌, ◌≡◌, refl, sym, arith, ap, ◌∙◌}
use theft.Base.{true, List, length, ◌==◌}
use theft.Base.{inl, inr, ◌⊎◌}
use theft.Base.Words.{pow-pos, pow-add}
use theft.Base.BitArray.{test_bit, IsBytes}
use native.Mathlib.Nat.{
  pow-suc, div-div-eq-div-mul, add-mul-mod_self_left, mod-eq_of_lt, mod-add-div, mod-lt,
}
use theft.Pool.{cursor_at, read_bits_at_offset, write_loop, write_bits_at_offset}
use theft.Pool.Cursor.{advance-cursor_at}
use theft.Pool.Value.{digit, value, same-value, read-value}
use theft.Pool.OneBit.{
  write_bit, bit_of, written-step, test_bit-write_bit, write_bit-IsBytes, length-write_bit,
}

write_loop-suc :
    (left i v x : ℕ) (bits : List ℕ)
    → write_loop (suc left) i (cursor_at v) x bits
      ≡ write_loop left (i + 1) (cursor_at (v + 1)) x (write_bit bits v (bit_of x i))
unfolding write_loop
write_loop-suc left i v x bits = rw (written-step bits v i x, advance-cursor_at v)

inside_byte : (left v n : ℕ) → v + suc left ≤ 8 * n → v / 8 < n
inside_byte left v n h = omega arith

-- Outside of the run the bits are what they were.
pub write_loop-keeps :
    (left i v x w : ℕ) (bits : List ℕ)
    → IsBytes bits
    → v + left ≤ 8 * length bits
    → w < v ⊎ v + left ≤ w
    → test_bit (write_loop left i (cursor_at v) x bits) w ≡ test_bit bits w
unfolding write_loop
write_loop-keeps zero i v x w bits bytes inside out = refl
write_loop-keeps (suc left) i v x w bits bytes inside out =
    let byte = inside_byte left v (length bits) inside in
    rw
      (
        write_loop-suc left i v x bits,
        write_loop-keeps left (i + 1) (v + 1) x w (write_bit bits v (bit_of x i))
            (write_bit-IsBytes bits v (bit_of x i) bytes byte)
            (omega (arith, length-write_bit bits v (bit_of x i)))
            (elim out [ inl before ↦ inl (omega arith) | inr after ↦ inr (omega arith) ]),
        test_bit-write_bit bits v (bit_of x i) w bytes byte,
      )
      (ground arith)

double-mod : (y p : ℕ) → 1 ≤ p → y % 2 + 2 * (y / 2 % p) ≡ y % (p * 2)
double-mod y p h =
    let low = y % 2 + 2 * (y / 2 % p) in
    let whole : low + p * 2 * (y / 2 / p) ≡ y = omega (arith, mod-add-div (y / 2) p) in
    let small : low < p * 2 = omega (arith, mod-lt (y / 2) {m = p} (omega arith)) in
    sym (
      ap (λ (t : ℕ). t % (p * 2)) (sym whole)
      ∙ add-mul-mod_self_left low (p * 2) (y / 2 / p)
      ∙ mod-eq_of_lt small)

digit-bit_of : (x i : ℕ) → digit (bit_of x i) ≡ x / 2 ^ i % 2
unfolding bit_of
digit-bit_of x i = ground arith

next-digit : (x i : ℕ) → x / 2 ^ (i + 1) ≡ x / 2 ^ i / 2
next-digit x i = rw (pow-add i 1, div-div-eq-div-mul x (2 ^ i) 2) refl

pub write_loop-value :
    (left i v x : ℕ) (bits : List ℕ)
    → IsBytes bits
    → v + left ≤ 8 * length bits
    → value (write_loop left i (cursor_at v) x bits) left v ≡ x / 2 ^ i % 2 ^ left
write_loop-value zero i v x bits bytes inside = omega arith
write_loop-value (suc left) i v x bits bytes inside =
    let byte = inside_byte left v (length bits) inside in
    let next = write_bit bits v (bit_of x i) in
    let next_bytes = write_bit-IsBytes bits v (bit_of x i) bytes byte in
    let next_inside : v + 1 + left ≤ 8 * length next =
      omega (arith, length-write_bit bits v (bit_of x i)) in
    ap (λ (b : List ℕ). value b (suc left) v) (write_loop-suc left i v x bits)
    ∙ rw
        (
          write_loop-keeps left (i + 1) (v + 1) x v next next_bytes next_inside (inl (omega arith)),
          test_bit-write_bit bits v (bit_of x i) v bytes byte,
          write_loop-value left (i + 1) (v + 1) x next next_bytes next_inside,
          next-digit x i,
          eq_self v,
          digit-bit_of x i,
          double-mod (x / 2 ^ i) (2 ^ left) (pow-pos left),
          pow-suc 2 left,
        )
        refl
  where
    eq_self : (n : ℕ) → (n == n) ≡ true
    eq_self n = ground arith

-- What write_bits_at_offset writes in a run of bits that lies in the buffer, read_bits_at_offset
-- reads back, cut to the width of the run.
pub read-write :
    (bits : List ℕ) (bit_offset size x : ℕ)
    → IsBytes bits
    → bit_offset + size ≤ 8 * length bits
    → read_bits_at_offset (write_bits_at_offset bits bit_offset size x) bit_offset size
      ≡ x % 2 ^ size
unfolding write_bits_at_offset
read-write bits bit_offset size x bytes inside =
    read-value (write_loop size 0 (cursor_at bit_offset) x bits) bit_offset size
    ∙ write_loop-value size 0 bit_offset x bits bytes inside
    ∙ rw (div_one x) refl
  where
    div_one : (n : ℕ) → n / 2 ^ 0 ≡ n
    div_one n = omega arith

-- A run of bits that lies apart from a written one reads as it did before the write.
pub read-write_apart :
    (bits : List ℕ) (bit_offset size x from count : ℕ)
    → IsBytes bits
    → bit_offset + size ≤ 8 * length bits
    → from + count ≤ bit_offset ⊎ bit_offset + size ≤ from
    → read_bits_at_offset (write_bits_at_offset bits bit_offset size x) from count
      ≡ read_bits_at_offset bits from count
unfolding write_bits_at_offset
read-write_apart bits bit_offset size x from count bytes inside apart =
    let written = write_loop size 0 (cursor_at bit_offset) x bits in
    read-value written from count
    ∙ same-value written bits count from (λ w low high.
      write_loop-keeps size 0 bit_offset x w bits bytes inside
        (elim apart [ inl before ↦ inl (omega arith) | inr after ↦ inr (omega arith) ]))
    ∙ sym (read-value bits from count)

-- The bits outside of a written run, and the length and the bytes of the buffer.
pub write_bits-keeps :
    (bits : List ℕ) (bit_offset size x w : ℕ)
    → IsBytes bits
    → bit_offset + size ≤ 8 * length bits
    → w < bit_offset ⊎ bit_offset + size ≤ w
    → test_bit (write_bits_at_offset bits bit_offset size x) w ≡ test_bit bits w
unfolding write_bits_at_offset
write_bits-keeps bits bit_offset size x w bytes inside out =
    write_loop-keeps size 0 bit_offset x w bits bytes inside out

length-write_loop :
    (left i v x : ℕ) (bits : List ℕ) → length (write_loop left i (cursor_at v) x bits) ≡ length bits
unfolding write_loop
length-write_loop zero i v x bits = refl
length-write_loop (suc left) i v x bits =
    ap (λ (b : List ℕ). length b) (write_loop-suc left i v x bits)
    ∙ length-write_loop left (i + 1) (v + 1) x (write_bit bits v (bit_of x i))
    ∙ length-write_bit bits v (bit_of x i)

pub length-write_bits :
    (bits : List ℕ) (bit_offset size x : ℕ)
    → length (write_bits_at_offset bits bit_offset size x) ≡ length bits
unfolding write_bits_at_offset
length-write_bits bits bit_offset size x = length-write_loop size 0 bit_offset x bits

write_loop-IsBytes :
    (left i v x : ℕ) (bits : List ℕ)
    → IsBytes bits
    → v + left ≤ 8 * length bits
    → IsBytes (write_loop left i (cursor_at v) x bits)
unfolding write_loop
write_loop-IsBytes zero i v x bits bytes inside = bytes
write_loop-IsBytes (suc left) i v x bits bytes inside =
    let byte = inside_byte left v (length bits) inside in
    rw (write_loop-suc left i v x bits) (
      write_loop-IsBytes left (i + 1) (v + 1) x (write_bit bits v (bit_of x i))
        (write_bit-IsBytes bits v (bit_of x i) bytes byte)
        (omega (arith, length-write_bit bits v (bit_of x i))))

pub write_bits-IsBytes :
    (bits : List ℕ) (bit_offset size x : ℕ)
    → IsBytes bits
    → bit_offset + size ≤ 8 * length bits
    → IsBytes (write_bits_at_offset bits bit_offset size x)
unfolding write_bits_at_offset
write_bits-IsBytes bits bit_offset size x bytes inside =
    write_loop-IsBytes size 0 bit_offset x bits bytes inside
