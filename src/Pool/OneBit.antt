-- ===== src/Pool/OneBit.antt =====
-- src/theft_autoshrink.c, `write_bits_at_offset`: one round of its loop.
use theft.Base.{ℕ, ◌-◌, ◌/◌, ◌%◌, ◌^◌, ◌<◌, ◌≡◌, refl, arith}
use theft.Base.{
  Bool, true, false, not, ◌&&◌, ◌||◌, List, length, get_or, ◌==◌, bit_and, bit_or, if◌then◌else◌,
}
use theft.Base.{Bool-cases, inl, inr, dec_lt, set}
use theft.Base.Words.{bit_and-pow, pow-pos}
use theft.Base.BitArray.{
  test_bit, set_bit, unset_bit, IsBytes, test_bit-set_bit, test_bit-unset_bit, set_bit-IsBytes,
  unset_bit-IsBytes, length-set_bit, length-unset_bit,
}
use theft.Pool.{cursor_at}
use theft.Pool.Cursor.{set-cursor, unset-cursor}

-- One bit of the buffer set to a given value.
unfoldable pub write_bit : List ℕ → ℕ → Bool → List ℕ
write_bit bits v true = set_bit bits v
write_bit bits v false = unset_bit bits v

-- The binary digit of `x` at `i`.
unfoldable pub bit_of : ℕ → ℕ → Bool
bit_of x i = x / 2 ^ i % 2 == 1

clear_iff : (i x : ℕ) → (bit_and x (2 ^ i) == 0) ≡ not (bit_of x i)
unfolding bit_of
clear_iff i x = rw (bit_and-pow i x) (elim (dec_lt (x / 2 ^ i % 2) 1) [
  | yes small ↦ let e : x / 2 ^ i % 2 ≡ 0 = omega arith in rw (e) (ground arith)
  | no big ↦ let e : x / 2 ^ i % 2 ≡ 1 = omega arith in rw (e) (ground (arith, pow-pos i))
])

pub written-step :
    (bits : List ℕ) (v i x : ℕ)
    → set bits (cursor_at v).0 (
        if bit_and x (2 ^ i) == 0
        then bit_and (get_or bits (cursor_at v).0 0) (255 - (cursor_at v).1)
        else bit_or (get_or bits (cursor_at v).0 0) (cursor_at v).1)
      ≡ write_bit bits v (bit_of x i)
unfolding write_bit
written-step bits v i x = rw (clear_iff i x) (elim (Bool-cases (bit_of x i)) [
  | inl one ↦ rw (one) (set-cursor bits v)
  | inr none' ↦ rw (none') (unset-cursor bits v)
])

or-if : (a b : Bool) → (a || b) ≡ (if a then true else b)
or-if true b = refl
or-if false b = refl

and-if : (a b : Bool) → (not a && b) ≡ (if a then false else b)
and-if true b = refl
and-if false b = refl

pub test_bit-write_bit :
    (bits : List ℕ) (v : ℕ) (b : Bool) (w : ℕ)
    → IsBytes bits
    → v / 8 < length bits
    → test_bit (write_bit bits v b) w ≡ (if v == w then b else test_bit bits w)
unfolding write_bit
test_bit-write_bit bits v true w bytes inside =
    rw (test_bit-set_bit bits bytes v inside w) (or-if (v == w) (test_bit bits w))
test_bit-write_bit bits v false w bytes inside =
    rw (test_bit-unset_bit bits bytes v inside w) (and-if (v == w) (test_bit bits w))

pub write_bit-IsBytes :
    (bits : List ℕ) (v : ℕ) (b : Bool)
    → IsBytes bits
    → v / 8 < length bits
    → IsBytes (write_bit bits v b)
unfolding write_bit
write_bit-IsBytes bits v true bytes inside = set_bit-IsBytes bits bytes v inside
write_bit-IsBytes bits v false bytes inside = unset_bit-IsBytes bits bytes v inside

pub length-write_bit :
    (bits : List ℕ) (v : ℕ) (b : Bool) → length (write_bit bits v b) ≡ length bits
unfolding write_bit
length-write_bit bits v true = length-set_bit bits v
length-write_bit bits v false = length-unset_bit bits v
