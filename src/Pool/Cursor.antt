-- ===== src/Pool/Cursor.antt =====
-- The cursor of a byte offset and a bit mask walks the bits of a buffer one by one.
use theft.Base.{
  ℕ, zero, suc, ◌+◌, ◌*◌, ◌-◌, ◌/◌, ◌%◌, ◌^◌, ◌<◌, ◌≡◌, refl, arith, ◌==◌, bit_and, bit_or, get_or,
  set,
}
use theft.Base.{true, false, Bool, not, ◌∙◌, ℕ_discrete, List, if◌then◌else◌}
use theft.Base.Words.{u8, pow-pos}
use theft.Base.BitArray.{test_bit, set_bit, unset_bit, low_three}
use theft.Pool.{advance, cursor_at}

-- The next mask within a byte, and none after the last.
next_mask : (r : ℕ) → r < 8 → u8 (2 ^ r * 2) ≡ (if r == 7 then 0 else 2 ^ (r + 1))
next_mask zero h = refl
next_mask (suc zero) h = refl
next_mask (suc (suc zero)) h = refl
next_mask (suc (suc (suc zero))) h = refl
next_mask (suc (suc (suc (suc zero)))) h = refl
next_mask (suc (suc (suc (suc (suc zero))))) h = refl
next_mask (suc (suc (suc (suc (suc (suc zero)))))) h = refl
next_mask (suc (suc (suc (suc (suc (suc (suc zero))))))) h = refl
next_mask (suc (suc (suc (suc (suc (suc (suc (suc r)))))))) h = absurd (omega arith)

pub advance-cursor_at : (v : ℕ) → advance (cursor_at v) ≡ cursor_at (v + 1)
unfolding advance cursor_at
advance-cursor_at v = elim (ℕ_discrete (v % 8) 7) [
  | yes last ↦
      let byte : (v + 1) / 8 ≡ v / 8 + 1 = omega (arith, last) in
      let first : (v + 1) % 8 ≡ 0 = omega (arith, last) in rw (byte, first, last)
  | no more ↦
      let byte : (v + 1) / 8 ≡ v / 8 = omega (arith, more) in
      let next : (v + 1) % 8 ≡ v % 8 + 1 = omega (arith, more) in
      let mask : u8 (2 ^ (v % 8) * 2) ≡ 2 ^ (v % 8 + 1) =
        next_mask (v % 8) (omega arith) ∙ rw (ne_false (v % 8) 7 more) in
      rw (byte, next, mask, pow_ne (v % 8 + 1))
]
  where
    ne_false : (a b : ℕ) → ¬ (a ≡ b) → (a == b) ≡ false
    ne_false a b n = ground arith

    pow_ne : (k : ℕ) → (2 ^ k == 0) ≡ false
    pow_ne k = ground (arith, pow-pos k)

-- A test at the cursor of a position is the test of its bit; so for writing it.
pub test-cursor :
    (bits : List ℕ) (v : ℕ)
    → (bit_and (get_or bits (cursor_at v).0 0) (cursor_at v).1 == 0) ≡ not (test_bit bits v)
unfolding cursor_at
test-cursor bits v = rw (low_three v) (not-not _)
  where
    not-not : (b : Bool) → b ≡ not (not b)
    not-not true = refl
    not-not false = refl

pub set-cursor :
    (bits : List ℕ) (v : ℕ)
    → set bits (cursor_at v).0 (bit_or (get_or bits (cursor_at v).0 0) (cursor_at v).1)
      ≡ set_bit bits v
unfolding cursor_at set_bit
set-cursor bits v = rw (low_three v)

pub unset-cursor :
    (bits : List ℕ) (v : ℕ)
    → set bits (cursor_at v).0 (bit_and (get_or bits (cursor_at v).0 0) (255 - (cursor_at v).1))
      ≡ unset_bit bits v
unfolding cursor_at unset_bit
unset-cursor bits v = rw (low_three v)
