-- ===== src/Base/BitArray.antt =====
-- A `uint8_t` array read and written bit by bit, the lowest bit of each byte first.
use Prim.Native.Nat.{ℕ, ◌/◌, ◌%◌, ◌<◌, bit_and}
use mathlib.Core.Path.{◌≡◌}
use mathlib.Core.Logic.{◌≢◌}
use mathlib.Core.Bool.{Bool, false, not, ◌&&◌, ◌||◌}
use mathlib.Core.List.{List}
use native.Mathlib.Omega.{arith}
use native.Mathlib.Decide.{ℕ_discrete}
use theft.Base.Tests.{◌==◌}
use theft.Base.Lists.{length, get_or, set, length-set, get_or-set_self, get_or-set_ne, replicate}
use theft.Base.Lists.{get_or-replicate}
use theft.Base.Bytes.{bit_set, or_bit, clear_bit, bit_set-or_bit, bit_set-clear_bit, or_bit-lt}
use theft.Base.Bytes.{clear_bit-lt, bit_set-zero}
use theft.Base.Words.{bit_and-low_mask}

-- `bits[v / 8] & (1 << (v & 0x07))`
abbrev pub test_bit : List ℕ → ℕ → Bool
test_bit bits v = bit_set (get_or bits (v / 8) 0) (bit_and v 7)

-- `bits[v / 8] |= 1 << (v & 0x07)`, and the same bit cleared.
unfoldable pub set_bit : List ℕ → ℕ → List ℕ
set_bit bits v = set bits (v / 8) (or_bit (get_or bits (v / 8) 0) (bit_and v 7))

unfoldable pub unset_bit : List ℕ → ℕ → List ℕ
unset_bit bits v = set bits (v / 8) (clear_bit (get_or bits (v / 8) 0) (bit_and v 7))

abbrev pub IsBytes : List ℕ → Type 0
IsBytes bits = (i : ℕ) → get_or bits i 0 < 256

pub low_three : (v : ℕ) → bit_and v 7 ≡ v % 8
low_three v = bit_and-low_mask 3 v

-- Two positions are one where byte and bit agree.
same_place : (v w : ℕ) → v / 8 ≡ w / 8 → (v % 8 == w % 8) ≡ (v == w)
same_place v w h = ground arith

other_place : (v w : ℕ) → v / 8 ≢ w / 8 → (v == w) ≡ false
other_place v w h = ground arith

module _ (bits : List ℕ) (bytes : IsBytes bits) (v : ℕ) (inside : v / 8 < length bits) where
  pub test_bit-set_bit : (w : ℕ) → test_bit (set_bit bits v) w ≡ (v == w || test_bit bits w)
  unfolding set_bit
  test_bit-set_bit w = elim (ℕ_discrete (v / 8) (w / 8)) [
    | yes e ↦
        rw
          (
            low_three v,
            low_three w,
            ← e,
            get_or-set_self bits (v / 8) (or_bit (get_or bits (v / 8) 0) (v % 8)) 0 inside,
            ← same_place v w e,
          )
          (bit_set-or_bit (get_or bits (v / 8) 0) (v % 8) (w % 8) (bytes (v / 8)) (omega arith)
            (omega arith))
    | no ne ↦ rw (
      other_place v w ne,
      get_or-set_ne bits (v / 8) (w / 8) (or_bit (get_or bits (v / 8) 0) (bit_and v 7)) 0 ne,
    )
  ]

  pub test_bit-unset_bit :
      (w : ℕ) → test_bit (unset_bit bits v) w ≡ (not (v == w) && test_bit bits w)
  unfolding unset_bit
  test_bit-unset_bit w = elim (ℕ_discrete (v / 8) (w / 8)) [
    | yes e ↦
        rw
          (
            low_three v,
            low_three w,
            ← e,
            get_or-set_self bits (v / 8) (clear_bit (get_or bits (v / 8) 0) (v % 8)) 0 inside,
            ← same_place v w e,
          )
          (bit_set-clear_bit (get_or bits (v / 8) 0) (v % 8) (w % 8) (bytes (v / 8)) (omega arith)
            (omega arith))
    | no ne ↦ rw (
      other_place v w ne,
      get_or-set_ne bits (v / 8) (w / 8) (clear_bit (get_or bits (v / 8) 0) (bit_and v 7)) 0 ne,
    )
  ]

  pub set_bit-IsBytes : IsBytes (set_bit bits v)
  unfolding set_bit
  set_bit-IsBytes i = ground (
    arith,
    low_three v,
    bytes i,
    bytes (v / 8),
    get_or-set_self bits (v / 8) (or_bit (get_or bits (v / 8) 0) (bit_and v 7)) 0,
    get_or-set_ne bits (v / 8) i (or_bit (get_or bits (v / 8) 0) (bit_and v 7)) 0,
    or_bit-lt (get_or bits (v / 8) 0) (v % 8),
  )

  pub unset_bit-IsBytes : IsBytes (unset_bit bits v)
  unfolding unset_bit
  unset_bit-IsBytes i = ground (
    arith,
    low_three v,
    bytes i,
    bytes (v / 8),
    get_or-set_self bits (v / 8) (clear_bit (get_or bits (v / 8) 0) (bit_and v 7)) 0,
    get_or-set_ne bits (v / 8) i (clear_bit (get_or bits (v / 8) 0) (bit_and v 7)) 0,
    clear_bit-lt (get_or bits (v / 8) 0) (v % 8),
  )

pub length-set_bit : (bits : List ℕ) (v : ℕ) → length (set_bit bits v) ≡ length bits
unfolding set_bit
length-set_bit bits v = length-set bits (v / 8) _

pub length-unset_bit : (bits : List ℕ) (v : ℕ) → length (unset_bit bits v) ≡ length bits
unfolding unset_bit
length-unset_bit bits v = length-set bits (v / 8) _

pub replicate-IsBytes : (n : ℕ) → IsBytes (replicate n 0)
replicate-IsBytes n i = rw (get_or-replicate {A = ℕ} n i 0) (omega arith)

pub test_bit-replicate : (n v : ℕ) → test_bit (replicate n 0) v ≡ false
test_bit-replicate n v = rw (get_or-replicate {A = ℕ} n (v / 8) 0) (bit_set-zero (bit_and v 7))
