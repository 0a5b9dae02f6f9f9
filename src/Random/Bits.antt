-- ===== src/Random/Bits.antt =====
-- src/theft_random.c, `theft_random_bits`: where the bits of its result come from.
use theft.Base.{ℕ, zero, suc, ◌+◌, ◌-◌, ◌*◌, ◌/◌, ◌%◌, ◌^◌, ◌<◌, ◌≤◌, ◌≡◌, refl, arith, ap}
use theft.Base.{[], ◌∷◌, ltb, ◌==◌, false, ℕ_discrete}
use theft.Base.Words.{◌>>>◌, low_mask, bit_and-low_mask, bit_or_disjoint, pow-pos, pow-add}
use native.Mathlib.Nat.{mod-eq_of_lt, mod-lt, mul-lt-mul_of_pos_right, pow-le-pow_right}
use theft.Types.{done}
use theft.Random.{Prng, get_mask, taken, put, refill, bits_loop, random_bits_bulk, random_bits}

pub get_mask_lem : (k : ℕ) → get_mask k ≡ low_mask k
unfolding get_mask
get_mask_lem k = elim (ℕ_discrete k 64) [ yes e ↦ rw e refl | no ne ↦ ground arith ]

-- What a round puts in its word, as arithmetic.
pub put_lem :
    (word buf take shift : ℕ)
    → word < 2 ^ shift
    → shift + take ≤ 64
    → put word buf take shift ≡ word + buf % 2 ^ take * 2 ^ shift
unfolding put
put_lem word buf take shift small room =
    rw (get_mask_lem take, bit_and-low_mask take buf)
      (rw (mod-eq_of_lt fits) (bit_or_disjoint shift word (buf % 2 ^ take) small))
  where
    fits : buf % 2 ^ take * 2 ^ shift < 2 ^ 64
    fits = omega (
      arith,
      mul-lt-mul_of_pos_right {k = 2 ^ shift} (mod-lt buf {m = 2 ^ take} (pow-pos take))
          (pow-pos shift),
      pow-add take shift,
      pow-le-pow_right {n = 2} (omega arith) {i = take + shift} {j = 64} (omega arith),
    )

taken-rem : (room rem available : ℕ) → rem ≤ room → rem ≤ available → taken room rem available ≡ rem
unfolding taken
taken-rem room rem available h k = ground arith

taken-available :
    (room rem available : ℕ)
    → available ≤ room
    → available < rem
    → taken room rem available ≡ available
unfolding taken
taken-available room rem available h k = ground arith

module _ {R : Type 0} (next : R → ℕ × R) where
  -- The last round, where the buffer holds all bits that are left to get.
  last_round :
      (fuel rem shift word : ℕ) (p : Prng R)
      → suc rem ≤ (refill next p).bits_available
      → shift + suc rem ≤ 64
      → word < 2 ^ shift
      → bits_loop next (suc fuel) (suc rem) shift 0 (word ∷ []) p
        ≡ done (
          (word + (refill next p).buf % 2 ^ suc rem * 2 ^ shift) ∷ [],
          record {
            rng = (refill next p).rng;
            buf = (refill next p).buf / 2 ^ suc rem;
            bits_available = (refill next p).bits_available - suc rem;
          },
        )
  unfolding bits_loop
  last_round fuel rem shift word p enough room small =
      let q = refill next p in
      rw
        (
          bits_loop,
          taken-rem (64 - shift) (suc rem) q.bits_available (omega arith) enough,
          none_left (suc rem),
          put_lem word q.buf (suc rem) shift small room,
        )
        refl
    where
      none_left : (n : ℕ) → n - n ≡ 0
      none_left n = omega arith

  -- A first round that empties the buffer.
  emptying_round :
      (fuel rem : ℕ) (p : Prng R)
      → 0 < p.bits_available
      → p.bits_available < suc rem
      → suc rem ≤ 64
      → p.buf < 2 ^ p.bits_available
      → bits_loop next (suc fuel) (suc rem) 0 0 (0 ∷ []) p
        ≡ bits_loop next fuel
            (suc rem - p.bits_available)
            p.bits_available
            0
            (p.buf ∷ [])
            (record { rng = p.rng; buf = p.buf >>> p.bits_available; bits_available = 0 })
  unfolding bits_loop
  emptying_round fuel rem p some' short room small =
      let n = p.bits_available in
      rw
        (
          bits_loop,
          kept,
          taken-available 64 (suc rem) n (omega arith) short,
          put_lem 0 p.buf n 0 (omega arith) (omega arith),
          mod-eq_of_lt small,
          unshifted p.buf,
          zero_plus n,
          not_full n (omega arith),
          none_left n,
        )
        refl
    where
      kept : refill next p ≡ p
      kept = unfold refill in ground arith

      unshifted : (x : ℕ) → 0 + x * 2 ^ 0 ≡ x
      unshifted x = omega arith

      zero_plus : (n : ℕ) → 0 + n ≡ n
      zero_plus n = omega arith

      not_full : (n : ℕ) → n < 64 → (n == 64) ≡ false
      not_full n h = ground arith

      none_left : (n : ℕ) → n - n ≡ 0
      none_left n = omega arith

  -- theft_random_bits asked for one or more bits, and no more than the at most 64 that are
  -- buffered, ends; the result comes from the buffer, the lowest bits first, and the generator is
  -- not called.
  pub random_bits-buffered :
      (p : Prng R) (n : ℕ)
      → 0 < n
      → n ≤ p.bits_available
      → p.bits_available ≤ 64
      → random_bits next n p
        ≡ done (
          p.buf % 2 ^ n,
          record { rng = p.rng; buf = p.buf / 2 ^ n; bits_available = p.bits_available - n },
        )
  unfolding random_bits random_bits_bulk
  random_bits-buffered p zero some' enough room = absurd (omega arith)
  random_bits-buffered p (suc rem) some' enough room =
      rw
        (
          few (suc rem) (omega arith),
          last_round rem rem 0 0 p (rw kept enough) (omega arith) (omega arith),
          kept,
          plain (p.buf % 2 ^ suc rem),
        )
        refl
    where
      kept : refill next p ≡ p
      kept = unfold refill in ground arith

      plain : (x : ℕ) → 0 + x * 2 ^ 0 ≡ x
      plain x = omega arith

      few : (n : ℕ) → n ≤ 64 → ltb 64 n ≡ false
      few n h = ground arith

  -- The last round, where the buffer is empty.
  last_refilled :
      (fuel n shift word : ℕ) (p : Prng R)
      → p.bits_available ≡ 0
      → 0 < fuel
      → 0 < n
      → shift + n ≤ 64
      → word < 2 ^ shift
      → bits_loop next fuel n shift 0 (word ∷ []) p
        ≡ done (
          (word + (next p.rng).0 % 2 ^ n * 2 ^ shift) ∷ [],
          record { rng = (next p.rng).1; buf = (next p.rng).0 / 2 ^ n; bits_available = 64 - n },
        )
  last_refilled zero n shift word p e some' positive room small = absurd (omega arith)
  last_refilled (suc fuel) zero shift word p e some' positive room small = absurd (omega arith)
  last_refilled (suc fuel) (suc rem) shift word p e some' positive room small =
      rw (last_round fuel rem shift word p (rw fresh (omega arith)) room small, fresh) refl
    where
      fresh :
          refill next p ≡ record { rng = (next p.rng).1; buf = (next p.rng).0; bits_available = 64 }
      fresh = unfold refill in rw e refl

  -- Where theft_random_bits is asked for more bits than are buffered, and no more than 64, it
  -- ends; its result is the whole buffer, followed by the lowest bits of the next word of the
  -- generator, which is called once; and the rest of that word is then buffered.
  pub random_bits-refilled :
      (p : Prng R) (n : ℕ)
      → p.bits_available < n
      → n ≤ 64
      → p.buf < 2 ^ p.bits_available
      → random_bits next n p
        ≡ done (
          p.buf + (next p.rng).0 % 2 ^ (n - p.bits_available) * 2 ^ p.bits_available,
          record {
            rng = (next p.rng).1;
            buf = (next p.rng).0 / 2 ^ (n - p.bits_available);
            bits_available = 64 - (n - p.bits_available);
          },
        )
  unfolding random_bits random_bits_bulk
  random_bits-refilled p zero short room small = absurd (omega arith)
  random_bits-refilled p (suc rem) short room small = elim (ℕ_discrete p.bits_available 0) [
    | yes none' ↦
        rw
          (
            few (suc rem) room,
            last_refilled (suc rem) (suc rem) 0 0 p none' (omega arith) (omega arith) (omega arith)
                (omega arith),
            none',
            empty none',
            minus_zero (suc rem),
          )
          refl
    | no some' ↦
        rw
          (
            few (suc rem) room,
            emptying_round rem rem p (omega arith) short room small,
            last_refilled rem (suc rem - p.bits_available) p.bits_available p.buf emptied refl
                (omega arith) (omega arith) (omega arith) small,
          )
          refl
  ]
    where
      emptied : Prng R
      emptied = record { rng = p.rng; buf = p.buf >>> p.bits_available; bits_available = 0 }

      empty : p.bits_available ≡ 0 → p.buf ≡ 0
      empty e = omega (arith, small, ap (λ (t : ℕ). 2 ^ t) e)

      minus_zero : (n : ℕ) → n - 0 ≡ n
      minus_zero n = omega arith

      few : (n : ℕ) → n ≤ 64 → ltb 64 n ≡ false
      few n h = ground arith
