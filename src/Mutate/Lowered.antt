-- ===== src/Mutate/Lowered.antt =====
-- src/theft_autoshrink.c, the mutations SHIFT, MASK and SUB: the number of the pool before and
-- after.
use theft.Base.{
  ℕ, zero, suc, ◌+◌, ◌-◌, ◌*◌, ◌/◌, ◌%◌, ◌^◌, ◌<◌, ◌≤◌, ◌≡◌, refl, arith, ap, ◌∙◌, bit_and, ltb→lt,
}
use theft.Base.{
  Bool, true, false, not, ◌==◌, ltb, leb, if◌then◌else◌, List, [], ◌∷◌, get_or, ◌≢◌, length, sum,
  ◌⊎◌, inl, inr, Bool-cases, dec_lt,
}
use theft.Base.Words.{pow-pos, bit_and_low}
use theft.Base.BitArray.{IsBytes}
use Prim.Native.Nat.{bit_and-bitwise}
use native.Mathlib.Nat.{mod-lt, mod-eq_of_lt, div-le_self}
use theft.Model.{Mutation}
use theft.Pool.{read_bits_at_offset, write_bits_at_offset}
use theft.Pool.Value.{value-lt, read-value}
use theft.Pool.Number.{number, number-write}
use theft.Mutate.{
  region, shift_request, draw_mask, mask_request, lower, sub_request, build_index, offset_of_pos,
  mutate_request,
}

-- What a mutation did to a pool: it says that it changed it, and the number of the pool is
-- lower; or it says that it did not, and the number is the same.
abbrev pub Lowered : List ℕ → Bool → List ℕ → Type 0
Lowered pool changed pool' =
    (changed ≡ true) × (number pool' < number pool)
    ⊎ (changed ≡ false) × (number pool' ≡ number pool)

pub read-lt :
    (bits : List ℕ) (bit_offset size : ℕ) → read_bits_at_offset bits bit_offset size < 2 ^ size
read-lt bits bit_offset size = rw (read-value bits bit_offset size) (value-lt bits size bit_offset)

differ : (a b : ℕ) → b < a → not (a == b) ≡ true
differ a b h = ground arith

-- A run of bits replaced by a number that is not above it.
replaced :
    (pool : List ℕ) (bit_offset size nbits : ℕ)
    → IsBytes pool
    → bit_offset + size ≤ 8 * length pool
    → nbits ≤ read_bits_at_offset pool bit_offset size
    → Lowered pool
        (not (read_bits_at_offset pool bit_offset size == nbits))
        (write_bits_at_offset pool bit_offset size nbits)
replaced pool bit_offset size nbits bytes inside le =
    let bits = read_bits_at_offset pool bit_offset size in
    let fits : nbits % 2 ^ size ≡ nbits =
      mod-eq_of_lt (omega (arith, read-lt pool bit_offset size)) in
    let balance = number-write pool bit_offset size nbits bytes inside in
    go bits nbits (2 ^ bit_offset) (number pool)
      (number (write_bits_at_offset pool bit_offset size nbits)) le (pow-pos bit_offset)
      (balance ∙ rw fits refl)
  where
    drop : (p n d new old : ℕ) → 1 ≤ p → new + p * (n + suc d) ≡ old + p * n → new < old
    drop p n d new old pos e = omega arith

    agree : (a b : ℕ) → a ≡ b → not (a == b) ≡ false
    agree a b h = ground arith

    go :
        (bits nbits p old new : ℕ)
        → nbits ≤ bits
        → 1 ≤ p
        → new + p * bits ≡ old + p * nbits
        → (not (bits == nbits) ≡ true) × (new < old) ⊎ (not (bits == nbits) ≡ false) × (new ≡ old)
    go bits nbits p old new le pos e = elim (dec_lt nbits bits) [
      | yes less ↦ inl (
        differ bits nbits less,
        drop p nbits (bits - nbits - 1) new old pos (
            ap (λ (t : ℕ). new + p * t) {x = nbits + suc (bits - nbits - 1)} {y = bits}
              (omega arith)
            ∙ e),
      )
      | no same ↦
          let eq : bits ≡ nbits = omega arith in
          inr (agree bits nbits eq, omega (arith, e, ap (λ (t : ℕ). p * t) eq))
    ]

bit_and-le_below : (bound x y : ℕ) → x ≤ bound → bit_and x y ≤ x
bit_and-le_below bound zero y h = omega (arith, bit_and_low 0 y, bit_and-bitwise 0 y)
bit_and-le_below zero (suc x) y h = absurd (omega arith)
bit_and-le_below (suc bound) (suc x) y h =
    omega (arith, bit_and_low (suc x) y, bit_and-le_below bound (suc x / 2) (y / 2) (omega arith))

bit_and-le : (x y : ℕ) → bit_and x y ≤ x
bit_and-le x y = bit_and-le_below x x y (omega arith)

lower-lt : (bits sub : ℕ) → 0 < bits → lower bits sub < bits
unfolding lower
lower-lt bits sub h = ground (arith, mod-lt sub {m = bits})

module _ {W : Type 0} (prng : ℕ → W → ℕ × W) where
  -- The region of a request lies in it.
  pub region-inside : (size : ℕ) (w : W) → (region prng size w).0 + (region prng size w).1 ≤ size
  unfolding region
  region-inside size w = elim (Bool-cases (ltb 64 size)) [
    | inl large ↦
        rw (large, region)
          (within size (prng 32 w).0 (prng 6 (prng 32 w).1).0 (ltb→lt 64 size large))
    | inr small ↦ rw (small, region) (omega arith)
  ]
    where
      within :
          (size p c : ℕ)
          → 64 < size
          → p % size + (if ltb (size - p % size) c then size - p % size else c) ≤ size
      within size p c h = ground (arith, mod-lt p {m = size})

  module _ (bit_offset size : ℕ) (pool : List ℕ) (w : W) (bytes : IsBytes pool)
      (inside : bit_offset + size ≤ 8 * length pool) where
    at_region :
        (w : W) → bit_offset + (region prng size w).0 + (region prng size w).1 ≤ 8 * length pool
    at_region w = omega (arith, region-inside size w)

    -- SHIFT, on a request that lies in the pool, lowers the number of the pool and says so, or
    -- leaves it as it is and says so.
    pub shift_request-Lowered :
        Lowered pool
          (shift_request prng bit_offset size pool w).0
          (shift_request prng bit_offset size pool w).1
    unfolding shift_request
    shift_request-Lowered =
        let s = prng 2 w in
        let r = region prng size s.1 in
        replaced pool (bit_offset + r.0) r.1 _ bytes (at_region s.1) (div-le_self _ (2 ^ (s.0 + 1)))

    -- MASK, on a request that lies in the pool, lowers the number of the pool and says so, or
    -- leaves it as it is and says so.
    pub mask_request-Lowered :
        Lowered pool
          (mask_request prng bit_offset size pool w).0
          (mask_request prng bit_offset size pool w).1
    unfolding mask_request
    mask_request-Lowered =
        let m = draw_mask prng (if leb size 64 then size else 64) w in
        let r = region prng size m.1 in
        replaced pool (bit_offset + r.0) r.1 _ bytes (at_region m.1) (bit_and-le _ m.0)

    -- SUB, on a request that lies in the pool, lowers the number of the pool and says so, or
    -- leaves the pool as it is and says so.
    pub sub_request-Lowered :
        Lowered pool
          (sub_request prng bit_offset size pool w).0
          (sub_request prng bit_offset size pool w).1
    unfolding sub_request
    sub_request-Lowered =
        let s = prng (if leb size 64 then size else 64) w in
        let r = region prng size s.1 in
        let bits = read_bits_at_offset pool (bit_offset + r.0) r.1 in
        elim (Bool-cases (ltb 0 bits)) [
          | inl some' ↦
              let less = lower-lt bits s.0 (ltb→lt 0 bits some') in
              rw (some', sub_request)
                (rw (differ bits (lower bits s.0) less) at (
                  replaced pool (bit_offset + r.0) r.1 (lower bits s.0) bytes (at_region s.1)
                    (omega arith)))
          | inr none' ↦ rw (none', sub_request) (inr (refl, refl))
        ]

pub index-inside :
    (requests : List ℕ) (before pos : ℕ)
    → pos < length requests
    → get_or (build_index before requests) pos 0 + get_or requests pos 0 ≤ before + sum requests
unfolding build_index
index-inside [] before pos h = absurd (omega arith)
index-inside (size ∷ requests) before zero h = omega arith
index-inside (size ∷ requests) before (suc pos) h =
    omega (arith, index-inside requests (before + size) pos (omega arith))

-- A SHIFT, MASK or SUB of any request of a pool that holds the requested bits lowers the number of
-- the pool (its first bit the lowest) and says so, or leaves that number as it is and says so.
pub mutate_request-Lowered :
    {W : Type 0} (prng : ℕ → W → ℕ × W) (k : Mutation) (requests : List ℕ) (pos : ℕ) (pool : List ℕ)
    (w : W)
    → k ≢ Mutation.swap
    → pos < length requests
    → IsBytes pool
    → sum requests ≤ 8 * length pool
    → Lowered pool
        (mutate_request prng k requests pos pool w).0
        (mutate_request prng k requests pos pool w).1
unfolding mutate_request
mutate_request-Lowered prng Mutation.shift requests pos pool w ne h bytes inside =
    shift_request-Lowered prng (offset_of_pos requests pos) (get_or requests pos 0) pool w bytes
      (omega (arith, index-inside requests 0 pos h))
mutate_request-Lowered prng Mutation.mask requests pos pool w ne h bytes inside =
    mask_request-Lowered prng (offset_of_pos requests pos) (get_or requests pos 0) pool w bytes
      (omega (arith, index-inside requests 0 pos h))
mutate_request-Lowered prng Mutation.sub requests pos pool w ne h bytes inside =
    sub_request-Lowered prng (offset_of_pos requests pos) (get_or requests pos 0) pool w bytes
      (omega (arith, index-inside requests 0 pos h))
mutate_request-Lowered prng Mutation.swap requests pos pool w ne h bytes inside = absurd (ne refl)
