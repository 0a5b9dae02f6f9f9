-- ===== src/Random.antt =====
-- src/theft_random.c: random bits from the generator, through a buffer of one word.
-- `next` is `theft_rng_random`, as a function of the generator's state.
pub mod Bits
mod Tests
use theft.Base.{ℕ, zero, suc, ◌+◌, ◌-◌, ◌^◌, bit_and, bit_or, List, [], ◌∷◌, get_or, set}
use theft.Base.{ltb, ◌==◌, if◌then◌else◌}
use theft.Base.Words.{u64, ◌<<<◌, ◌>>>◌}
use theft.Types.{Outcome, done, aborted, no_fuel, ◌>>=◌}

-- `struct prng_info`, without the bit pool.
pub record Prng (R : Type 0) : Type 0 where
  pub rng : R
  pub buf : ℕ
  pub bits_available : ℕ

unfoldable pub get_mask : ℕ → ℕ
get_mask bits = if bits == 64 then 2 ^ 64 - 1 else 2 ^ bits - 1

-- How many bits one round takes: what fits in the word, what is left to get, what is buffered.
unfoldable pub taken : ℕ → ℕ → ℕ → ℕ
taken room rem available =
    let take = if ltb rem room then rem else room in if ltb available take then available else take

-- Bits put into a word of the output.
unfoldable pub put : ℕ → ℕ → ℕ → ℕ → ℕ
put word buf take shift = bit_or word (u64 (bit_and buf (get_mask take) <<< shift))

module _ {R : Type 0} (next : R → ℕ × R) where
  -- `theft_random_set_seed`, at the state that the generator has for the seed.
  abbrev pub seeded : R → Prng R
  seeded r = record { rng = r; buf = 0; bits_available = 0 }

  unfoldable pub refill : Prng R → Prng R
  refill p =
      if p.bits_available == 0
      then record { rng = (next p.rng).1; buf = (next p.rng).0; bits_available = 64 }
      else p

  -- The loop of `theft_random_bits_bulk`, for a runner that uses no bit pool. Every round takes a
  -- bit at least, so the number of bits is fuel enough. C leaves the shift of a whole word by 64
  -- undefined; what it leaves in the buffer is not read, and is 0 here.
  unfoldable pub bits_loop : ℕ → ℕ → ℕ → ℕ → List ℕ → Prng R → Outcome (List ℕ × Prng R)
  bits_loop fuel zero shift offset out p = done (out, p)
  bits_loop zero (suc rem) shift offset out p = no_fuel
  bits_loop (suc fuel) (suc rem) shift offset out p =
      let q = refill p in
      let take = taken (64 - shift) (suc rem) q.bits_available in
      let out' = set out offset (put (get_or out offset 0) q.buf take shift) in
      let full = shift + take == 64 in
      bits_loop fuel (suc rem - take) (if full then 0 else shift + take)
        (if full then offset + 1 else offset) out'
        (record { rng = q.rng; buf = q.buf >>> take; bits_available = q.bits_available - take })

  unfoldable pub random_bits_bulk : ℕ → List ℕ → Prng R → Outcome (List ℕ × Prng R)
  random_bits_bulk bit_count out p = bits_loop bit_count bit_count 0 0 out p

  -- `theft_random_bits`; more than 64 bits fail its assertion.
  unfoldable pub random_bits : ℕ → Prng R → Outcome (ℕ × Prng R)
  random_bits bit_count p =
      if ltb 64 bit_count
      then aborted
      else random_bits_bulk bit_count (0 ∷ []) p >>= λ r. done (get_or r.0 0 0, r.1)
