-- ===== src/Mutate/Swapped.antt =====
-- src/theft_autoshrink.c, the mutation SWAP: two runs of bits before and after.
use theft.Base.{ℕ, ◌+◌, ◌*◌, ◌<◌, ◌≤◌, ◌≡◌, arith, ◌∙◌, refl}
use theft.Base.{Bool, true, false, ltb, ltb→lt, List, length, ◌⊎◌, inl, inr, Bool-cases}
use theft.Base.BitArray.{IsBytes}
use native.Mathlib.Nat.{mod-eq_of_lt}
use theft.Pool.{read_bits_at_offset, write_bits_at_offset}
use theft.Pool.Bits.{read-write, read-write_apart, length-write_bits, write_bits-IsBytes}
use theft.Mutate.{swap_runs}
use theft.Mutate.Lowered.{read-lt}

-- What SWAP does to two runs of the same width that lie in the pool, apart from each other: it
-- says that it changed the pool, each of the two then reads as the other did, and the first reads
-- lower than before; or it says that it did not, and the pool is the same.
abbrev pub Exchanged : List ℕ → ℕ → ℕ → ℕ → Bool × List ℕ → Type 0
Exchanged pool first second size r =
    (r.0 ≡ true)
      × (read_bits_at_offset r.1 first size ≡ read_bits_at_offset pool second size)
      × (read_bits_at_offset r.1 second size ≡ read_bits_at_offset pool first size)
      × (read_bits_at_offset r.1 first size < read_bits_at_offset pool first size)
    ⊎ (r.0 ≡ false) × (r.1 ≡ pool)

module _ (pool : List ℕ) (first second size : ℕ) (bytes : IsBytes pool)
    (first_inside : first + size ≤ 8 * length pool)
    (second_inside : second + size ≤ 8 * length pool)
    (apart : first + size ≤ second ⊎ second + size ≤ first) where
  abbrev a : ℕ
  a = read_bits_at_offset pool first size

  abbrev b : ℕ
  b = read_bits_at_offset pool second size

  abbrev half_done : List ℕ
  half_done = write_bits_at_offset pool first size b

  half-IsBytes : IsBytes half_done
  half-IsBytes = write_bits-IsBytes pool first size b bytes first_inside

  half_inside : second + size ≤ 8 * length half_done
  half_inside = omega (arith, length-write_bits pool first size b, second_inside)

  first_reads : read_bits_at_offset (write_bits_at_offset half_done second size a) first size ≡ b
  first_reads =
      read-write_apart half_done second size a first size half-IsBytes half_inside apart
      ∙ read-write pool first size b bytes first_inside
      ∙ mod-eq_of_lt (read-lt pool second size)

  second_reads : read_bits_at_offset (write_bits_at_offset half_done second size a) second size ≡ a
  second_reads =
      read-write half_done second size a half-IsBytes half_inside
      ∙ mod-eq_of_lt (read-lt pool first size)

  -- SWAP of two runs of the same width that lie in the pool, apart from each other, either
  -- exchanges what they read, the first run then reading lower than before, and says so; or it
  -- leaves the pool as it is and says so.
  pub swap_runs-Exchanged : Exchanged pool first second size (swap_runs pool first second size)
  unfolding swap_runs
  swap_runs-Exchanged = elim (Bool-cases (ltb b a)) [
    | inl less ↦
        rw (less, swap_runs)
          (inl (refl, first_reads, second_reads, rw first_reads (ltb→lt b a less)))
    | inr not_less ↦ rw (not_less, swap_runs) (inr (refl, refl))
  ]
