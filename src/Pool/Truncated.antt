-- ===== src/Pool/Truncated.antt =====
-- src/theft_autoshrink.c, `truncate_trailing_zero_bytes`: the bits of a pool that it cuts off.
use theft.Base.{
  ℕ, zero, suc, ◌+◌, ◌*◌, ◌/◌, ◌%◌, ◌<◌, ◌≤◌, ◌≡◌, arith, ap, ◌∙◌, false, ◌==◌, ==_iff, List,
  get_or,
}
use theft.Base.{Bool-cases, inl, inr, if◌then◌else◌, bit_and, ℕ_discrete}
use theft.Base.Bytes.{bit_set-zero}
use theft.Base.BitArray.{test_bit}
use theft.Pool.{Pool, nonzero_size, byte_size, truncate_trailing_zero_bytes}

nonzero_size-le : (n : ℕ) (bits : List ℕ) → nonzero_size n bits ≤ n
unfolding nonzero_size
nonzero_size-le zero bits = omega arith
nonzero_size-le (suc i) bits = ground (arith, nonzero_size-le i bits)

nonzero_size-zeros :
    (n v : ℕ) (bits : List ℕ) → nonzero_size n bits ≤ v → v < n → get_or bits v 0 ≡ 0
unfolding nonzero_size
nonzero_size-zeros zero v bits low high = absurd (omega arith)
nonzero_size-zeros (suc i) v bits low high = elim (Bool-cases (get_or bits i 0 == 0)) [
  | inr nonzero ↦ absurd (omega (arith, rw (nonzero, nonzero_size) at low))
  | inl is_zero ↦ elim (ℕ_discrete v i) [
    | yes here ↦ ap (λ (k : ℕ). get_or bits k 0) here ∙ (==_iff (get_or bits i 0) 0).0 is_zero
    | no other ↦ nonzero_size-zeros i v bits (rw (is_zero, nonzero_size) at low) (omega arith)
  ]
]

-- truncate_trailing_zero_bytes cuts off only bits that are 0.
pub truncate-zeros :
    (pool : Pool) (v : ℕ)
    → (truncate_trailing_zero_bytes pool).bits_filled ≤ v
    → v < pool.bits_filled
    → test_bit pool.bits v ≡ false
unfolding truncate_trailing_zero_bytes
truncate-zeros pool v low high =
    rw
      (nonzero_size-zeros (byte_size pool) (v / 8) pool.bits (omega arith)
        (within pool.bits_filled v high))
      (bit_set-zero (bit_and v 7))
  where
    within : (n v : ℕ) → v < n → v / 8 < n / 8 + (if n % 8 == 0 then 0 else 1)
    within n v h = ground arith

-- After truncate_trailing_zero_bytes the limit of the pool is not above its number of filled bits,
-- which may have been rounded up to a whole byte, and grew by less than eight.
pub truncate-limit :
    (pool : Pool)
    → ((truncate_trailing_zero_bytes pool).limit ≤ (truncate_trailing_zero_bytes pool).bits_filled)
      × ((truncate_trailing_zero_bytes pool).bits_filled < pool.bits_filled + 8)
unfolding truncate_trailing_zero_bytes
truncate-limit pool =
    (ground arith, near pool.bits_filled _ (nonzero_size-le (byte_size pool) pool.bits))
  where
    near : (n k : ℕ) → k ≤ n / 8 + (if n % 8 == 0 then 0 else 1) → k * 8 < n + 8
    near n k h = ground arith
