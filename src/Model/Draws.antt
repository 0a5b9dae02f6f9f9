-- ===== src/Model/Draws.antt =====
-- src/theft_autoshrink.c, `get_weighted_mutation`: how many bits it draws, and what a draw names.
use theft.Base.{ℕ, ◌+◌, ◌≤◌, ◌<◌, ◌≡◌, arith, ◌^◌}
use native.Mathlib.Nat.{add-zero}
use theft.Base.{none, ◌↔◌, ap, ℕ_discrete, ltb→lt, zero, suc, Bool-cases, inl, inr, ltb}
use theft.Model.{Model, mutation_of, mutation_sum, bit_count_from, bit_count}
use theft.Model.Weights.{IsModel}

-- A draw is refused, and made again, exactly when it is not below the sum of the four weights.
mutation_of-none_iff :
    (weights : ℕ → ℕ) (bits : ℕ) → (mutation_of weights bits ≡ none) ↔ (mutation_sum weights ≤ bits)
unfolding mutation_of
mutation_of-none_iff weights bits = ground arith

-- The loop for the number of bits ends at one that holds the sum.
bit_count_from-enough :
    (fuel bits sum : ℕ) → sum ≤ 2 ^ (bits + fuel) → sum ≤ 2 ^ bit_count_from fuel bits sum
unfolding bit_count_from
bit_count_from-enough zero bits sum h = rw (← add-zero bits) h
bit_count_from-enough (suc fuel) bits sum h = elim (Bool-cases (ltb (2 ^ bits) sum)) [
  | inl more ↦
      rw (more, bit_count_from)
        (bit_count_from-enough fuel (bits + 1) sum (rw (plus_one bits fuel) h))
  | inr enough ↦ rw (enough, bit_count_from) (ground arith)
]
  where
    plus_one : (n m : ℕ) → (n + 1) + m ≡ n + suc m
    plus_one n m = omega arith

bit_count_from-le :
    (fuel bits sum n : ℕ) → sum ≤ 2 ^ n → bits ≤ n → bit_count_from fuel bits sum ≤ n
unfolding bit_count_from
bit_count_from-le zero bits sum n h small = small
bit_count_from-le (suc fuel) bits sum n h small = elim (Bool-cases (ltb (2 ^ bits) sum)) [
  | inr enough ↦ rw (enough, bit_count_from) small
  | inl more ↦ elim (ℕ_discrete bits n) [
    | yes most ↦ absurd (omega (arith, ltb→lt (2 ^ bits) sum more, h, ap (λ (t : ℕ). 2 ^ t) most))
    | no less ↦ rw (more, bit_count_from) (bit_count_from-le fuel (bits + 1) sum n h (omega arith))
  ]
]

-- Whatever the four bytes are, their sum needs no more than 10 bits.
pub bit_count-le : (weights : ℕ → ℕ) → ((n : ℕ) → weights n < 256) → bit_count weights ≤ 10
unfolding bit_count
bit_count-le weights bytes =
    bit_count_from-le 16 7 (mutation_sum weights) 10
      (omega (arith, bytes 1, bytes 2, bytes 3, bytes 4)) (omega arith)

-- On a valid model get_weighted_mutation draws at most 9 bits, so its assertion that 16 are enough
-- holds; the sum of the four weights fits in the bits that are drawn; and a draw is made again
-- exactly where it is not below that sum.
pub bit_count_lem :
    (m : Model) (bits : ℕ)
    → IsModel m
    → (bit_count m.weights ≤ 9)
      × (mutation_sum m.weights ≤ 2 ^ bit_count m.weights)
      × ((mutation_of m.weights bits ≡ none) ↔ (mutation_sum m.weights ≤ bits))
unfolding bit_count
bit_count_lem m bits valid =
    let small : mutation_sum m.weights ≤ 2 ^ 9 = omega (
      arith,
      valid 1 (omega arith),
      valid 2 (omega arith),
      valid 3 (omega arith),
      valid 4 (omega arith),
    ) in
    (
      bit_count_from-le 16 7 (mutation_sum m.weights) 9 small (omega arith),
      bit_count_from-enough 16 7 (mutation_sum m.weights) (omega (arith, small)),
      mutation_of-none_iff m.weights bits,
    )
