-- ===== src/Random/Tests.antt =====
-- A generator that counts.
use theft.Base.{ℕ, ◌+◌, ◌-◌, ◌*◌, ◌/◌, ◌%◌, ◌^◌, ◌≡◌, arith}
use theft.Types.{done}
use theft.Random.{Prng, random_bits}
use theft.Random.Bits.{random_bits-buffered, random_bits-refilled}

abbrev counting : ℕ → ℕ × ℕ
counting r = (r, r + 1)

abbrev five_left : Prng ℕ
five_left = record { rng = 200; buf = 0x15; bits_available = 5 }

random_bits-buffered_example :
    random_bits counting 3 five_left
    ≡ done (0x15 % 2 ^ 3, record { rng = 200; buf = 0x15 / 2 ^ 3; bits_available = 5 - 3 })
random_bits-buffered_example =
    random_bits-buffered counting five_left 3 (omega arith) (omega arith) (omega arith)

random_bits-refilled_example :
    random_bits counting 12 five_left
    ≡ done (
      0x15 + 200 % 2 ^ (12 - 5) * 2 ^ 5,
      record { rng = 201; buf = 200 / 2 ^ (12 - 5); bits_available = 64 - (12 - 5) },
    )
random_bits-refilled_example =
    random_bits-refilled counting five_left 12 (omega arith) (omega arith) (omega arith)
