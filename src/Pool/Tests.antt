-- ===== src/Pool/Tests.antt =====
-- Runs of bits in a buffer of three bytes.
use theft.Base.{false, none}
use theft.Base.BitArray.{test_bit}
use theft.Pool.{Pool, truncate_trailing_zero_bytes, nonzero_size, append_request}
use theft.Pool.Truncated.{truncate-zeros}
use theft.Base.{ℕ, ◌%◌, ◌^◌, ◌≡◌, refl, arith, List, [], ◌∷◌, inr, zero, suc}
use theft.Base.BitArray.{IsBytes}
use theft.Pool.{
  read_bits_at_offset, read_loop, write_bits_at_offset, write_loop, advance, cursor_at,
}
use theft.Pool.Bits.{read-write, read-write_apart}

abbrev buffer : List ℕ
buffer = 0xff ∷ 0x0f ∷ 0xa5 ∷ []

buffer-IsBytes : IsBytes buffer
buffer-IsBytes zero = omega arith
buffer-IsBytes (suc zero) = omega arith
buffer-IsBytes (suc (suc zero)) = omega arith
buffer-IsBytes (suc (suc (suc i))) = omega arith

reads : read_bits_at_offset buffer 6 8 ≡ 0x3f
unfolding read_bits_at_offset read_loop advance cursor_at
reads = refl

writes : write_bits_at_offset buffer 6 8 0 ≡ 0x3f ∷ 0x00 ∷ 0xa5 ∷ []
unfolding write_bits_at_offset write_loop advance cursor_at
writes = refl

read-write_example :
    read_bits_at_offset (write_bits_at_offset buffer 6 11 0x123) 6 11 ≡ 0x123 % 2 ^ 11
read-write_example = read-write buffer 6 11 0x123 buffer-IsBytes (omega arith)

read-write_apart_example :
    read_bits_at_offset (write_bits_at_offset buffer 6 11 0x123) 17 4
    ≡ read_bits_at_offset buffer 17 4
read-write_apart_example =
    read-write_apart buffer 6 11 0x123 17 4 buffer-IsBytes (omega arith) (inr (omega arith))

-- Twenty bits, of which the last that is set is in the first byte.
abbrev trailing : Pool
trailing = record {
  bits = 5 ∷ 0 ∷ 0 ∷ [];
  shrinking = false;
  bits_filled = 20;
  bits_ceil = 64;
  limit = 100;
  consumed = 0;
  request_ceil = 16;
  requests = 20 ∷ [];
  generation = 0;
  index = none;
}

truncates : (truncate_trailing_zero_bytes trailing).bits_filled ≡ 8
unfolding truncate_trailing_zero_bytes nonzero_size
truncates = refl

truncate-zeros_example : test_bit trailing.bits 9 ≡ false
truncate-zeros_example = truncate-zeros trailing 9 (rw truncates (omega arith)) (omega arith)

appends : (append_request false 7 trailing).1.requests ≡ 20 ∷ 7 ∷ []
unfolding append_request
appends = refl
