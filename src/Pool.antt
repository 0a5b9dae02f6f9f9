-- ===== src/Pool.antt =====
-- src/theft_autoshrink.c: the bit pool of an autoshrunk argument.
pub mod Cursor
pub mod Value
pub mod OneBit
pub mod Bits
pub mod Number
pub mod Truncated
mod Tests
use theft.Base.{
  ℕ, zero, suc, ◌+◌, ◌-◌, ◌*◌, ◌/◌, ◌%◌, ◌^◌, Bool, true, false, ◌==◌, ltb, if◌then◌else◌,
}
use theft.Base.{
  bit_and, bit_or, List, [], ◌∷◌, ◌++◌, get_or, set, length, replicate, Option, none, some,
}
use theft.Base.Bytes.{bit_set}
use theft.Base.Words.{u8, low_mask, ◌>>>◌, ◌<<<◌}

-- `struct autoshrink_bit_pool`; `bits` is the buffer of bytes, `requests` has `request_count`
-- elements, and an index that was not built is none.
pub record Pool : Type 0 where
  pub bits : List ℕ
  pub shrinking : Bool
  pub bits_filled : ℕ
  pub bits_ceil : ℕ
  pub limit : ℕ
  pub consumed : ℕ
  pub request_ceil : ℕ
  pub requests : List ℕ
  pub generation : ℕ
  pub index : Option (List ℕ)

-- A byte offset and the mask of a bit in it, moved to the next bit.
abbrev pub Cursor : Type 0
Cursor = ℕ × ℕ

unfoldable pub advance : Cursor → Cursor
advance (byte, bit_i) = if u8 (bit_i * 2) == 0 then (byte + 1, 1) else (byte, u8 (bit_i * 2))

-- `convert_bit_offset`, and the mask of that bit.
unfoldable pub cursor_at : ℕ → Cursor
cursor_at bit_offset = (bit_offset / 8, 2 ^ (bit_offset % 8))

unfoldable pub read_loop : ℕ → ℕ → List ℕ → Cursor → ℕ → ℕ
read_loop zero i bits c acc = acc
read_loop (suc left) i bits c acc =
    read_loop left (i + 1) bits (advance c)
      (if bit_and (get_or bits c.0 0) c.1 == 0 then acc else bit_or acc (2 ^ i))

unfoldable pub read_bits_at_offset : List ℕ → ℕ → ℕ → ℕ
read_bits_at_offset bits bit_offset size = read_loop size 0 bits (cursor_at bit_offset) 0

unfoldable pub write_loop : ℕ → ℕ → Cursor → ℕ → List ℕ → List ℕ
write_loop zero i c value bits = bits
write_loop (suc left) i c value bits =
    let old = get_or bits c.0 0 in
    write_loop left (i + 1) (advance c) value (
      set bits c.0 (if bit_and value (2 ^ i) == 0 then bit_and old (255 - c.1) else bit_or old c.1))

unfoldable pub write_bits_at_offset : List ℕ → ℕ → ℕ → ℕ → List ℕ
write_bits_at_offset bits bit_offset size value =
    write_loop size 0 (cursor_at bit_offset) value bits

-- The loop of `truncate_trailing_zero_bytes`: how many bytes there are up to the last that is
-- not zero, in the first `n`.
unfoldable pub nonzero_size : ℕ → List ℕ → ℕ
nonzero_size zero bits = 0
nonzero_size (suc i) bits =
    let less = nonzero_size i bits in if get_or bits i 0 == 0 then less else i + 1

abbrev pub byte_size : Pool → ℕ
byte_size pool = pool.bits_filled / 8 + (if pool.bits_filled % 8 == 0 then 0 else 1)

unfoldable pub truncate_trailing_zero_bytes : Pool → Pool
truncate_trailing_zero_bytes pool =
    let nsize = nonzero_size (byte_size pool) pool.bits * 8 in
    record pool { bits_filled = nsize; limit = if ltb nsize pool.limit then nsize else pool.limit }

-- `append_request`; `memory` says whether a larger buffer of requests is given.
unfoldable pub append_request : Bool → ℕ → Pool → Bool × Pool
append_request memory bit_count pool =
    let appended = λ (ceil : ℕ). record pool {
      request_ceil = ceil;
      requests = pool.requests ++ (bit_count ∷ []);
    } in
    if length pool.requests == pool.request_ceil
    then (if memory then (true, appended (pool.request_ceil * 2)) else (false, pool))
    else (true, appended pool.request_ceil)
