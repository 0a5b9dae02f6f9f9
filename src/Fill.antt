-- ===== src/Fill.antt =====
-- src/theft_autoshrink.c: the bit pool as the source of random bits for an alloc callback, from
-- `theft_autoshrink_bit_pool_random` on. The pool's bytes are read and written as the words of a
-- machine that stores the lowest byte first. `next` is `theft_rng_random`. The memory is three
-- functions: whether a larger buffer of bits, and of requests, is given, and what the new bytes hold.
pub mod Words
pub mod Buffer
pub mod Loop
pub mod Supply
pub mod Taken
pub mod Agree
use theft.Base.{
  ℕ, zero, suc, ◌+◌, ◌-◌, ◌*◌, ◌/◌, ◌%◌, ◌^◌, bit_and, bit_or, Bool, true, false, List, [], ◌∷◌,
  ◌++◌, ◌&&◌,
}
use theft.Base.{ltb, leb, ◌==◌, if◌then◌else◌, get_or, set, length}
use theft.Base.Words.{◌>>>◌, ◌<<<◌, u64}
use theft.Types.{Outcome, done, aborted, no_fuel, ◌>>=◌}
use theft.Random.{get_mask}
use theft.Pool.{Pool, append_request}

-- `((uint64_t *)bits)[k]`, read from `left` bytes, and written.
unfoldable pub word_from : ℕ → ℕ → List ℕ → ℕ
word_from zero i bits = 0
word_from (suc left) i bits = get_or bits i 0 + 256 * word_from left (i + 1) bits

abbrev pub word_at : List ℕ → ℕ → ℕ
word_at bits k = word_from 8 (8 * k) bits

unfoldable pub write_bytes : ℕ → ℕ → ℕ → List ℕ → List ℕ
write_bytes zero i v bits = bits
write_bytes (suc left) i v bits = write_bytes left (i + 1) (v / 256) (set bits i (v % 256))

abbrev pub set_word : List ℕ → ℕ → ℕ → List ℕ
set_word bits k v = write_bytes 8 (8 * k) v bits

-- `to_copy` of `fill_buf`: as many bits as are left to get, and in both words from here on.
unfoldable pub copy_size : ℕ → ℕ → ℕ → ℕ
copy_size bit_count i src_bit =
    let room = 64 - bit_and i 63 in
    let dst_req = if ltb (bit_count - i) room then bit_count - i else room in
    if ltb dst_req (64 - src_bit) then dst_req else 64 - src_bit

-- The loop of `fill_buf`.
unfoldable pub fill_loop : ℕ → ℕ → List ℕ → ℕ → ℕ → ℕ → ℕ → List ℕ → Outcome (List ℕ)
fill_loop zero bit_count bits src_offset src_bit dst_offset i dst = no_fuel
fill_loop (suc fuel) bit_count bits src_offset src_bit dst_offset i dst =
    let dst_bit = bit_and i 63 in
    let to_copy = copy_size bit_count i src_bit in
    let got = bit_and (word_at bits src_offset >>> src_bit) (get_mask to_copy) in
    let dst₁ = set dst dst_offset (bit_or (get_or dst dst_offset 0) (u64 (got <<< dst_bit))) in
    let full = dst_bit + to_copy == 64 in
    let dst₂ = if full && ltb (i + to_copy) bit_count then set dst₁ (dst_offset + 1) 0 else dst₁ in
    let crossed = src_bit + to_copy == 64 in
    let rest =
      fill_loop fuel bit_count bits (if crossed then src_offset + 1 else src_offset)
        (if crossed then 0 else src_bit + to_copy) (if full then dst_offset + 1 else dst_offset)
        (i + to_copy) dst₂ in
    if ltb i bit_count then rest else done dst

-- `fill_buf`; every round copies a bit at least.
unfoldable pub fill_buf : Pool → ℕ → List ℕ → Outcome (List ℕ × Pool)
fill_buf pool bit_count dst =
    fill_loop (suc bit_count) bit_count pool.bits (pool.consumed / 64) (bit_and pool.consumed 63) 0
      0 (set dst 0 0)
    >>= λ dst'. done (dst', record pool { consumed = pool.consumed + bit_count })

-- The `memset` at the end of the pool, which counts bytes: the first `n` bytes of the words.
unfoldable pub zero_bytes : ℕ → List ℕ → List ℕ
zero_bytes n [] = []
zero_bytes n (word ∷ words) =
    let rest = zero_bytes (n - 8) words in
    if ltb n 8 then (word - word % 2 ^ (8 * n)) ∷ words else 0 ∷ rest

module _ {R : Type 0} (next : R → ℕ × R) (more_bits more_requests : Pool → Bool) where
  module _ (fresh : ℕ → List ℕ) where
    -- The loop of `lazily_fill_bit_pool` that grows the buffer.
    unfoldable pub grow_loop : ℕ → ℕ → Pool → Outcome Pool
    grow_loop zero need pool = no_fuel
    grow_loop (suc fuel) need pool =
        let nceil = 2 * pool.bits_ceil in
        let grown = grow_loop fuel need (record pool {
          bits = pool.bits ++ fresh (nceil / 8 - length pool.bits);
          bits_ceil = nceil;
        }) in
        if ltb pool.bits_ceil need then (if more_bits pool then grown else aborted) else done pool

    -- Its loop that fills the buffer.
    unfoldable pub fill_words : ℕ → ℕ → Pool → R → Outcome (Pool × R)
    fill_words zero need pool r = no_fuel
    fill_words (suc fuel) need pool r =
        let offset = pool.bits_filled / 64 in
        let filled =
          fill_words fuel need
            (record pool {
              bits = set_word pool.bits offset (next r).0;
              bits_filled = pool.bits_filled + 64;
            })
            (next r).1 in
        if ltb pool.bits_filled need
        then (if ltb (offset * 64) pool.bits_ceil then filled else aborted)
        else done (pool, r)

    unfoldable pub lazily_fill_bit_pool : ℕ → Pool → R → Outcome (Pool × R)
    lazily_fill_bit_pool bit_count pool r =
        let need = pool.consumed + bit_count in
        grow_loop (suc need) need pool >>= λ grown. fill_words (suc need) need grown r

    -- What follows it in `theft_autoshrink_bit_pool_random`, with every request saved.
    unfoldable pub take_bits : ℕ → List ℕ → Pool → Outcome (List ℕ × Pool)
    take_bits bit_count buf pool =
        let n =
          if leb pool.limit (pool.consumed + bit_count)
          then pool.limit - pool.consumed
          else bit_count in
        let a = append_request (more_requests pool) n pool in
        let filled = fill_buf a.1 n buf in
        if pool.consumed == pool.limit
        then done (zero_bytes (bit_count / 64 + (if bit_count % 64 == 0 then 0 else 1)) buf, pool)
        else (if a.0 then filled else aborted)

    -- `theft_autoshrink_bit_pool_random`, as `theft_random_bits_bulk` calls it.
    unfoldable pub bit_pool_random : ℕ → List ℕ → Pool → R → Outcome (List ℕ × Pool × R)
    bit_pool_random bit_count buf pool r =
        let filled =
          if pool.shrinking then done (pool, r) else lazily_fill_bit_pool bit_count pool r in
        let got = filled >>= λ p. take_bits bit_count buf p.0 >>= λ q. done (q.0, q.1, p.1) in
        if bit_count == 0 then done (buf, pool, r) else got
