-- ===== src/Mutate.antt =====
-- src/theft_autoshrink.c: the mutations of a bit pool, from `choose_and_mutate_request`.
-- The index that `offset_of_pos` reads is what `build_index` makes, and is made again here where it
-- is read. `prng` is the generator of the autoshrink environment and `random` is
-- `theft_random_bits`, both as functions of a number of bits and of the state that they change.
pub mod Lowered
pub mod Swapped
pub mod Kept
pub mod Bytes
pub mod Asserted
mod Tests
use theft.Base.{
  ℕ, zero, suc, ◌+◌, ◌-◌, ◌*◌, ◌%◌, ◌/◌, ◌^◌, bit_and, bit_or, Bool, true, false, not, ◌&&◌, ◌||◌,
}
use theft.Base.{
  ltb, leb, ◌==◌, if◌then◌else◌, List, [], ◌∷◌, get_or, drop, length, Option, none, some,
}
use theft.Base.Bytes.{bit_set}
use theft.Base.Words.{u64, ◌>>>◌}
use theft.Types.{Outcome, done, aborted, no_fuel, ◌>>=◌}
use theft.Model.{
  Model, Action, Mutation, mutation_of, bit_count, weight_shift, weight_mask, weight_swap,
  weight_sub,
}
use theft.Pool.{read_bits_at_offset, write_bits_at_offset}

-- `build_index`: the offset of each request, the sum of those before it.
unfoldable pub build_index : ℕ → List ℕ → List ℕ
build_index total [] = []
build_index total (size ∷ requests) = total ∷ build_index (total + size) requests

-- `offset_of_pos`
abbrev pub offset_of_pos : List ℕ → ℕ → ℕ
offset_of_pos requests pos = get_or (build_index 0 requests) pos 0

-- `log2ceil`; 64 rounds are enough for a `size_t`.
unfoldable pub log2ceil_from : ℕ → ℕ → ℕ → ℕ
log2ceil_from zero res value = res
log2ceil_from (suc left) res value =
    let more = log2ceil_from left (res + 1) value in if ltb (2 ^ res) value then more else res

unfoldable pub log2ceil : ℕ → ℕ
log2ceil value = log2ceil_from 64 0 value

-- What `case MUT_SUB` makes of a number above 0.
unfoldable pub lower : ℕ → ℕ → ℕ
lower bits sub = if sub % bits == 0 then bits - 1 else bits - sub % bits

-- The loop that makes two blocks fit in a request; eight rounds are enough for six bits.
unfoldable pub fit_blocks : ℕ → ℕ → ℕ → ℕ
fit_blocks zero size to_swap = to_swap
fit_blocks (suc left) size to_swap =
    let less = fit_blocks left size (to_swap / 2) in
    if leb size (2 * to_swap) then less else to_swap

-- Two runs of the same width exchanged, if that makes the first one smaller.
unfoldable pub swap_runs : List ℕ → ℕ → ℕ → ℕ → Bool × List ℕ
swap_runs pool first second size =
    let a = read_bits_at_offset pool first size in
    let b = read_bits_at_offset pool second size in
    if ltb b a
    then (true, write_bits_at_offset (write_bits_at_offset pool first size b) second size a)
    else (false, pool)

-- The search of `case MUT_SWAP` for a smaller request of the same size, in the requests after
-- the one at `bit_offset`; the first of them is at `other_offset`.
unfoldable pub swap_search : ℕ → ℕ → ℕ → List ℕ → List ℕ → Bool × List ℕ
swap_search bit_offset size other_offset [] pool = (false, pool)
swap_search bit_offset size other_offset (other ∷ requests) pool =
    let rest = swap_search bit_offset size (other_offset + other) requests pool in
    let r = swap_runs pool bit_offset other_offset size in if other == size && r.0 then r else rest

-- `popcount`
unfoldable pub popcount_from : ℕ → ℕ → ℕ → ℕ
popcount_from zero i value = 0
popcount_from (suc left) i value =
    (if bit_set value i then 1 else 0) + popcount_from left (i + 1) value

unfoldable pub popcount : ℕ → ℕ
popcount value = popcount_from 64 0 value

-- The number of bits that `mutate_bit_pool` draws for its changes.
unfoldable pub max_changes_from : ℕ → ℕ → ℕ → ℕ
max_changes_from zero max_changes request_count = max_changes
max_changes_from (suc left) max_changes request_count =
    let more = max_changes_from left (max_changes + 1) request_count in
    if ltb (2 ^ max_changes) request_count then more else max_changes

unfoldable pub all_small : List ℕ → Bool
all_small [] = true
all_small (size ∷ requests) = if ltb 64 size then false else all_small requests

unfoldable pub clamp_changes : ℕ → List ℕ → ℕ
clamp_changes change_count requests =
    if ltb (length requests) change_count && all_small requests
    then length requests
    else change_count

-- The flag of a mutation, as the number of its bit.
abbrev pub flag : Mutation → ℕ
flag Mutation.shift = weight_shift
flag Mutation.mask = weight_mask
flag Mutation.swap = weight_swap
flag Mutation.sub = weight_sub

-- The model after a mutation: it was tried, and set if it changed the bits.
unfoldable pub note_mutation : Mutation → Bool → Model → Model
note_mutation k changed m = record m {
  cur_tried = bit_or m.cur_tried (2 ^ flag k);
  cur_set = if changed then bit_or m.cur_set (2 ^ flag k) else m.cur_set;
}

module _ {W : Type 0} (prng : ℕ → W → ℕ × W) where
  -- What a mutation returns: whether it changed the bits, and the bits.
  abbrev pub Mutated : Type 0
  Mutated = Bool × List ℕ × W

  -- The part of a request that is to change: its position, and its width. A request of at most
  -- 64 bits is changed as a whole.
  unfoldable pub region : ℕ → W → ℕ × ℕ × W
  region size w =
      if ltb 64 size
      then (let p = prng 32 w in
          let c = prng 6 p.1 in
          let pos = p.0 % size in (pos, if ltb (size - pos) c.0 then size - pos else c.0, c.1))
      else (0, size, w)

  -- `case MUT_SHIFT`
  unfoldable pub shift_request : ℕ → ℕ → List ℕ → W → Mutated
  shift_request bit_offset size pool w =
      let s = prng 2 w in
      let r = region size s.1 in
      let bits = read_bits_at_offset pool (bit_offset + r.0) r.1 in
      let nbits = bits >>> (s.0 + 1) in
      (not (bits == nbits), write_bits_at_offset pool (bit_offset + r.0) r.1 nbits, r.2)

  -- The mask of `case MUT_MASK`. A mask of 64 ones has the bits below a random one cleared.
  unfoldable pub draw_mask : ℕ → W → ℕ × W
  draw_mask mask_size w =
      let a = prng mask_size w in
      let b = prng mask_size a.1 in
      let mask = bit_or a.0 b.0 in
      if mask == 2 ^ 64 - 1
      then (let c = prng 8 b.1 in (bit_and mask (u64 (2 ^ 64 - 2 ^ (c.0 % mask_size))), c.1))
      else (mask, b.1)

  -- `case MUT_MASK`
  unfoldable pub mask_request : ℕ → ℕ → List ℕ → W → Mutated
  mask_request bit_offset size pool w =
      let m = draw_mask (if leb size 64 then size else 64) w in
      let r = region size m.1 in
      let bits = read_bits_at_offset pool (bit_offset + r.0) r.1 in
      let nbits = bit_and bits m.0 in
      (not (bits == nbits), write_bits_at_offset pool (bit_offset + r.0) r.1 nbits, r.2)

  -- `case MUT_SUB`
  unfoldable pub sub_request : ℕ → ℕ → List ℕ → W → Mutated
  sub_request bit_offset size pool w =
      let s = prng (if leb size 64 then size else 64) w in
      let r = region size s.1 in
      let bits = read_bits_at_offset pool (bit_offset + r.0) r.1 in
      if ltb 0 bits
      then (true, write_bits_at_offset pool (bit_offset + r.0) r.1 (lower bits s.0), r.2)
      else (false, pool, r.2)

  -- `case MUT_SWAP` for a request of more than 64 bits.
  unfoldable pub swap_blocks : ℕ → ℕ → List ℕ → W → Mutated
  swap_blocks bit_offset size pool w =
      let n = prng 6 w in
      let to_swap = fit_blocks 8 size n.0 in
      if to_swap == 0
      then (false, pool, n.1)
      else (let p = prng 32 n.1 in
          let q = prng 32 p.1 in
          let pos_a = p.0 % (size - to_swap) in
          let pos_b = q.0 % (size - 2 * to_swap) in
          if ltb pos_a pos_b && ltb pos_b (pos_a + to_swap)
            || ltb pos_b pos_a && ltb pos_a (pos_b + to_swap)
          then (false, pool, q.1)
          else (let r = swap_runs pool (bit_offset + pos_a) (bit_offset + pos_b) to_swap in
              (r.0, r.1, q.1)))

  -- `assert(size > 0)` of `case MUT_SWAP`, and for a request of more than 64 bits
  -- `assert(size - 2*to_swap > 0)`, an unsigned difference that fails only at 0.
  unfoldable pub fails_assertion : Mutation → ℕ → W → Bool
  fails_assertion Mutation.swap size w =
      let to_swap = fit_blocks 8 size (prng 6 w).0 in
      size == 0 || (ltb 64 size && not (to_swap == 0) && size == 2 * to_swap)
  fails_assertion _ size w = false

  -- `case MUT_SWAP`, at position `pos` of the requests.
  unfoldable pub swap_request : List ℕ → ℕ → ℕ → ℕ → List ℕ → W → Mutated
  swap_request requests pos bit_offset size pool w =
      if ltb 64 size
      then swap_blocks bit_offset size pool w
      else (let r =
            swap_search bit_offset size (bit_offset + size) (drop (pos + 1) requests) pool in
          (r.0, r.1, w))

  -- The `switch (mtype)`.
  unfoldable pub mutate_request : Mutation → List ℕ → ℕ → List ℕ → W → Mutated
  mutate_request Mutation.shift requests pos pool w =
      shift_request (offset_of_pos requests pos) (get_or requests pos 0) pool w
  mutate_request Mutation.mask requests pos pool w =
      mask_request (offset_of_pos requests pos) (get_or requests pos 0) pool w
  mutate_request Mutation.swap requests pos pool w =
      swap_request requests pos (offset_of_pos requests pos) (get_or requests pos 0) pool w
  mutate_request Mutation.sub requests pos pool w =
      sub_request (offset_of_pos requests pos) (get_or requests pos 0) pool w

  -- `choose_and_mutate_request` once the mutation is chosen: the position, and the mutation there.
  -- `has_index` says whether the original has an index, which `offset_of_pos` asserts.
  unfoldable pub mutate_chosen :
      Bool → List ℕ → Model → List ℕ → Mutation → W → Outcome (Bool × Model × List ℕ × W)
  mutate_chosen has_index requests m pool k w =
      if length requests == 0
      then done (false, m, pool, w)
      else (let p = prng (log2ceil (length requests)) w in
          let pos = p.0 % length requests in
          let r = mutate_request k requests pos pool p.1 in
          if not has_index || fails_assertion k (get_or requests pos 0) p.1
          then aborted
          else done (r.0, note_mutation k r.0 m, r.1, r.2))

  module _ (random : ℕ → W → ℕ × W) where
    -- The loop of `get_weighted_mutation`, which draws with `theft_random_bits` until a draw names
    -- a mutation.
    unfoldable pub draw_weighted : ℕ → (ℕ → ℕ) → W → Outcome (Mutation × W)
    draw_weighted zero weights w = no_fuel
    draw_weighted (suc fuel) weights w =
        let r = random (bit_count weights) w in
        elim (mutation_of weights r.0) [
          | some k ↦ done (k, r.1)
          | none ↦ draw_weighted fuel weights r.1
        ]

    -- `get_weighted_mutation`. A scheduled DROP fails an assertion, as more than 16 bits do.
    unfoldable pub weighted_mutation : ℕ → Model → W → Outcome (Mutation × W)
    weighted_mutation fuel m w = elim (m.next_action) [
      | none ↦
          let drawn = draw_weighted fuel m.weights w in
          if leb (bit_count m.weights) 16 then drawn else aborted
      | some Action.drop ↦ aborted
      | some Action.shift ↦ done (Mutation.shift, w)
      | some Action.mask ↦ done (Mutation.mask, w)
      | some Action.swap ↦ done (Mutation.swap, w)
      | some Action.sub ↦ done (Mutation.sub, w)
    ]

    -- `choose_and_mutate_request`
    unfoldable pub choose_and_mutate_request :
        ℕ → Bool → List ℕ → Model → List ℕ → W → Outcome (Bool × Model × List ℕ × W)
    choose_and_mutate_request fuel has_index requests m pool w =
        weighted_mutation fuel m w >>= λ k. mutate_chosen has_index requests m pool k.0 k.1

    -- The loop of `mutate_bit_pool`, with the tries and the changes left.
    unfoldable pub change_loop :
        ℕ → Bool → ℕ → ℕ → List ℕ → Model → List ℕ → W → Outcome (Model × List ℕ × W)
    change_loop fuel has_index zero changes requests m pool w = done (m, pool, w)
    change_loop fuel has_index (suc tries) changes requests m pool w =
        choose_and_mutate_request fuel has_index requests m pool w >>= λ r.
        let again = change_loop fuel has_index tries changes requests r.1 r.2 r.3 in
        let fewer = change_loop fuel has_index tries (changes - 1) requests r.1 r.2 r.3 in
        if r.0 then (if changes == 1 then done (r.1, r.2, r.3) else fewer) else again

    -- `mutate_bit_pool` from the number of changes on; `pool` is the copy of the original bits.
    unfoldable pub mutate_bits :
        ℕ → Bool → List ℕ → Model → List ℕ → W → Outcome (Model × List ℕ × W)
    mutate_bits fuel has_index requests m pool w =
        let c = prng (max_changes_from 64 5 (length requests)) w in
        let change_count = clamp_changes (popcount c.0 + 1) requests in
        change_loop fuel has_index (10 * change_count) change_count requests m pool c.1
