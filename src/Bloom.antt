-- ===== src/Bloom.antt =====
-- src/theft_bloom.c: the dynamic blocked bloom filter.
-- A block's linked list of filters is a list with the newest filter first; a NULL block is [].
-- `malloc` says, for the size asked of one call of an operation, whether memory is given.
pub mod Valid
pub mod Mark
pub mod Step
pub mod Laws
pub mod Growth
mod Tests
use theft.Base.{ℕ, zero, suc, ◌+◌, ◌-◌, ◌*◌, ◌/◌, ◌^◌, bit_and, Bool, true, false, not, ◌&&◌, ◌||◌}
use theft.Base.{Option, none, some, List, [], ◌∷◌, ltb, leb, ◌==◌, if◌then◌else◌}
use theft.Base.{get_or, set, replicate, length}
use theft.Base.Words.{low_mask, ◌>>>◌}
use theft.Base.BitArray.{test_bit, set_bit}
use theft.Hash.{onepass}

abbrev pub def_top_block_bits : ℕ
def_top_block_bits = 9

abbrev pub def_min_filter_bits : ℕ
def_min_filter_bits = 9

abbrev pub hash_count : ℕ
hash_count = 4

-- `struct bloom_filter`, without its `next` pointer.
pub record Filter : Type 0 where
  pub size2 : ℕ
  pub bits : List ℕ

-- `struct theft_bloom`
pub record Bloom : Type 0 where
  pub top_block2 : ℕ
  pub min_filter2 : ℕ
  pub blocks : List (List Filter)

-- `struct theft_bloom_config`
pub record Config : Type 0 where
  pub top_block_bits : ℕ
  pub min_filter_bits : ℕ

abbrev pub def_config : Config
def_config = record { top_block_bits = 0; min_filter_bits = 0 }

-- `DEF(X, DEFAULT)`
abbrev pub or_default : ℕ → ℕ → ℕ
or_default x d = if x == 0 then d else x

abbrev config_or_default : Option Config → Config
config_or_default none = def_config
config_or_default (some c) = c

-- `theft_bloom_init`; pointers and the two leading bytes are 8-aligned.
unfoldable pub init : (ℕ → Bool) → Option Config → Option Bloom
init malloc config =
    let c = config_or_default config in
    let top_block2 = or_default c.top_block_bits def_top_block_bits in
    let min_filter2 = or_default c.min_filter_bits def_min_filter_bits in
    if malloc (8 + 2 ^ top_block2 * 8)
    then some (record {
      top_block2 = top_block2;
      min_filter2 = min_filter2;
      blocks = replicate (2 ^ top_block2) [];
    })
    else none

-- `alloc_filter`
unfoldable pub alloc_filter : (ℕ → Bool) → ℕ → Option Filter
alloc_filter malloc bits =
    if malloc (16 + 2 ^ bits / 8)
    then some (record { size2 = bits; bits = replicate (2 ^ bits / 8) 0 })
    else none

abbrev pub block_id : Bloom → ℕ → ℕ
block_id b hash = bit_and hash (low_mask b.top_block2)

-- The bit that round `i` of the loops looks at.
abbrev pub probe : ℕ → ℕ → ℕ → ℕ
probe hash size2 i = bit_and (hash >>> (i * size2)) (low_mask size2)

-- The marking loop, with the rounds left and the next `i`: whether any bit was new, and the bits.
unfoldable pub mark_loop : ℕ → ℕ → ℕ → ℕ → Bool → List ℕ → Bool × List ℕ
mark_loop zero i hash size2 any_set bits = (any_set, bits)
mark_loop (suc left) i hash size2 any_set bits =
    let v = probe hash size2 i in
    mark_loop left (i + 1) hash size2 (not (test_bit bits v) || any_set) (set_bit bits v)

-- The block that `mark` works on, with a first filter allocated if it was NULL.
unfoldable pub front_or_alloc : (ℕ → Bool) → ℕ → List Filter → Option (Filter × List Filter)
front_or_alloc malloc min2 (bf ∷ rest) = some (bf, rest)
front_or_alloc malloc min2 [] = elim (alloc_filter malloc min2) [
  | none ↦ none
  | some bf ↦ some (bf, [])
]

unfoldable pub front_block : (ℕ → Bool) → Bloom → ℕ → Option (Filter × List Filter)
unfolding front_or_alloc alloc_filter
front_block malloc b id = front_or_alloc malloc b.min_filter2 (get_or b.blocks id [])

-- The end of `mark`: a filter in which all bits were set already gets a larger one before it.
unfoldable pub grow : (ℕ → Bool) → Bloom → ℕ → Bool → Filter → List Filter → Bool × Bloom
grow malloc b id any_set bf rest =
    let b' = record b { blocks = set b.blocks id (bf ∷ rest) } in
    if any_set
    then (true, b')
    else (if ltb 64 (b.top_block2 + hash_count * (bf.size2 + 1))
        then (true, b')
        else elim (alloc_filter malloc (bf.size2 + 1)) [
          | none ↦ (false, b')
          | some nbf ↦ (true, record b { blocks = set b.blocks id (nbf ∷ bf ∷ rest) })
        ])

-- `theft_bloom_mark` from the hash on. `none` is its failed assertion that all checks can be
-- done with one 64-bit hash.
unfoldable pub mark_hash : (ℕ → Bool) → Bloom → ℕ → Option (Bool × Bloom)
mark_hash malloc b hash = elim (front_block malloc b (block_id b hash)) [
  | none ↦ some (false, b)
  | some (bf, rest) ↦
      if ltb (b.top_block2 + hash_count * bf.size2) 64
      then (let marked = mark_loop hash_count 0 (hash >>> b.top_block2) bf.size2 false bf.bits in
          some (
            grow malloc b (block_id b hash) marked.0 (record { size2 = bf.size2; bits = marked.1 })
              rest))
      else none
]

unfoldable pub mark : (ℕ → Bool) → Bloom → List ℕ → Option (Bool × Bloom)
mark malloc b bytes = mark_hash malloc b (onepass bytes)

-- The inner loop of `theft_bloom_check`: are all bits set, from round `i` on?
unfoldable pub hit_all : ℕ → ℕ → ℕ → Filter → Bool
hit_all zero i hash bf = true
hit_all (suc left) i hash bf =
    test_bit bf.bits (probe hash bf.size2 i) && hit_all left (i + 1) hash bf

-- Its outer loop: the first filter that matches answers.
unfoldable pub check_block : ℕ → List Filter → Bool
check_block hash [] = false
check_block hash (bf ∷ rest) = hit_all hash_count 0 hash bf || check_block hash rest

unfoldable pub check_hash : Bloom → ℕ → Bool
unfolding check_block hit_all
check_hash b hash = check_block (hash >>> b.top_block2) (get_or b.blocks (block_id b hash) [])

unfoldable pub check : Bloom → List ℕ → Bool
unfolding check_hash
check b bytes = check_hash b (onepass bytes)
