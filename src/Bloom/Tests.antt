-- ===== src/Bloom/Tests.antt =====
-- A small bloom filter: four blocks, and first filters of eight bits.
use theft.Base.{
  ℕ, ◌^◌, ◌≤◌, ◌≡◌, ◌≢◌, refl, inl, inr, arith, length, List, [], ◌∷◌, Bool, true, false,
}
use theft.Base.{Option, none, some, get_or, replicate, get_or-replicate}
use theft.Base.Words.{◌>>>◌}
use theft.Base.BitArray.{set_bit}
use theft.Hash.{onepass}
use theft.Bloom.{
  Filter, Bloom, Config, init, mark, check, block_id, mark_hash, front_block, grow, mark_loop,
  alloc_filter, hash_count,
}
use theft.Bloom.Valid.{IsValid}
use theft.Bloom.Laws.{mark-IsValid, check-mark, mark_all, check-mark_all, init-IsValid}
use theft.Bloom.Growth.{IsFitting, mark-IsFitting, mark_all-init, mark_aborts}

abbrev plenty : ℕ → Bool
plenty size = true

abbrev config : Config
config = record { top_block_bits = 2; min_filter_bits = 3 }

abbrev small : Bloom
small = record { top_block2 = 2; min_filter2 = 3; blocks = replicate 4 [] }

init-small : init plenty (some config) ≡ some small
unfolding init
init-small = refl

init-IsValid_example : IsValid small × (check small (5 ∷ []) ≡ false)
init-IsValid_example = init-IsValid plenty config small (5 ∷ []) (inr (omega arith)) init-small

small-IsValid : IsValid small
small-IsValid = (init-IsValid plenty config small [] (inr (omega arith)) init-small).0

abbrev data_one : List ℕ
data_one = 1 ∷ 2 ∷ []

abbrev data_two : List ℕ
data_two = 7 ∷ []

abbrev bloom_or : Bloom → Option (Bool × Bloom) → Bloom
bloom_or b none = b
bloom_or b (some r) = r.1

abbrev with_one : Bloom
with_one = bloom_or small (mark plenty small data_one)

marks_one : mark plenty small data_one ≡ some (true, with_one)
unfolding mark mark_hash front_block grow mark_loop alloc_filter set_bit onepass
marks_one = refl

check-mark_example : check with_one data_one ≡ true
check-mark_example = check-mark plenty small data_one with_one small-IsValid marks_one

-- What was never marked is not known.
check_two : check with_one data_two ≡ false
unfolding check mark mark_hash front_block grow mark_loop alloc_filter set_bit onepass
check_two = refl

one-IsValid : IsValid with_one
one-IsValid = mark-IsValid plenty small data_one true with_one small-IsValid marks_one

knows_one : check with_one data_one ≡ true
knows_one = check-mark plenty small data_one with_one small-IsValid marks_one

abbrev with_two : Bloom
with_two = bloom_or with_one (mark plenty with_one data_two)

marks_two : mark plenty with_one data_two ≡ some (true, with_two)
unfolding mark mark_hash front_block grow mark_loop alloc_filter set_bit onepass
marks_two = refl

abbrev with_more : Bloom
with_more = bloom_or with_two (mark plenty with_two data_one)

marks_more : mark_all plenty with_one (data_two ∷ data_one ∷ []) ≡ some with_more
unfolding mark_all mark mark_hash front_block grow mark_loop alloc_filter set_bit onepass
marks_more = refl

check-mark_all_example : IsValid with_more × (check with_more data_one ≡ true)
check-mark_all_example =
    check-mark_all plenty with_one (data_two ∷ data_one ∷ []) data_one with_more one-IsValid
      knows_one marks_more

-- A new filter with few block bits is fitting.
empty-IsFitting :
    (top : ℕ)
    → top ≤ 8
    → IsFitting (record { top_block2 = top; min_filter2 = 3; blocks = replicate (2 ^ top) [] })
empty-IsFitting top h = record {
  min_fits = omega arith;
  filters_fit = λ id. rw (get_or-replicate {A = List Filter} (2 ^ top) id []) tt;
}

-- The default nine block bits.
abbrev by_default : Bloom
by_default = record { top_block2 = 9; min_filter2 = 9; blocks = replicate 512 [] }

init-by_default :
    init plenty (some (record { top_block_bits = 0; min_filter_bits = 0 })) ≡ some by_default
unfolding init
init-by_default = refl

mark_all-init_example : mark_all plenty by_default (data_one ∷ data_two ∷ data_one ∷ []) ≢ none
mark_all-init_example =
    mark_all-init plenty plenty (record { top_block_bits = 0; min_filter_bits = 0 }) by_default
      (data_one ∷ data_two ∷ data_one ∷ []) (inl refl) (λ e. omega (arith, e)) (omega arith)
      init-by_default

-- Six block bits are no multiple of four.
abbrev six : Bloom
six = record { top_block2 = 6; min_filter2 = 3; blocks = replicate 64 [] }

init-six : init plenty (some (record { top_block_bits = 6; min_filter_bits = 3 })) ≡ some six
unfolding init
init-six = refl

marks_six : mark plenty six data_one ≡ some (true, bloom_or six (mark plenty six data_one))
unfolding mark mark_hash front_block grow mark_loop alloc_filter set_bit onepass
marks_six = refl

mark-IsFitting_example : IsFitting (bloom_or six (mark plenty six data_one))
mark-IsFitting_example =
    mark-IsFitting plenty six data_one true (bloom_or six (mark plenty six data_one))
      (init-IsValid plenty (record { top_block_bits = 6; min_filter_bits = 3 }) six []
        (inr (omega arith)) init-six).0
      (empty-IsFitting 6 (omega arith)) (λ e. omega (arith, e)) marks_six

-- A filter of 2 ^ 13 bits below eight block bits, in which all bits are set.
abbrev wide : Filter
wide = record { size2 = 13; bits = replicate 1024 255 }

abbrev full : Bloom
full = record { top_block2 = 8; min_filter2 = 9; blocks = replicate 256 (wide ∷ []) }

full_block : get_or full.blocks (block_id full (onepass data_two)) [] ≡ wide ∷ []
unfolding onepass
full_block = refl

full_count : length full.blocks ≡ 256
full_count = refl

full_bits : (mark_loop hash_count 0 (onepass data_two >>> 8) 13 false wide.bits).0 ≡ false
unfolding mark_loop set_bit onepass
full_bits = refl

mark_aborts_example :
    (b' : Bloom) × (mark plenty full data_two ≡ some (true, b')) × (mark plenty b' data_two ≡ none)
mark_aborts_example =
    mark_aborts plenty full data_two wide [] (λ n. refl) full_count full_block refl full_bits
