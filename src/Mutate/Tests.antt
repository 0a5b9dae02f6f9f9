-- ===== src/Mutate/Tests.antt =====
-- Mutations of a pool of three bytes, with three requests of eight bits.
use theft.Base.{ℕ, zero, suc, ◌+◌, ◌%◌, ◌^◌, ◌≡◌, refl, arith, List, [], ◌∷◌, inl, true}
use theft.Base.BitArray.{IsBytes}
use theft.Pool.{
  read_bits_at_offset, read_loop, write_bits_at_offset, write_loop, advance, cursor_at,
}
use theft.Model.{Model, Mutation, initial_weights, mutation_of, bit_count}
use theft.Mutate.{
  shift_request, region, swap_runs, mutate_request, build_index, popcount, popcount_from, log2ceil,
  log2ceil_from, mutate_bits, change_loop, choose_and_mutate_request, mutate_chosen,
  weighted_mutation, draw_weighted, fails_assertion, note_mutation, mask_request, draw_mask,
  sub_request, lower, swap_request, swap_search, max_changes_from, all_small, clamp_changes,
}
use theft.Mutate.Bytes.{mutate_bits-keeps}
use theft.Mutate.Kept.{Kept}
use theft.Base.{sum}
use theft.Base.{none, ◌<◌}
use theft.Base.Words.{pow-pos}
use native.Mathlib.Nat.{mod-lt}
use theft.Types.{Outcome, done, aborted, no_fuel}
use theft.Mutate.Lowered.{Lowered, mutate_request-Lowered}
use theft.Mutate.Swapped.{Exchanged, swap_runs-Exchanged}

abbrev pool : List ℕ
pool = 9 ∷ 0x0f ∷ 5 ∷ []

pool-IsBytes : IsBytes pool
pool-IsBytes zero = omega arith
pool-IsBytes (suc zero) = omega arith
pool-IsBytes (suc (suc zero)) = omega arith
pool-IsBytes (suc (suc (suc i))) = omega arith

abbrev eights : List ℕ
eights = 8 ∷ 8 ∷ 8 ∷ []

abbrev counting : ℕ → ℕ → ℕ × ℕ
counting bits w = (w % 2 ^ bits, w + 1)

-- The second byte shifted by one.
shifts : mutate_request counting Mutation.shift eights 1 pool 0 ≡ (true, 9 ∷ 0x07 ∷ 5 ∷ [], 1)
unfolding mutate_request shift_request region build_index read_bits_at_offset read_loop
    write_bits_at_offset write_loop advance cursor_at
shifts = refl

mutate_request-Lowered_example :
    Lowered pool
      (mutate_request counting Mutation.shift eights 1 pool 0).0
      (mutate_request counting Mutation.shift eights 1 pool 0).1
mutate_request-Lowered_example =
    mutate_request-Lowered counting Mutation.shift eights 1 pool 0 (λ e. cc) (omega arith)
      pool-IsBytes (omega arith)

-- The first byte is exchanged with the third.
swaps : swap_runs pool 0 16 8 ≡ (true, 5 ∷ 0x0f ∷ 9 ∷ [])
unfolding swap_runs read_bits_at_offset read_loop write_bits_at_offset write_loop advance cursor_at
swaps = refl

swap_runs-Exchanged_example : Exchanged pool 0 16 8 (swap_runs pool 0 16 8)
swap_runs-Exchanged_example =
    swap_runs-Exchanged pool 0 16 8 pool-IsBytes (omega arith) (omega arith) (inl (omega arith))

three_bits : popcount 0x49 ≡ 3
unfolding popcount popcount_from
three_bits = refl

seventeen : log2ceil 17 ≡ 5
unfolding log2ceil log2ceil_from
seventeen = refl

counting-lt : (bits w : ℕ) → (counting bits w).0 < 2 ^ bits
counting-lt bits w = mod-lt w {m = 2 ^ bits} (pow-pos bits)

abbrev fresh : Model
fresh = record { cur_tried = 0; cur_set = 0; next_action = none; weights = initial_weights }

abbrev result_or : Outcome (Model × List ℕ × ℕ) → Model × List ℕ × ℕ
result_or (done r) = r
result_or aborted = (fresh, pool, 0)
result_or no_fuel = (fresh, pool, 0)

abbrev mutated : Model × List ℕ × ℕ
mutated = result_or (mutate_bits counting counting 5 true eights fresh pool 3)

mutates :
    mutate_bits counting counting 5 true eights fresh pool 3
    ≡ done (mutated.0, mutated.1, mutated.2)
unfolding mutate_bits change_loop choose_and_mutate_request mutate_chosen weighted_mutation
    draw_weighted mutation_of bit_count fails_assertion note_mutation mutate_request shift_request
    mask_request draw_mask sub_request lower swap_request swap_search swap_runs region build_index
    read_bits_at_offset read_loop write_bits_at_offset write_loop advance cursor_at max_changes_from
    all_small clamp_changes popcount popcount_from log2ceil log2ceil_from
mutates = refl

mutate_bits-keeps_example : Kept (sum eights) pool mutated.1
mutate_bits-keeps_example =
    mutate_bits-keeps counting counting counting-lt true eights 5 fresh pool 3 mutated.0 mutated.1
      mutated.2 pool-IsBytes (omega arith) mutates
