-- ===== src/Autoshrink/Tests.antt =====
-- src/theft_autoshrink.c at a small pool: an alloc callback that draws three bits, again from a
-- shrunk pool, and bits that are dropped.
use theft.Base.{
  ℕ, zero, suc, ◌+◌, ◌^◌, ◌%◌, ◌≤◌, ◌≡◌, refl, arith, Bool, true, false, Option, none, List, [],
  ◌∷◌,
}
use theft.Base.{get_or, length, replicate, sum, length-replicate}
use theft.Base.BitArray.{IsBytes, test_bit-replicate, replicate-IsBytes}
use theft.Base.{◌<◌, some}
use theft.Base.Words.{pow-pos}
use native.Mathlib.Nat.{mod-lt}
use theft.Types.{AllocRes, Outcome, done, Finishes, Survives}
use theft.Random.{get_mask}
use theft.Pool.{Pool, append_request}
use theft.Fill.{
  word_from, write_bytes, copy_size, fill_loop, fill_buf, grow_loop, fill_words,
  lazily_fill_bit_pool, take_bits, bit_pool_random,
}
use theft.Fill.Buffer.{Spells}
use theft.Fill.Loop.{fill_buf-Spells}
use theft.Fill.Supply.{IsPool, IsGranted}
use theft.Fill.Taken.{Keeps, bit_pool_random-Keeps}
use theft.Autoshrink.{
  Gen, finish, draw, Env, new_pool, aligned_size, run_gen, alloc_from_bit_pool, alloc, Source,
  drop_from_bit_pool,
}
use theft.Autoshrink.Attempt.{shrink}
use theft.Autoshrink.Sound.{unused, IsSound, shrink-IsSound}
use theft.Autoshrink.Requests.{IsRoomy, HasPool, alloc-HasPool}
use theft.Autoshrink.Replay.{alloc-replays}
use theft.Autoshrink.Parts.{IsPart, bits_from}
use theft.Autoshrink.Drop.{drop-IsPart}

abbrev counting : ℕ → ℕ × ℕ
counting r = (r, r + 1)

abbrev always : Pool → Bool
always pool = true

abbrev zeros : ℕ → List ℕ
zeros n = replicate n 0

granted : IsGranted always always zeros
granted = record {
  bits = λ pool. refl;
  requests = λ pool. refl;
  fresh_length = λ n. length-replicate {A = ℕ} n 0;
  fresh_bytes = replicate-IsBytes;
}

-- Two draws; the instance is what the second of them gives.
abbrev gen : Gen ℕ
gen = draw 3 (0 ∷ []) λ b. draw 5 (0 ∷ []) λ c. finish AllocRes.ok (get_or c 0 0)

abbrev pool : Pool
pool = new_pool 64 100 16

pool-IsPool : IsPool (record pool { shrinking = false })
unfolding aligned_size
pool-IsPool = record {
  buffer = record {
    bytes = replicate-IsBytes 8;
    size = refl;
    aligned = refl;
    filled = omega arith;
  };
  counted = refl;
  positive = tt;
  within = omega arith;
  supplied = omega arith;
  shrunk = λ e. cc;
  live = λ e. (refl, omega arith);
}

abbrev result_or : {A : Type 0} → A → Outcome A → A
result_or x (done r) = r
result_or x _ = x

abbrev first : AllocRes × ℕ × Pool × Source ℕ
first =
    result_or (AllocRes.error, 0, pool, unused 0)
      (alloc_from_bit_pool counting always always zeros gen pool false (unused 77))

first-gives :
    alloc_from_bit_pool counting always always zeros gen pool false (unused 77)
    ≡ done (AllocRes.ok, 9, first.2, unused 78)
unfolding alloc_from_bit_pool run_gen bit_pool_random lazily_fill_bit_pool grow_loop fill_words
    take_bits append_request fill_buf fill_loop copy_size word_from write_bytes aligned_size
    get_mask
first-gives = refl

-- A shrinking pool with the bits that were consumed, and no more.
abbrev shrunk : Pool
shrunk = record {
  bits = first.2.bits;
  shrinking = true;
  bits_filled = 8;
  bits_ceil = 64;
  limit = 8;
  consumed = 0;
  request_ceil = 16;
  requests = [];
  generation = 1;
  index = none;
}

shrunk-IsPool : IsPool (record shrunk { shrinking = true })
unfolding alloc_from_bit_pool run_gen bit_pool_random lazily_fill_bit_pool grow_loop fill_words
    take_bits append_request fill_buf fill_loop copy_size word_from write_bytes aligned_size
    get_mask
shrunk-IsPool = record {
  buffer = record { bytes = bytes; size = refl; aligned = refl; filled = omega arith };
  counted = refl;
  positive = tt;
  within = omega arith;
  supplied = omega arith;
  shrunk = λ e. omega arith;
  live = λ e. cc;
}
  where
    bytes : IsBytes (77 ∷ 0 ∷ 0 ∷ 0 ∷ 0 ∷ 0 ∷ 0 ∷ 0 ∷ [])
    bytes zero = omega arith
    bytes (suc i) = replicate-IsBytes 7 i

gen-IsRoomy : IsRoomy gen
gen-IsRoomy = (omega arith, λ b. (omega arith, λ c. tt))

alloc-replays_example :
    (q' : Pool) × (alloc_from_bit_pool counting always always zeros gen shrunk true (unused 5)
      ≡ done (AllocRes.ok, 9, q', unused 5))
    × (q'.consumed ≡ first.2.consumed)
unfolding alloc_from_bit_pool run_gen bit_pool_random lazily_fill_bit_pool grow_loop fill_words
    take_bits append_request fill_buf fill_loop copy_size word_from write_bytes aligned_size
    get_mask
alloc-replays_example =
    alloc-replays counting always always zeros granted gen pool shrunk first.2 (unused 77)
      (unused 78) (unused 5) AllocRes.ok 9 gen-IsRoomy pool-IsPool shrunk-IsPool refl
      (λ w below. refl) (omega arith) (omega arith) first-gives

-- The environment of an argument before its pool is made.
abbrev env : Env
env = record {
  pool_size = 0;
  pool_limit = 100;
  max_failed_shrinks = 0;
  drop_threshold = 0;
  drop_bits = 0;
  model = record { weights = λ n. 0; cur_tried = 0; cur_set = 0; next_action = none };
  bit_pool = none;
  leave_trailing_zeroes = false;
}

alloc-HasPool_example :
    (r : AllocRes × Option ℕ × Env × Source ℕ) × (alloc counting always always zeros true env gen
        (unused 77)
      ≡ done r)
    × HasPool r.2
alloc-HasPool_example =
    alloc-HasPool counting always always zeros granted env gen (unused 77) gen-IsRoomy

fill_buf-Spells_example :
    Finishes
      (λ r.
        Spells shrunk.bits shrunk.consumed 5 r.0
        × (r.1 ≡ record shrunk { consumed = shrunk.consumed + 5 }))
      (fill_buf shrunk 5 (0 ∷ []))
fill_buf-Spells_example =
    fill_buf-Spells shrunk 5 (0 ∷ []) shrunk-IsPool.buffer.bytes (omega arith) (omega arith)

bit_pool_random-Keeps_example :
    Finishes
      (λ q. Keeps shrunk q.1)
      (bit_pool_random counting always always zeros 5 (0 ∷ []) shrunk 5)
bit_pool_random-Keeps_example =
    bit_pool_random-Keeps counting always always zeros granted 5 (0 ∷ []) shrunk 5 shrunk-IsPool
      (omega arith)

abbrev remainder : ℕ → ℕ → ℕ × ℕ
remainder bits w = (w % 2 ^ bits, w + 1)

-- Of requests of 3 and 5 bits, one is dropped.
drop-IsPart_example :
    let dropped = (drop_from_bit_pool remainder env first.2 pool 3).0 in
    IsPart
      (bits_from dropped.bits dropped.bits_filled 0)
      (bits_from first.2.bits (sum first.2.requests) 0)
    × (dropped.bits_filled ≤ sum first.2.requests)
    × IsBytes dropped.bits
    × (length dropped.bits ≡ length pool.bits)
unfolding alloc_from_bit_pool run_gen bit_pool_random lazily_fill_bit_pool grow_loop fill_words
    take_bits append_request fill_buf fill_loop copy_size word_from write_bytes aligned_size
    get_mask
drop-IsPart_example =
    drop-IsPart remainder env first.2 pool 3 (replicate-IsBytes 8) (test_bit-replicate 8)
      (omega arith)

remainder-lt : (bits w : ℕ) → (remainder bits w).0 < 2 ^ bits
remainder-lt bits w = mod-lt w {m = 2 ^ bits} (pow-pos bits)

-- The pool that the first instance left, and its environment.
abbrev used : Pool
used = record {
  bits = 77 ∷ 0 ∷ 0 ∷ 0 ∷ 0 ∷ 0 ∷ 0 ∷ 0 ∷ [];
  shrinking = false;
  bits_filled = 64;
  bits_ceil = 64;
  limit = 100;
  consumed = 8;
  request_ceil = 16;
  requests = 3 ∷ 5 ∷ [];
  generation = 0;
  index = none;
}

used-IsPool : IsPool used
used-IsPool = record {
  buffer = record { bytes = bytes; size = refl; aligned = refl; filled = omega arith };
  counted = refl;
  positive = (omega arith, (omega arith, tt));
  within = omega arith;
  supplied = omega arith;
  shrunk = λ e. cc;
  live = λ e. (refl, omega arith);
}
  where
    bytes : IsBytes used.bits
    bytes zero = omega arith
    bytes (suc i) = replicate-IsBytes 7 i

abbrev used_env : Env
used_env = record env { bit_pool = some used }

shrink-IsSound_example :
    Survives (IsSound counting remainder remainder remainder-lt always always zeros granted) (
      shrink counting remainder remainder always always zeros 5 true true used_env 0 gen (unused 3))
shrink-IsSound_example =
    shrink-IsSound counting remainder remainder remainder-lt always always zeros granted 5 true true
      used_env 0 gen 3 (used, refl, used-IsPool) ((λ n. omega arith), omega arith) refl gen-IsRoomy
