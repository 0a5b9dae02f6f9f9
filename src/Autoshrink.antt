-- ===== src/Autoshrink.antt =====
-- src/theft_autoshrink.c: what it offers the runner: an instance made from a pool of random bits,
-- its hash, and a shrunk copy of the pool. An alloc callback is a `Gen`, the tree of its draws of
-- random bits. `W` is the state of the runner's generator: `next` is `theft_rng_random`, `random`
-- is `theft_random_bits`, and `prng` the generator of the autoshrink environment.
pub mod Attempt
pub mod Requests
pub mod Taking
pub mod Replay
pub mod Parts
pub mod Written
pub mod Drop
pub mod Copy
pub mod Indexed
pub mod Sound
mod Tests
use theft.Base.{
  ℕ, zero, suc, ◌+◌, ◌-◌, ◌*◌, ◌/◌, ◌%◌, ◌^◌, bit_and, bit_or, Bool, true, false, ◌&&◌, ◌||◌, not,
  Option, none, some, List, [], ◌∷◌, ◌++◌,
}
use theft.Base.{ltb, leb, ◌==◌, if◌then◌else◌, get_or, set, length, take, drop, replicate}
use theft.Types.{AllocRes, ShrinkRes, Outcome, done, aborted, no_fuel, ◌>>=◌}
use theft.Hash
use theft.Pool.{Pool, Cursor, advance, byte_size, truncate_trailing_zero_bytes}
use theft.Fill.{bit_pool_random}
use theft.Model.{Model, init_model, should_drop, weight_drop}
use theft.Mutate.{build_index, mutate_bits}

-- An alloc callback: it draws a number of bits into a buffer, and goes on with what it got.
pub data Gen (I : Type 0) : Type 0 where
  finish : AllocRes → I → Gen I
  draw : ℕ → List ℕ → (List ℕ → Gen I) → Gen I

-- What it changes of the runner's `prng`: whether a bit pool is injected, and the generator.
pub record Source (W : Type 0) : Type 0 where
  pub in_use : Bool
  pub state : W

-- `theft_random_inject_autoshrink_bit_pool` and `theft_random_stop_using_bit_pool`
abbrev pub inject : {W : Type 0} → Source W → Source W
inject s = record s { in_use = true }

abbrev pub stop_using : {W : Type 0} → Source W → Source W
stop_using s = record s { in_use = false }

abbrev pub is_some : {A : Type 0} → Option A → Bool
is_some none = false
is_some (some x) = true

-- `struct autoshrink_env`, without the way that it prints.
pub record Env : Type 0 where
  pub pool_size : ℕ
  pub pool_limit : ℕ
  pub max_failed_shrinks : ℕ
  pub drop_threshold : ℕ
  pub drop_bits : ℕ
  pub model : Model
  pub bit_pool : Option Pool
  pub leave_trailing_zeroes : Bool

abbrev pub def_pool_size : ℕ
def_pool_size = 64 * (8 * 8)

abbrev pub def_pool_limit : ℕ
def_pool_limit = 2 ^ 64 - 1

abbrev pub def_requests_ceil : ℕ
def_requests_ceil = 16

abbrev pub def_max_failed_shrinks : ℕ
def_max_failed_shrinks = 100

abbrev pub def_drop_bits : ℕ
def_drop_bits = 5

abbrev pub do_not_drop : ℕ
do_not_drop = 2 ^ 32 - 1

-- `theft_autoshrink_alloc_env`, with the settings of the type that it copies; `memory` is that for
-- the environment.
unfoldable pub alloc_env : Bool → ℕ → ℕ → Option Env
alloc_env memory pool_size max_failed_shrinks =
    let env : Env = record {
      pool_size = pool_size;
      pool_limit = 0;
      max_failed_shrinks = max_failed_shrinks;
      drop_threshold = 0;
      drop_bits = 0;
      model = record { weights = λ n. 0; cur_tried = 0; cur_set = 0; next_action = none };
      bit_pool = none;
      leave_trailing_zeroes = false;
    } in
    if memory then some env else none

-- `GET_DEF`
abbrev pub or_default : ℕ → ℕ → ℕ
or_default x d = if x == 0 then d else x

-- `get_aligned_size`
unfoldable pub aligned_size : ℕ → ℕ → ℕ
aligned_size size alignment =
    if size % alignment == 0 then size else size + (alignment - size % alignment)

-- A pool as `alloc_bit_pool` makes it.
abbrev pub new_pool : ℕ → ℕ → ℕ → Pool
new_pool size limit request_ceil = record {
  bits = replicate (aligned_size size 64 / 64 * 8) 0;
  shrinking = false;
  bits_filled = 0;
  bits_ceil = aligned_size size 64;
  limit = limit;
  consumed = 0;
  request_ceil = request_ceil;
  requests = [];
  generation = 0;
  index = none;
}

-- `alloc_bit_pool`; `memory` says whether its three buffers are given.
unfoldable pub alloc_bit_pool : Bool → ℕ → ℕ → ℕ → Option Pool
alloc_bit_pool memory size limit request_ceil =
    if memory then some (new_pool size limit request_ceil) else none

-- `theft_autoshrink_hash` for a type without a hash callback.
unfoldable pub hash : Pool → ℕ
hash pool =
    let h = Hash.sink Hash.init (take (pool.consumed / 8) pool.bits) in
    let rem_bits = pool.consumed % 8 in
    let last = bit_and (get_or pool.bits (pool.consumed / 8) 0) (2 ^ rem_bits - 1) in
    (Hash.done (if ltb 0 rem_bits then Hash.sink h (last ∷ []) else h)).0

-- Where the next bit goes in `drop_from_bit_pool`: its cursor, its offset, and the bits.
abbrev pub Sink : Type 0
Sink = Cursor × ℕ × List ℕ

-- One bit copied.
unfoldable pub put_bit : List ℕ → Cursor → Sink → Sink
put_bit orig src (dst, offset, bits) = (
  advance dst,
  offset + 1,
  if bit_and (get_or orig src.0 0) src.1 == 0
      then bits
      else set bits dst.0 (bit_or (get_or bits dst.0 0) dst.1),
)

-- The loops over the bits of a request, from bit `bi` on: those that are kept are copied.
unfoldable pub copy_bits : ℕ → ℕ → (ℕ → Bool) → List ℕ → Cursor → Sink → Cursor × Sink
copy_bits zero bi keep orig src dst = (src, dst)
copy_bits (suc left) bi keep orig src dst =
    copy_bits left (bi + 1) keep orig (advance src) (if keep bi then put_bit orig src dst else dst)

-- The bits of a large request that are kept.
abbrev pub outside : ℕ → ℕ → ℕ → Bool
outside drop_offset drop_size bi = ltb bi drop_offset || ltb ((drop_offset + drop_size) % 2 ^ 32) bi

module _ {W : Type 0} (prng : ℕ → W → ℕ × W) where
  -- What is kept of a request that is chosen.
  unfoldable pub kept_part : ℕ → W → (ℕ → Bool) × W
  kept_part size w =
      if ltb 64 size
      then (let o = prng 32 w in let s = prng 32 o.1 in (outside (o.0 % size) (s.0 % size), s.1))
      else ((λ bi. false), w)

  -- Whether a request is dropped, and what is kept of it.
  unfoldable pub choose_kept : Env → Bool → ℕ → W → (ℕ → Bool) × W
  choose_kept env is_chosen size w =
      let p = prng (or_default env.drop_bits def_drop_bits) w in
      if is_chosen
      then kept_part size w
      else (if leb p.0 env.drop_threshold then kept_part size p.1 else ((λ bi. true), p.1))

  -- The loop over the requests, from request `ri` on.
  unfoldable pub drop_requests : Env → ℕ → ℕ → List ℕ → List ℕ → Cursor → Sink → W → Sink × W
  drop_requests env ri to_drop [] orig src dst w = (dst, w)
  drop_requests env ri to_drop (size ∷ requests) orig src dst w =
      let k = choose_kept env (ri == to_drop) size w in
      let r = copy_bits size 0 k.0 orig src dst in
      drop_requests env (ri + 1) to_drop requests orig r.0 r.1 k.1

  -- The request that `drop_from_bit_pool` drops whatever else is drawn, for the number that it
  -- draws first.
  abbrev pub to_drop_of : List ℕ → ℕ → ℕ
  to_drop_of requests drawn =
      if not (drawn == do_not_drop) && ltb 0 (length requests)
      then drawn % length requests
      else drawn

  -- The default generator asserts that it is asked for at most 64 bits. What `drop_from_bit_pool`
  -- asks it for is set by the environment; it asks for each request but the one to drop. The other
  -- numbers of bits that the generator is asked for are no more than 64.
  unfoldable pub asks_too_many : Env → List ℕ → W → Bool
  asks_too_many env requests w =
      ltb 64 (or_default env.drop_bits def_drop_bits)
      && ltb (if ltb (to_drop_of requests (prng 32 w).0) (length requests) then 1 else 0)
          (length requests)

  -- `drop_from_bit_pool`
  unfoldable pub drop_from_bit_pool : Env → Pool → Pool → W → Pool × W
  drop_from_bit_pool env orig copy w =
      let p = prng 32 w in
      let to_drop = to_drop_of orig.requests p.0 in
      let r =
        drop_requests env 0 to_drop orig.requests orig.bits (0, 1) ((0, 1), 0, copy.bits) p.1 in
      (record copy { bits = r.0.2; bits_filled = r.0.1 }, r.1)

  module _ (random : ℕ → W → ℕ × W) where
    -- `mutate_bit_pool`; `in_use` says whether the runner draws from a pool, which fails an
    -- assertion.
    unfoldable pub mutate_bit_pool : ℕ → Bool → Pool → Model → Pool → W → Outcome (Pool × Model × W)
    mutate_bit_pool fuel in_use orig m pool w =
        let n = byte_size orig in
        let copied = take n orig.bits ++ drop n pool.bits in
        let nsize = orig.consumed + (orig.bits_filled - orig.consumed) / 2 in
        let mutated =
          mutate_bits prng random fuel (is_some orig.index) orig.requests m copied w >>= λ r. done (
            record pool {
              bits = r.1;
              bits_filled = orig.bits_filled;
              limit = if ltb nsize pool.limit then nsize else pool.limit;
            },
            r.0,
            r.2,
          ) in
        if in_use then aborted else mutated

    -- `theft_autoshrink_shrink` from the model on: the model and the copy once it is changed.
    unfoldable pub change_copy : ℕ → Bool → Env → Pool → Pool → W → Outcome (Pool × Model × W)
    change_copy fuel in_use env orig copy w =
        let cleared = record (env.model) { cur_tried = 0; cur_set = 0 } in
        let m = if cleared.weights weight_drop == 0 then init_model cleared else cleared in
        let p : ℕ × W = elim (m.next_action) [ none ↦ prng 8 w | some a ↦ (0, w) ] in
        let dropped = drop_from_bit_pool env orig copy p.1 in
        let noted = record m { cur_set = bit_or m.cur_set (2 ^ weight_drop) } in
        if should_drop m (length orig.requests) p.0
        then (if asks_too_many env orig.requests p.1
            then aborted
            else done (dropped.0, noted, dropped.1))
        else mutate_bit_pool fuel in_use orig m copy p.1

module _ {W : Type 0} (next : W → ℕ × W) (more_bits more_requests : Pool → Bool) where
  module _ (fresh : ℕ → List ℕ) {I : Type 0} where
    -- An alloc callback that draws from a pool, once it is injected.
    unfoldable pub run_gen : Gen I → Pool → W → Outcome (AllocRes × I × Pool × W)
    run_gen (finish res x) pool w = done (res, x, pool, w)
    run_gen (draw bit_count buf k) pool w =
        bit_pool_random next more_bits more_requests fresh bit_count buf pool w >>= λ q.
        run_gen (k q.0) q.1 q.2

    -- `alloc_from_bit_pool`
    unfoldable pub alloc_from_bit_pool :
        Gen I → Pool → Bool → Source W → Outcome (AllocRes × I × Pool × Source W)
    alloc_from_bit_pool gen pool shrinking s =
        let injected = inject s in
        run_gen gen (record pool { shrinking = shrinking }) injected.state >>= λ r.
        done (r.0, r.1, r.2, stop_using (record injected { state = r.3 }))

    -- `theft_autoshrink_alloc`; `memory` is that for the pool.
    unfoldable pub alloc :
        Bool → Env → Gen I → Source W → Outcome (AllocRes × Option I × Env × Source W)
    alloc memory env gen s =
        elim (alloc_bit_pool memory (or_default env.pool_size def_pool_size)
          (or_default env.pool_limit def_pool_limit) def_requests_ceil) [
            | none ↦ done (AllocRes.error, none, env, s)
            | some pool ↦ alloc_from_bit_pool gen pool false s >>= λ r. done (
              r.0,
              elim (r.0) [ AllocRes.ok ↦ some r.1 | _ ↦ none ],
              record env { bit_pool = some r.2 },
              r.3,
            )
          ]
