-- ===== src/Autoshrink/Requests.antt =====
-- src/theft_autoshrink.c, `theft_autoshrink_alloc`: the pool that an alloc callback leaves.
use theft.Base.{
  ℕ, ◌+◌, ◌*◌, ◌/◌, ◌%◌, ◌<◌, ◌≤◌, ◌≡◌, refl, arith, Bool, false, true, Option, some, List,
}
use theft.Base.{length, length-replicate}
use theft.Base.BitArray.{replicate-IsBytes}
use theft.Types.{AllocRes, done, Finishes, Finishes-bind, Finishes-done, Finishes-weaken}
use theft.Pool.{Pool}
use theft.Fill.{bit_pool_random}
use theft.Fill.Supply.{IsBuffer, IsPool, IsGranted}
use theft.Fill.Taken.{Keeps, Keeps-trans, bit_pool_random-Keeps}
use theft.Autoshrink.{
  Gen, finish, draw, Env, or_default, def_pool_size, def_pool_limit, def_requests_ceil,
  aligned_size, new_pool, alloc_bit_pool, run_gen, alloc_from_bit_pool, alloc, Source,
}

-- Every buffer that an alloc callback draws into has room for the bits.
abbrev pub IsRoomy : {I : Type 0} → Gen I → Type 0
IsRoomy (finish res x) = Unit
IsRoomy (draw bit_count buf k) = (bit_count ≤ 64 * length buf) × ((got : List ℕ) → IsRoomy (k got))

pub aligned_size_lem :
    (size : ℕ)
    → (aligned_size size 64 % 64 ≡ 0)
      × (size ≤ aligned_size size 64)
      × (aligned_size size 64 < size + 64)
unfolding aligned_size
aligned_size_lem size = ground arith

pub new_pool-IsBuffer : (size limit request_ceil : ℕ) → IsBuffer (new_pool size limit request_ceil)
new_pool-IsBuffer size limit request_ceil =
    let whole = aligned_size_lem size in
    record {
      bytes = replicate-IsBytes (aligned_size size 64 / 64 * 8);
      size = omega (arith, length-replicate {A = ℕ} (aligned_size size 64 / 64 * 8) 0, whole);
      aligned = whole.0;
      filled = omega arith;
    }

-- The environment's pool.
abbrev pub HasPool : Env → Type 0
HasPool env = (pool : Pool) × (env.bit_pool ≡ some pool) × IsPool pool

module _ {W : Type 0} (next : W → ℕ × W) (more_bits more_requests : Pool → Bool)
    (fresh : ℕ → List ℕ) (granted : IsGranted more_bits more_requests fresh) {I : Type 0} where
  pub run_gen-Keeps :
      (gen : Gen I) (pool : Pool) (w : W)
      → IsPool pool
      → IsRoomy gen
      → Finishes (λ r. Keeps pool r.2) (run_gen next more_bits more_requests fresh gen pool w)
  unfolding run_gen
  run_gen-Keeps (finish res x) pool w v room =
      (v, (λ u below. refl), omega arith, refl, refl, omega arith)
  run_gen-Keeps (draw bit_count buf k) pool w v room =
      Finishes-bind (λ q. Keeps pool q.1) (λ r. Keeps pool r.2)
        (bit_pool_random next more_bits more_requests fresh bit_count buf pool w) _
        (bit_pool_random-Keeps next more_bits more_requests fresh granted bit_count buf pool w v
          room.0)
        λ q h.
          Finishes-weaken (λ r. Keeps q.1 r.2) (λ r. Keeps pool r.2)
            (run_gen next more_bits more_requests fresh (k q.0) q.1 q.2)
            (λ r h'. Keeps-trans pool q.1 r.2 h h') (run_gen-Keeps (k q.0) q.1 q.2 h.0 (room.1 q.0))

  alloc-Finishes :
      (env : Env) (gen : Gen I) (s : Source W)
      → IsRoomy gen
      → Finishes (λ r. HasPool r.2) (alloc next more_bits more_requests fresh true env gen s)
  unfolding alloc alloc_bit_pool alloc_from_bit_pool
  alloc-Finishes env gen s room =
      let size = or_default env.pool_size def_pool_size in
      let limit = or_default env.pool_limit def_pool_limit in
      let fresh_pool = new_pool size limit def_requests_ceil in
      let whole = aligned_size_lem size in
      Finishes-bind (λ r. Keeps fresh_pool r.2) (λ r. HasPool r.2)
        (alloc_from_bit_pool next more_bits more_requests fresh gen fresh_pool false s) _
        (Finishes-bind (λ r. Keeps fresh_pool r.2) (λ r. Keeps fresh_pool r.2)
          (run_gen next more_bits more_requests fresh gen fresh_pool s.state) _
          (run_gen-Keeps gen fresh_pool s.state
            (record {
              buffer = new_pool-IsBuffer size limit def_requests_ceil;
              counted = refl;
              positive = tt;
              within = omega arith;
              supplied = omega arith;
              shrunk = λ e. cc;
              live = λ e. (refl, omega (arith, whole, given env.pool_size));
            })
            room)
          (λ r h. h))
        λ r h. (r.2, refl, h.0)
    where
      given : (x : ℕ) → 0 < or_default x def_pool_size
      given x = ground arith

  -- Where memory is granted, and the alloc callback's buffers have room for what it draws,
  -- theft_autoshrink_alloc returns without failing an assertion and leaves a well-formed pool: its
  -- requests are positive and add up to the consumed bits (which theft_autoshrink_shrink asserts),
  -- and these are within the limit and filled.
  pub alloc-HasPool :
      (env : Env) (gen : Gen I) (s : Source W)
      → IsRoomy gen
      → (r : AllocRes × Option I × Env × Source W) × (alloc next more_bits more_requests fresh true
            env gen s
          ≡ done r)
        × HasPool r.2
  alloc-HasPool env gen s room = Finishes-done (λ r. HasPool r.2) _ (alloc-Finishes env gen s room)
