-- ===== src/Autoshrink/Sound.antt =====
-- src/theft_autoshrink.c, `theft_autoshrink_shrink`: it fails no assertion, and the pools that it
-- leaves.
use theft.Base.{
  ℕ, ◌+◌, ◌*◌, ◌/◌, ◌^◌, ◌<◌, ◌≤◌, ◌≡◌, refl, sym, subst, Bool, true, false, Option, none, some,
  List,
}
use theft.Base.{==_iff, if◌then◌else◌, leb, sum}
use theft.Base.BitArray.{test_bit, test_bit-replicate}
use theft.Types.{
  AllocRes, ShrinkRes, Outcome, done, aborted, Survives, Survives-bind, Survives-if,
  Survives-of_Finishes, Finishes-weaken,
}
use theft.Pool.{Pool, truncate_trailing_zero_bytes}
use theft.Pool.Truncated.{truncate-limit}
use theft.Fill.Supply.{IsPool, IsGranted}
use theft.Autoshrink.{
  Gen, Env, or_default, def_max_failed_shrinks, aligned_size, new_pool, alloc_bit_pool, change_copy,
  alloc_from_bit_pool, run_gen, Source, is_some,
}
use theft.Autoshrink.Indexed.{indexed-IsPool, indexed-index}
use theft.Autoshrink.Attempt.{
  Attempt, indexed, outcome, try_copy, shrink_indexed, shrink_pool, shrink,
}
use theft.Fill.Taken.{Keeps}
use theft.Autoshrink.Requests.{IsRoomy, HasPool, aligned_size_lem, new_pool-IsBuffer, run_gen-Keeps}
use theft.Autoshrink.Copy.{IsUnused, truncate-IsUnused, truncated-IsPool, change-IsUnused}

-- The settings of the environment that are asked about: its weights are bytes, and for a drop it
-- draws at most 64 bits.
abbrev pub HasSettings : Env → Type 0
HasSettings env = ((n : ℕ) → env.model.weights n < 256) × (or_default env.drop_bits 5 ≤ 64)

-- A runner that draws from no pool.
abbrev pub unused : {W : Type 0} → W → Source W
unused w = record { in_use = false; state = w }

module _ {W : Type 0} (next : W → ℕ × W) (prng random : ℕ → W → ℕ × W)
    (bounded : (b : ℕ) (w : W) → (prng b w).0 < 2 ^ b) where
  module _ (more_bits more_requests : Pool → Bool) (fresh : ℕ → List ℕ)
      (granted : IsGranted more_bits more_requests fresh) {I : Type 0} where
    -- A pool that is handed back is well formed, the environment keeps a well-formed one, and the
    -- runner draws from no pool any more.
    abbrev pub IsSound : Attempt I W → Type 0
    IsSound r =
        ((x : I) (pool : Pool) → r.1 ≡ some (x, pool) → IsPool pool)
        × HasPool r.2
        × (r.3.in_use ≡ false)

    Offers : ShrinkRes × Option (I × Pool) → Type 0
    Offers o = (x : I) (pool : Pool) → o.1 ≡ some (x, pool) → IsPool pool

    offered :
        (res : AllocRes) (x : I) (pool : Pool)
        → IsPool pool
        → Survives Offers (outcome res x pool false)
    unfolding Offers
    offered AllocRes.ok x pool v = λ y p e. let same : pool ≡ p = cc e in subst IsPool same v
    offered AllocRes.skip x pool v = λ y p e. cc
    offered AllocRes.error x pool v = λ y p e. cc

    run_gen-IsPool :
        (gen : Gen I) (pool : Pool) (w : W)
        → IsPool pool
        → IsRoomy gen
        → Survives (λ r. IsPool r.2) (run_gen next more_bits more_requests fresh gen pool w)
    run_gen-IsPool gen pool w v roomy =
        Survives-of_Finishes (λ r. IsPool r.2)
          (run_gen next more_bits more_requests fresh gen pool w)
          (Finishes-weaken (λ r. Keeps pool r.2) (λ r. IsPool r.2)
            (run_gen next more_bits more_requests fresh gen pool w) (λ r k. k.0)
            (run_gen-Keeps next more_bits more_requests fresh granted gen pool w v roomy))

    try_copy-IsSound :
        (fuel : ℕ) (env : Env) (orig pool : Pool) (gen : Gen I) (w : W)
        → IsPool orig
        → is_some orig.index ≡ true
        → HasSettings env
        → IsUnused pool
        → ((v : ℕ) → test_bit pool.bits v ≡ false)
        → orig.bits_filled ≤ pool.bits_ceil
        → env.leave_trailing_zeroes ≡ false
        → IsRoomy gen
        → Survives IsSound (
            try_copy next prng random more_bits more_requests fresh fuel env orig pool gen
              (unused w))
    unfolding try_copy alloc_from_bit_pool Offers
    try_copy-IsSound fuel env orig pool gen w v has_index bytes u blank room cuts roomy =
        Survives-bind (λ c. IsUnused c.0) IsSound
          (change_copy prng random fuel false env orig pool w) _
          (change-IsUnused prng random bounded fuel env orig pool w v u blank room has_index bytes.0
            bytes.1)
          λ c h.
            let cut = truncate_trailing_zero_bytes c.0 in
            let ready = truncated-IsPool cut (truncate-IsUnused c.0 h) (truncate-limit c.0).0 in
            rw cuts (
              Survives-bind (λ r. IsPool r.2 × (r.3.in_use ≡ false)) IsSound
                (alloc_from_bit_pool next more_bits more_requests fresh gen cut true (unused c.2)) _
                (Survives-bind (λ r. IsPool r.2) (λ r. IsPool r.2 × (r.3.in_use ≡ false))
                  (run_gen next more_bits more_requests fresh gen (record cut { shrinking = true })
                    c.2)
                  _ (run_gen-IsPool gen (record cut { shrinking = true }) c.2 ready roomy)
                  (λ r k. (k, refl)))
                λ r k. rw (k.1) (
                  Survives-bind Offers IsSound (outcome r.0 r.1 r.2 false) _
                    (offered r.0 r.1 r.2 k.0) λ o h'. (h', (orig, refl, v), refl)))

    shrink_indexed-IsSound :
        (fuel : ℕ) (memory : Bool) (env : Env) (orig : Pool) (gen : Gen I) (w : W)
        → IsPool orig
        → is_some orig.index ≡ true
        → HasSettings env
        → env.leave_trailing_zeroes ≡ false
        → IsRoomy gen
        → Survives IsSound (
            shrink_indexed next prng random more_bits more_requests fresh fuel memory env orig gen
              (unused w))
    unfolding shrink_indexed alloc_bit_pool
    shrink_indexed-IsSound fuel false env orig gen w v has_index bytes cuts roomy =
        ((λ x p e. cc), (orig, refl, v), refl)
    shrink_indexed-IsSound fuel true env orig gen w v has_index bytes cuts roomy =
        let copy : Pool = record (new_pool orig.bits_filled orig.limit orig.request_ceil) {
          generation = orig.generation + 1;
        } in
        let b = new_pool-IsBuffer orig.bits_filled orig.limit orig.request_ceil in
        rw ((==_iff (sum orig.requests) orig.consumed).1 v.counted) (
          try_copy-IsSound fuel env orig copy gen w v has_index bytes
            (record {
              buffer = record {
                bytes = b.bytes;
                size = b.size;
                aligned = b.aligned;
                filled = b.filled;
              };
              consumed = refl;
              requests = refl;
            })
            (test_bit-replicate (aligned_size orig.bits_filled 64 / 64 * 8))
            (aligned_size_lem orig.bits_filled).1 cuts roomy)

    shrink_pool-IsSound :
        (fuel : ℕ) (memory : Bool) (env : Env) (pool : Option Pool) (gen : Gen I) (w : W)
        → ((p : Pool) → pool ≡ some p → IsPool p × (is_some p.index ≡ true))
        → HasPool env
        → HasSettings env
        → env.leave_trailing_zeroes ≡ false
        → IsRoomy gen
        → Survives IsSound (
            shrink_pool next prng random more_bits more_requests fresh fuel memory env pool gen
              (unused w))
    shrink_pool-IsSound fuel memory env none gen w v has bytes cuts roomy =
        ((λ x p e. cc), has, refl)
    shrink_pool-IsSound fuel memory env (some orig) gen w v has bytes cuts roomy =
        shrink_indexed-IsSound fuel memory env orig gen w (v orig refl).0 (v orig refl).1 bytes cuts
          roomy

    -- theft_autoshrink_shrink, on an environment with a well-formed pool, for a runner that draws
    -- from no pool, fails no assertion of the model, whether or not there is memory for the index
    -- and the copy; and where it returns, a pool that it hands back with an instance is well
    -- formed, the environment still has a well-formed pool, and the runner again draws from no
    -- pool. The assertions are that there is a pool and an index, that its requests add up to the
    -- consumed bits, that no pool is in use where one is mutated or freed, that a weighted choice
    -- needs at most 16 bits, that no DROP is scheduled for it, that a request to swap in is not
    -- empty and not used up by its two blocks, that the bits drawn for a drop are at most 64, and
    -- those of a draw from a pool. This is where a pool that is drawn from gets the memory that it
    -- asks for, the generator gives numbers of no more bits than asked for, the weights are bytes,
    -- the environment asks for at most 64 bits for a drop, trailing zero bytes are cut off, and
    -- the alloc callback's buffers have room for what it draws.
    pub shrink-IsSound :
        (fuel : ℕ) (index_memory memory : Bool) (env : Env) (tactic : ℕ) (gen : Gen I) (w : W)
        → HasPool env
        → HasSettings env
        → env.leave_trailing_zeroes ≡ false
        → IsRoomy gen
        → Survives IsSound (
            shrink next prng random more_bits more_requests fresh fuel index_memory memory env
              tactic gen
              (unused w))
    unfolding shrink
    shrink-IsSound fuel index_memory memory env tactic gen w has bytes cuts roomy =
        let (orig, e, v) = has in
        subst (λ (o : Option Pool). Survives IsSound (from o)) (sym e)
          (Survives-if IsSound
            (leb (or_default env.max_failed_shrinks def_max_failed_shrinks) tactic)
            (done (ShrinkRes.no_more_tactics, none, env, unused w))
            (shrink_pool next prng random more_bits more_requests fresh fuel memory env
              (indexed index_memory orig) gen (unused w))
            ((λ x p e. cc), has, refl)
            (shrink_pool-IsSound fuel memory env (indexed index_memory orig) gen w
              (λ p f. (indexed-IsPool index_memory orig p v f, indexed-index index_memory orig p f))
              has bytes cuts roomy))
      where
        from : Option Pool → Outcome (Attempt I W)
        from none = aborted
        from (some orig) =
            if leb (or_default env.max_failed_shrinks def_max_failed_shrinks) tactic
            then done (ShrinkRes.no_more_tactics, none, env, unused w)
            else shrink_pool next prng random more_bits more_requests fresh fuel memory env
                (indexed index_memory orig) gen (unused w)
