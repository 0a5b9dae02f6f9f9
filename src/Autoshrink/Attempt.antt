-- ===== src/Autoshrink/Attempt.antt =====
-- src/theft_autoshrink.c, `theft_autoshrink_shrink`: an attempt at a simpler instance, from a
-- changed copy of the pool.
use theft.Base.{ℕ, ◌+◌, Bool, true, Option, none, some, List, leb, sum, ◌==◌, if◌then◌else◌}
use theft.Types.{AllocRes, ShrinkRes, Outcome, done, aborted, ◌>>=◌}
use theft.Pool.{Pool, truncate_trailing_zero_bytes}
use theft.Mutate.{build_index}
use theft.Autoshrink.{
  Gen, Env, Source, or_default, def_max_failed_shrinks, alloc_bit_pool, change_copy,
  alloc_from_bit_pool,
}

-- `build_index`, which keeps an index that is there; `memory` is that for the index.
unfoldable pub indexed : Bool → Pool → Option Pool
indexed memory pool = elim (pool.index) [
  | some index ↦ some pool
  | none ↦
      if memory then some (record pool { index = some (build_index 0 pool.requests) }) else none
]

-- What remains of `theft_autoshrink_free_bit_pool`: it asserts that no pool is in use.
abbrev pub free_bit_pool : {A : Type 0} → Bool → A → Outcome A
free_bit_pool in_use a = if in_use then aborted else done a

-- What becomes of the copy: it is kept with its instance, or freed.
abbrev pub outcome :
    {I : Type 0} → AllocRes → I → Pool → Bool → Outcome (ShrinkRes × Option (I × Pool))
outcome AllocRes.ok x pool in_use = done (ShrinkRes.ok, some (x, pool))
outcome AllocRes.skip x pool in_use = free_bit_pool in_use (ShrinkRes.dead_end, none)
outcome AllocRes.error x pool in_use = free_bit_pool in_use (ShrinkRes.error, none)

-- What an attempt gives: its result, the new instance and pool, and the environment.
abbrev pub Attempt : Type 0 → Type 0 → Type 0
Attempt I W = ShrinkRes × Option (I × Pool) × Env × Source W

module _ {W : Type 0} (next : W → ℕ × W) (prng random : ℕ → W → ℕ × W) where
  module _ (more_bits more_requests : Pool → Bool) (fresh : ℕ → List ℕ) {I : Type 0} where
    -- From the change of the copy on.
    unfoldable pub try_copy : ℕ → Env → Pool → Pool → Gen I → Source W → Outcome (Attempt I W)
    try_copy fuel env orig copy gen s =
        change_copy prng random fuel s.in_use env orig copy s.state >>= λ c.
        let pool = if env.leave_trailing_zeroes then c.0 else truncate_trailing_zero_bytes c.0 in
        alloc_from_bit_pool next more_bits more_requests fresh gen pool true
          (record s { state = c.2 })
        >>= λ r. outcome r.0 r.1 r.2 r.3.in_use >>= λ o.
            done (o.0, o.1, record env { model = c.1; bit_pool = some orig }, r.3)

    -- With an index, and memory for the copy or none.
    unfoldable pub shrink_indexed : ℕ → Bool → Env → Pool → Gen I → Source W → Outcome (Attempt I W)
    shrink_indexed fuel memory env orig gen s =
        elim (alloc_bit_pool memory orig.bits_filled orig.limit orig.request_ceil) [
          | none ↦ done (ShrinkRes.error, none, record env { bit_pool = some orig }, s)
          | some copy ↦
              let next_copy = record copy { generation = orig.generation + 1 } in
              if sum orig.requests == orig.consumed
              then try_copy fuel env orig next_copy gen s
              else aborted
        ]

    abbrev pub shrink_pool : ℕ → Bool → Env → Option Pool → Gen I → Source W → Outcome (Attempt I W)
    shrink_pool fuel memory env none gen s = done (ShrinkRes.error, none, env, s)
    shrink_pool fuel memory env (some orig) gen s = shrink_indexed fuel memory env orig gen s

    -- `theft_autoshrink_shrink`; its two Booleans say whether there is memory for the index, and for
    -- the copy.
    unfoldable pub shrink : ℕ → Bool → Bool → Env → ℕ → Gen I → Source W → Outcome (Attempt I W)
    shrink fuel index_memory memory env tactic gen s = elim (env.bit_pool) [
      | none ↦ aborted
      | some orig ↦
          if leb (or_default env.max_failed_shrinks def_max_failed_shrinks) tactic
          then done (ShrinkRes.no_more_tactics, none, env, s)
          else shrink_pool fuel memory env (indexed index_memory orig) gen s
    ]
