-- ===== src/Call.antt =====
-- src/theft_call.c, `theft_call_check_called` and `theft_call_mark_called`: the bloom filter of
-- the argument tuples that were tried.
use theft.Base.{ℕ, zero, suc, ◌+◌, ◌/◌, ◌%◌, Bool, none, some}
use theft.Base.{List, [], ◌∷◌, ◌++◌, if◌then◌else◌}
use theft.Bloom.{Bloom, mark, check}
use theft.Types.{Outcome, done, aborted}
use theft.Theft.{Setup, Theft, arg}

-- A `theft_hash` in memory, its lowest byte first.
unfoldable pub hash_bytes : ℕ → ℕ → List ℕ
hash_bytes zero h = []
hash_bytes (suc left) h = h % 256 ∷ hash_bytes left (h / 256)

module _ {I P W : Type 0} (s : Setup I P W) where
  -- The hash of one argument. A hash callback that is NULL would be called only without
  -- autoshrinking, and then there is no bloom filter.
  unfoldable pub arg_hash : Theft I P W → ℕ → ℕ
  arg_hash t i =
      let ti = s.type_info i in
      let a = arg i t in
      if ti.autoshrink
      then s.autoshrink.hash i a.instance_of a.bit_pool t.world
      else elim (ti.hash) [ none ↦ 0 | some hash ↦ hash a.instance_of t.world ]

  -- `get_arg_hash_buffer`, as the bytes of the buffer.
  unfoldable pub hash_buffer : ℕ → ℕ → Theft I P W → List ℕ
  hash_buffer zero i t = []
  hash_buffer (suc left) i t = hash_bytes 8 (arg_hash t i) ++ hash_buffer left (i + 1) t

  unfoldable pub check_called : Bloom → Theft I P W → Bool
  check_called b t = check b (hash_buffer s.arity 0 t)

  -- What `theft_bloom_mark` returns is not looked at.
  unfoldable pub mark_called : Bloom → Theft I P W → Outcome (Theft I P W)
  mark_called b t = elim (mark (s.malloc t.world) b (hash_buffer s.arity 0 t)) [
    | none ↦ aborted
    | some (r, b') ↦ done (record t { bloom = some b' })
  ]
