-- ===== src/Hash.antt =====
-- src/theft_hash.c: the incremental 64-bit FNV-1a hash.
mod Laws
mod Tests
use theft.Base.{ℕ, ◌+◌, ◌*◌, ◌%◌, ◌^◌, bit_xor, List, [], ◌∷◌}
use theft.Base.Words.{u64}

abbrev pub fnv64_prime : ℕ
fnv64_prime = 1099511628211

abbrev pub fnv64_offset_basis : ℕ
fnv64_offset_basis = 14695981039346656037

-- `struct theft_hasher`
pub record Hasher : Type 0 where
  pub accum : ℕ

unfoldable pub init : Hasher
init = record { accum = fnv64_offset_basis }

-- One round of the loop of `theft_hash_sink`.
unfoldable pub mix : ℕ → ℕ → ℕ
mix a byte = u64 (bit_xor a byte * fnv64_prime)

unfoldable pub sink_bytes : ℕ → List ℕ → ℕ
sink_bytes a [] = a
sink_bytes a (byte ∷ bytes) = sink_bytes (mix a byte) bytes

unfoldable pub sink : Hasher → List ℕ → Hasher
sink h bytes = record { accum = sink_bytes h.accum bytes }

-- The result, and the hasher reset for its next use.
unfoldable pub done : Hasher → ℕ × Hasher
done h = (h.accum, init)

unfoldable pub onepass : List ℕ → ℕ
unfolding mix sink_bytes sink done init
onepass bytes = (done (sink init bytes)).0
