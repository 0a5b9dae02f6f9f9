-- ===== src/Hash/Laws.antt =====
-- src/theft_hash.c: hashing in pieces and at once, and the range of a hash.
use theft.Base.{ℕ, ◌^◌, ◌<◌, List, [], ◌∷◌, ◌++◌, ◌≡◌, refl, arith}
use theft.Hash.{Hasher, init, mix, sink_bytes, sink, done, onepass}

pub sink_bytes-append :
    (a : ℕ) (xs ys : List ℕ) → sink_bytes a (xs ++ ys) ≡ sink_bytes (sink_bytes a xs) ys
unfolding sink_bytes
sink_bytes-append a [] ys = refl
sink_bytes-append a (x ∷ xs) ys = sink_bytes-append (mix a x) xs ys

sink_bytes-lt : (a : ℕ) (xs : List ℕ) → a < 2 ^ 64 → sink_bytes a xs < 2 ^ 64
unfolding sink_bytes mix
sink_bytes-lt a [] h = h
sink_bytes-lt a (x ∷ xs) h = sink_bytes-lt (mix a x) xs (omega arith)

-- A hasher that is fed a buffer in two pieces, from its initial state, gives the hash that
-- theft_hash_onepass gives for the whole buffer, and is back in its initial state.
pub done-sink-sink : (xs ys : List ℕ) → done (sink (sink init xs) ys) ≡ (onepass (xs ++ ys), init)
unfolding onepass
done-sink-sink xs ys = ap_pair (sink_bytes-append init.accum xs ys)
  where
    ap_pair : {a b : ℕ} → b ≡ a → ◌≡◌ {A = ℕ × Hasher} (a, init) (b, init)
    ap_pair e = λ i. (mathlib.Core.Path.sym e i, init)

-- Every hash is a 64-bit word.
pub onepass-lt : (xs : List ℕ) → onepass xs < 2 ^ 64
unfolding onepass
onepass-lt xs = sink_bytes-lt init.accum xs (unfold init in omega arith)
