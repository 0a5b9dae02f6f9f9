-- ===== src/Bloom/Valid.antt =====
-- The representation invariant of the bloom filter: sizes, lengths and byte values.
use theft.Base.{ℕ, ◌+◌, ◌-◌, ◌*◌, ◌/◌, ◌^◌, ◌<◌, ◌≤◌, ◌≡◌, arith, Bool}
use theft.Base.{List, [], ◌∷◌, length, get_or}
use theft.Base.{length-replicate, some, ap, ◌∙◌}
use theft.Base.Words.{pow-add, pow-pos, bit_and-low_mask, ◌>>>◌}
use theft.Base.BitArray.{IsBytes, replicate-IsBytes}
use theft.Bloom.{hash_count, Filter, Bloom, alloc_filter, probe, block_id}
use native.Mathlib.Nat.{mod-lt}

pub record IsFilter (f : Filter) : Type 0 where
  pub wide : 3 ≤ f.size2
  pub room : length f.bits ≡ 2 ^ f.size2 / 8
  pub bytes : IsBytes f.bits

abbrev pub All {ℓ κ} : {A : Type ℓ} → (A → Type κ) → List A → Type κ
All P [] = Unit
All P (x ∷ xs) = P x × All P xs

pub record IsValid (b : Bloom) : Type 0 where
  pub count : length b.blocks ≡ 2 ^ b.top_block2
  pub min_wide : 3 ≤ b.min_filter2
  pub filters : (id : ℕ) → All IsFilter (get_or b.blocks id [])

-- All checks of a filter of this width can be done with one 64-bit hash.
abbrev pub Fits : ℕ → Filter → Type 0
Fits top_block2 f = top_block2 + hash_count * f.size2 < 64

-- From three bits on the bytes of a filter hold each of its bits.
pub pow-div_eight : (n v : ℕ) → 3 ≤ n → v < 2 ^ n → v / 8 < 2 ^ n / 8
pow-div_eight n v h lt =
    let e : 2 ^ n ≡ 2 ^ 3 * 2 ^ (n - 3) =
      ap (λ (t : ℕ). 2 ^ t) {x = n} {y = 3 + (n - 3)} (omega arith) ∙ pow-add 3 (n - 3) in
    omega (arith, e)

pub probe-inside : (hash i : ℕ) {f : Filter} → IsFilter f → probe hash f.size2 i / 8 < length f.bits
probe-inside hash i {f} v = rw (v.room) (
    pow-div_eight f.size2 (probe hash f.size2 i) v.wide
      (rw (bit_and-low_mask f.size2 (hash >>> (i * f.size2))) (mod-lt _ (pow-pos f.size2))))

pub block_id-inside : (hash : ℕ) {b : Bloom} → IsValid b → block_id b hash < length b.blocks
block_id-inside hash {b} v =
    rw (v.count, bit_and-low_mask b.top_block2 hash) (mod-lt _ (pow-pos b.top_block2))

pub alloc_filter-IsFilter :
    (malloc : ℕ → Bool) (n : ℕ) {f : Filter}
    → 3 ≤ n
    → alloc_filter malloc n ≡ some f
    → IsFilter f × (f.size2 ≡ n)
unfolding alloc_filter
alloc_filter-IsFilter malloc n h e =
    ground (arith, length-replicate {A = ℕ} (2 ^ n / 8) 0, replicate-IsBytes (2 ^ n / 8))
