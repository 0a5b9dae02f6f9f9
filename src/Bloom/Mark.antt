-- ===== src/Bloom/Mark.antt =====
-- src/theft_bloom.c: the marking loop of `theft_bloom_mark` on one filter.
use theft.Base.{ℕ, zero, suc, ◌+◌, ◌≡◌, refl, arith, ◌∙◌}
use theft.Base.{Bool, true, not, ◌||◌, List, ==_iff}
use theft.Base.BitArray.{test_bit, set_bit, test_bit-set_bit, set_bit-IsBytes, length-set_bit}
use theft.Bloom.{Filter, mark_loop, probe, hit_all}
use theft.Bloom.Valid.{IsFilter, probe-inside}

abbrev filter : ℕ → List ℕ → Filter
filter size2 bits = record { size2 = size2; bits = bits }

set_bit-IsFilter :
    (hash i size2 : ℕ) (bits : List ℕ)
    → IsFilter (filter size2 bits)
    → IsFilter (filter size2 (set_bit bits (probe hash size2 i)))
set_bit-IsFilter hash i size2 bits v = record {
  wide = v.wide;
  room = length-set_bit bits (probe hash size2 i) ∙ v.room;
  bytes = set_bit-IsBytes bits v.bytes (probe hash size2 i) (probe-inside hash i v);
}

set_bit_keeps :
    (hash i size2 w : ℕ) (bits : List ℕ)
    → IsFilter (filter size2 bits)
    → test_bit bits w ≡ true
    → test_bit (set_bit bits (probe hash size2 i)) w ≡ true
set_bit_keeps hash i size2 w bits v h =
    ground (arith, test_bit-set_bit bits v.bytes (probe hash size2 i) (probe-inside hash i v) w)

set_bit_sets :
    (hash i size2 : ℕ) (bits : List ℕ)
    → IsFilter (filter size2 bits)
    → test_bit (set_bit bits (probe hash size2 i)) (probe hash size2 i) ≡ true
set_bit_sets hash i size2 bits v =
    let p : ℕ = probe hash size2 i in
    ground (arith, ==_iff p p, test_bit-set_bit bits v.bytes p (probe-inside hash i v) p)

pub mark_loop-IsFilter :
    (left i hash size2 : ℕ) (any_set : Bool) (bits : List ℕ)
    → IsFilter (filter size2 bits)
    → IsFilter (filter size2 (mark_loop left i hash size2 any_set bits).1)
unfolding mark_loop
mark_loop-IsFilter zero i hash size2 any_set bits v = v
mark_loop-IsFilter (suc left) i hash size2 any_set bits v =
    mark_loop-IsFilter left (i + 1) hash size2 _ _ (set_bit-IsFilter hash i size2 bits v)

pub mark_loop_keeps :
    (left i hash size2 : ℕ) (any_set : Bool) (bits : List ℕ) (w : ℕ)
    → IsFilter (filter size2 bits)
    → test_bit bits w ≡ true
    → test_bit (mark_loop left i hash size2 any_set bits).1 w ≡ true
unfolding mark_loop
mark_loop_keeps zero i hash size2 any_set bits w v h = h
mark_loop_keeps (suc left) i hash size2 any_set bits w v h =
    mark_loop_keeps left (i + 1) hash size2 _ _ w (set_bit-IsFilter hash i size2 bits v)
      (set_bit_keeps hash i size2 w bits v h)

-- The marked filter matches the hash that marked it.
pub hit_all-mark_loop :
    (left i hash size2 : ℕ) (any_set : Bool) (bits : List ℕ)
    → IsFilter (filter size2 bits)
    → hit_all left i hash (filter size2 (mark_loop left i hash size2 any_set bits).1) ≡ true
unfolding mark_loop hit_all
hit_all-mark_loop zero i hash size2 any_set bits v = refl
hit_all-mark_loop (suc left) i hash size2 any_set bits v =
    let v' : IsFilter (filter size2 (set_bit bits (probe hash size2 i))) =
      set_bit-IsFilter hash i size2 bits v in
    ground (
      arith,
      mark_loop_keeps left (i + 1) hash size2 (not (test_bit bits (probe hash size2 i)) || any_set)
          (set_bit bits (probe hash size2 i)) (probe hash size2 i) v'
          (set_bit_sets hash i size2 bits v),
      hit_all-mark_loop left (i + 1) hash size2
          (not (test_bit bits (probe hash size2 i)) || any_set) (set_bit bits (probe hash size2 i))
          v',
    )

-- A filter that matched a hash still matches it after another was marked.
pub hit_all-mark_loop_keeps :
    (left i hash left' i' hash' size2 : ℕ) (any_set : Bool) (bits : List ℕ)
    → IsFilter (filter size2 bits)
    → hit_all left i hash (filter size2 bits) ≡ true
    → hit_all left i hash (filter size2 (mark_loop left' i' hash' size2 any_set bits).1) ≡ true
unfolding hit_all
hit_all-mark_loop_keeps zero i hash left' i' hash' size2 any_set bits v h = refl
hit_all-mark_loop_keeps (suc left) i hash left' i' hash' size2 any_set bits v h = ground (
  arith,
  mark_loop_keeps left' i' hash' size2 any_set bits (probe hash size2 i) v,
  hit_all-mark_loop_keeps left (i + 1) hash left' i' hash' size2 any_set bits v,
)
