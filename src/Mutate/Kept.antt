-- ===== src/Mutate/Kept.antt =====
-- src/theft_autoshrink.c, the mutations: the size and the bytes of the buffer.
use theft.Base.{
  sum, ℕ, zero, suc, ◌+◌, ◌-◌, ◌*◌, ◌/◌, ◌%◌, ◌^◌, ◌<◌, ◌≤◌, ◌≡◌, refl, arith, ap, ◌∙◌, ltb→lt,
}
use theft.Base.{
  ◌==◌, ==_iff, ltb, leb, ◌&&◌, ◌||◌, if◌then◌else◌, List, [], ◌∷◌, get_or, drop, length, inl, inr,
  Bool-cases,
}
use theft.Base.BitArray.{IsBytes, test_bit}
use native.Mathlib.Nat.{mod-lt, pow-suc}
use theft.Model.{Mutation}
use theft.Pool.{read_bits_at_offset, write_bits_at_offset}
use theft.Pool.Bits.{length-write_bits, write_bits-IsBytes, write_bits-keeps}
use theft.Mutate.{
  region, shift_request, draw_mask, mask_request, lower, sub_request, build_index, offset_of_pos,
  mutate_request, fit_blocks, swap_runs, swap_blocks, swap_search, swap_request,
}
use theft.Mutate.Lowered.{region-inside, index-inside}

-- A buffer of the same length, and of bytes, with the same bits from position `limit` on.
abbrev pub Kept : ℕ → List ℕ → List ℕ → Type 0
Kept limit pool pool' =
    (length pool' ≡ length pool)
    × IsBytes pool'
    × ((v : ℕ) → limit ≤ v → test_bit pool' v ≡ test_bit pool v)

pub Kept-refl : (limit : ℕ) (pool : List ℕ) → IsBytes pool → Kept limit pool pool
Kept-refl limit pool bytes = (refl, bytes, λ v high. refl)

pub Kept-trans : (limit : ℕ) (a b c : List ℕ) → Kept limit a b → Kept limit b c → Kept limit a c
Kept-trans limit a b c h k = (k.0 ∙ h.0, k.1, λ v high. k.2 v high ∙ h.2 v high)

write-Kept :
    (limit : ℕ) (pool : List ℕ) (bit_offset size x : ℕ)
    → IsBytes pool
    → limit ≤ 8 * length pool
    → bit_offset + size ≤ limit
    → Kept limit pool (write_bits_at_offset pool bit_offset size x)
write-Kept limit pool bit_offset size x bytes room inside = (
  length-write_bits pool bit_offset size x,
  write_bits-IsBytes pool bit_offset size x bytes (omega (arith, room, inside)),
  λ v high.
      write_bits-keeps pool bit_offset size x v bytes (omega (arith, room, inside))
        (inr (omega (arith, inside, high))),
)

swap_runs-Kept :
    (limit : ℕ) (pool : List ℕ) (first second size : ℕ)
    → IsBytes pool
    → limit ≤ 8 * length pool
    → first + size ≤ limit
    → second + size ≤ limit
    → Kept limit pool (swap_runs pool first second size).1
unfolding swap_runs
swap_runs-Kept limit pool first second size bytes room first_inside second_inside =
    let a = read_bits_at_offset pool first size in
    let b = read_bits_at_offset pool second size in
    let half = write-Kept limit pool first size b bytes room first_inside in
    let whole =
      write-Kept limit (write_bits_at_offset pool first size b) second size a half.1
        (omega (arith, half.0, room)) second_inside in
    elim (Bool-cases (ltb b a)) [
      | inl less ↦ rw (less, swap_runs) (Kept-trans limit pool _ _ half whole)
      | inr not_less ↦ rw (not_less, swap_runs) (Kept-refl limit pool bytes)
    ]

pub fit_blocks-lt : (left size n : ℕ) → 0 < size → n < 2 ^ left → 2 * fit_blocks left size n < size
unfolding fit_blocks
fit_blocks-lt zero size n positive small = omega arith
fit_blocks-lt (suc left) size n positive small =
    ground (arith, fit_blocks-lt left size (n / 2) positive (omega (arith, pow-suc 2 left)))

swap_search-Kept :
    (limit : ℕ) (bit_offset size other_offset : ℕ) (requests pool : List ℕ)
    → IsBytes pool
    → limit ≤ 8 * length pool
    → bit_offset + size ≤ limit
    → other_offset + sum requests ≤ limit
    → Kept limit pool (swap_search bit_offset size other_offset requests pool).1
unfolding swap_search
swap_search-Kept limit bit_offset size other_offset [] pool bytes room inside others =
    (Kept-refl limit pool bytes)
swap_search-Kept limit bit_offset size other_offset (other ∷ requests) pool bytes room inside
      others =
    let rest : Kept limit pool
        (swap_search bit_offset size (other_offset + other) requests pool).1 =
      swap_search-Kept limit bit_offset size (other_offset + other) requests pool bytes room inside
        (omega arith) in
    elim (Bool-cases (other == size)) [
      | inr differs ↦ rw (differs, swap_search) rest
      | inl same ↦
          let e : other ≡ size = (==_iff other size).0 same in
          elim (Bool-cases ((swap_runs pool bit_offset other_offset size).0)) [
            | inl swaps ↦
                rw (same, swaps, swap_search)
                  (swap_runs-Kept limit pool bit_offset other_offset size bytes room inside
                    (omega arith))
            | inr stays ↦ rw (same, stays, swap_search) rest
          ]
    ]

-- A request, those before it and those after it.
request-split :
    (requests : List ℕ) (before pos : ℕ)
    → pos < length requests
    → get_or (build_index before requests) pos 0
        + get_or requests pos 0
        + sum (drop (pos + 1) requests)
      ≡ before + sum requests
unfolding build_index
request-split [] before pos h = absurd (omega arith)
request-split (size ∷ requests) before zero h = omega arith
request-split (size ∷ requests) before (suc pos) h =
    ap
      (λ (n : ℕ).
        get_or (build_index before (size ∷ requests)) (suc pos) 0
        + get_or requests pos 0
        + sum (drop n (size ∷ requests)))
      {x = suc pos + 1} {y = suc (pos + 1)} (omega arith)
    ∙ request-split requests (before + size) pos (omega arith)
    ∙ omega arith

module _ {W : Type 0} (prng : ℕ → W → ℕ × W)
    (bounded : (b : ℕ) (w : W) → (prng b w).0 < 2 ^ b) where
  at_region :
      (bit_offset size n : ℕ) (w : W)
      → bit_offset + size ≤ n
      → bit_offset + (region prng size w).0 + (region prng size w).1 ≤ n
  at_region bit_offset size n w h = omega (arith, region-inside prng size w)

  swap_blocks-Kept :
      (limit : ℕ) (bit_offset size : ℕ) (pool : List ℕ) (w : W)
      → 0 < size
      → IsBytes pool
      → limit ≤ 8 * length pool
      → bit_offset + size ≤ limit
      → Kept limit pool (swap_blocks prng bit_offset size pool w).1
  unfolding swap_blocks
  swap_blocks-Kept limit bit_offset size pool w positive bytes room inside =
      let n = prng 6 w in
      let k = fit_blocks 8 size n.0 in
      let p = prng 32 n.1 in
      let q = prng 32 p.1 in
      let pos_a = p.0 % (size - k) in
      let pos_b = q.0 % (size - 2 * k) in
      let fits : 2 * k < size = fit_blocks-lt 8 size n.0 positive (omega (arith, bounded 6 w)) in
      elim (Bool-cases (k == 0)) [
        | inl none' ↦ rw (none', swap_blocks) (Kept-refl limit pool bytes)
        | inr some' ↦
            elim (Bool-cases (
              ltb pos_a pos_b && ltb pos_b (pos_a + k)
              || ltb pos_b pos_a && ltb pos_a (pos_b + k))) [
                | inl overlap ↦ rw (some', overlap, swap_blocks) (Kept-refl limit pool bytes)
                | inr apart ↦
                    rw (some', apart, swap_blocks)
                      (swap_runs-Kept limit pool (bit_offset + pos_a) (bit_offset + pos_b) k bytes
                        room (omega (arith, mod-lt p.0 {m = size - k} (omega arith)))
                        (omega (arith, mod-lt q.0 {m = size - 2 * k} (omega arith))))
              ]
      ]

  shift_request-Kept :
      (limit : ℕ) (bit_offset size : ℕ) (pool : List ℕ) (w : W)
      → IsBytes pool
      → limit ≤ 8 * length pool
      → bit_offset + size ≤ limit
      → Kept limit pool (shift_request prng bit_offset size pool w).1
  unfolding shift_request
  shift_request-Kept limit bit_offset size pool w bytes room inside =
      write-Kept limit pool _ _ _ bytes room (at_region bit_offset size limit (prng 2 w).1 inside)

  mask_request-Kept :
      (limit : ℕ) (bit_offset size : ℕ) (pool : List ℕ) (w : W)
      → IsBytes pool
      → limit ≤ 8 * length pool
      → bit_offset + size ≤ limit
      → Kept limit pool (mask_request prng bit_offset size pool w).1
  unfolding mask_request
  mask_request-Kept limit bit_offset size pool w bytes room inside =
      write-Kept limit pool _ _ _ bytes room (
        at_region bit_offset size limit (draw_mask prng (if leb size 64 then size else 64) w).1
          inside)

  sub_request-Kept :
      (limit : ℕ) (bit_offset size : ℕ) (pool : List ℕ) (w : W)
      → IsBytes pool
      → limit ≤ 8 * length pool
      → bit_offset + size ≤ limit
      → Kept limit pool (sub_request prng bit_offset size pool w).1
  unfolding sub_request
  sub_request-Kept limit bit_offset size pool w bytes room inside =
      let s = prng (if leb size 64 then size else 64) w in
      let r = region prng size s.1 in
      let bits = read_bits_at_offset pool (bit_offset + r.0) r.1 in
      elim (Bool-cases (ltb 0 bits)) [
        | inl some' ↦
            rw (some', sub_request)
              (write-Kept limit pool (bit_offset + r.0) r.1 (lower bits s.0) bytes room
                (at_region bit_offset size limit s.1 inside))
        | inr none' ↦ rw (none', sub_request) (Kept-refl limit pool bytes)
      ]

  swap_request-Kept :
      (limit : ℕ) (requests : List ℕ) (pos : ℕ) (pool : List ℕ) (w : W)
      → pos < length requests
      → IsBytes pool
      → limit ≤ 8 * length pool
      → sum requests ≤ limit
      → Kept limit pool
          (swap_request prng requests pos
            (offset_of_pos requests pos)
            (get_or requests pos 0)
            pool
            w).1
  unfolding swap_request
  swap_request-Kept limit requests pos pool w h bytes room inside =
      let size = get_or requests pos 0 in
      let first = offset_of_pos requests pos in
      elim (Bool-cases (ltb 64 size)) [
        | inl large ↦
            rw (large, swap_request)
              (swap_blocks-Kept limit first size pool w (omega (arith, ltb→lt 64 size large)) bytes
                room (omega (arith, index-inside requests 0 pos h)))
        | inr small ↦
            rw (small, swap_request)
              (swap_search-Kept limit first size (first + size) (drop (pos + 1) requests) pool bytes
                room (omega (arith, index-inside requests 0 pos h))
                (omega (arith, request-split requests 0 pos h)))
      ]

  pub mutate_request-Kept :
      (limit : ℕ) (k : Mutation) (requests : List ℕ) (pos : ℕ) (pool : List ℕ) (w : W)
      → pos < length requests
      → IsBytes pool
      → limit ≤ 8 * length pool
      → sum requests ≤ limit
      → Kept limit pool (mutate_request prng k requests pos pool w).1
  unfolding mutate_request
  mutate_request-Kept limit Mutation.shift requests pos pool w h bytes room inside =
      shift_request-Kept limit (offset_of_pos requests pos) (get_or requests pos 0) pool w bytes
        room (omega (arith, index-inside requests 0 pos h))
  mutate_request-Kept limit Mutation.mask requests pos pool w h bytes room inside =
      mask_request-Kept limit (offset_of_pos requests pos) (get_or requests pos 0) pool w bytes room
        (omega (arith, index-inside requests 0 pos h))
  mutate_request-Kept limit Mutation.sub requests pos pool w h bytes room inside =
      sub_request-Kept limit (offset_of_pos requests pos) (get_or requests pos 0) pool w bytes room
        (omega (arith, index-inside requests 0 pos h))
  mutate_request-Kept limit Mutation.swap requests pos pool w h bytes room inside =
      swap_request-Kept limit requests pos pool w h bytes room inside
