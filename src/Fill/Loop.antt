-- ===== src/Fill/Loop.antt =====
-- src/theft_autoshrink.c, `fill_buf`: its loop, until its buffer spells the next bits of the pool.
use theft.Base.{ℕ, zero, suc, ◌+◌, ◌*◌, ◌/◌, ◌%◌, ◌<◌, ◌≤◌, ◌≡◌, refl, arith, bit_and}
use theft.Base.{
  false, ◌==◌, ltb, if◌then◌else◌, List, set, length, length-set, Bool-cases, inl, inr,
  get_or-set_self, ==_iff, lt→ltb, ltb→lt,
}
use theft.Base.BitArray.{IsBytes}
use theft.Types.{Finishes, Finishes-bind}
use theft.Fill.{fill_loop, fill_buf}
use theft.Pool.{Pool}
use theft.Fill.Buffer.{
  Spells, words-set_next, low_six, IsFilling, stored, n, limits, finished, src-next, same_word,
  next_word,
}

module _ (bits : List ℕ) (bytes : IsBytes bits) (start bit_count : ℕ) where
  abbrev Spelled : List ℕ → Type 0
  Spelled = Spells bits start bit_count

  loop_done :
      (fuel offset src_bit o i : ℕ) (dst : List ℕ)
      → 1 ≤ fuel
      → i ≡ bit_count
      → Spelled dst
      → Finishes Spelled (fill_loop fuel bit_count bits offset src_bit o i dst)
  unfolding fill_loop
  loop_done zero offset src_bit o i dst h e spelled = absurd (omega arith)
  loop_done (suc fuel) offset src_bit o i dst h e spelled =
      let stops : ltb i bit_count ≡ false = ground arith in rw (stops, fill_loop) spelled

  loop_fills :
      (fuel offset src_bit o i : ℕ) (dst : List ℕ)
      → IsFilling bits bytes start bit_count offset src_bit o i dst
      → bit_count < i + fuel
      → Finishes Spelled (fill_loop fuel bit_count bits offset src_bit o i dst)
  unfolding fill_loop
  loop_fills zero offset src_bit o i dst f h = absurd (omega (arith, f.more))
  loop_fills (suc fuel) offset src_bit o i dst f h =
      let size = n bits bytes start bit_count f in
      let d : bit_and i 63 ≡ i % 64 = low_six i in
      let l = limits bits bytes start bit_count f in
      let dst₁ = set dst o (stored bits bytes start bit_count offset src_bit o i size dst) in
      let crossed = src_bit + size == 64 in
      let offset' = if crossed then offset + 1 else offset in
      let src_bit' = if crossed then 0 else src_bit + size in
      rw (lt→ltb i bit_count f.more) (elim (Bool-cases (bit_and i 63 + size == 64)) [
        | inr room ↦ elim (Bool-cases (ltb (i + size) bit_count)) [
          | inl more ↦ rw room (
              loop_fills fuel offset' src_bit' o (i + size) dst₁
                (same_word bits bytes start bit_count f offset' src_bit'
                  (src-next bits bytes start bit_count f).0
                  (src-next bits bytes start bit_count f).1
                  (not_full (bit_and i 63) (i % 64) size d l.2 room) (ltb→lt _ _ more))
                (omega (arith, h, l)))
          | inr last ↦ rw room (
              loop_done fuel offset' src_bit' o (i + size) dst₁ (omega (arith, h, f.more))
                (at_end (i + size) l.1 last)
                (finished bits bytes start bit_count f (at_end (i + size) l.1 last)))
        ]
        | inl full ↦ elim (Bool-cases (ltb (i + size) bit_count)) [
          | inl more ↦
              rw (full, more)
                (loop_fills fuel offset' src_bit' (o + 1) (i + size) (set dst₁ (o + 1) 0)
                  (next_word bits bytes start bit_count f offset' src_bit'
                    (src-next bits bytes start bit_count f).0
                    (src-next bits bytes start bit_count f).1
                    (omega (arith, (==_iff (bit_and i 63 + size) 64).0 full, d)) (ltb→lt _ _ more))
                  (omega (arith, h, l)))
          | inr last ↦
              rw (full, last)
                (loop_done fuel offset' src_bit' (o + 1) (i + size) dst₁ (omega (arith, h, f.more))
                  (at_end (i + size) l.1 last)
                  (finished bits bytes start bit_count f (at_end (i + size) l.1 last)))
        ]
      ])
    where
      at_end : (j : ℕ) → j ≤ bit_count → ltb j bit_count ≡ false → j ≡ bit_count
      at_end j h e = ground arith

      not_full : (a b size : ℕ) → a ≡ b → b + size ≤ 64 → (a + size == 64) ≡ false → b + size < 64
      not_full a b size e h ne = ground arith

-- fill_buf, asked for one or more bits that the destination has room for, from a pool of bytes,
-- ends; the words of the destination then spell the number that the next bits of the pool spell,
-- the first bit the lowest, and only the count of consumed bits has changed in the pool.
pub fill_buf-Spells :
    (pool : Pool) (bit_count : ℕ) (buf : List ℕ)
    → IsBytes pool.bits
    → 1 ≤ bit_count
    → bit_count ≤ 64 * length buf
    → Finishes
        (λ r.
          Spells pool.bits pool.consumed bit_count r.0
          × (r.1 ≡ record pool { consumed = pool.consumed + bit_count }))
        (fill_buf pool bit_count buf)
unfolding fill_buf
fill_buf-Spells pool bit_count buf bytes some_bits room =
    Finishes-bind (Spells pool.bits pool.consumed bit_count) _
      (fill_loop (suc bit_count) bit_count pool.bits (pool.consumed / 64) (bit_and pool.consumed 63)
        0 0 (set buf 0 0))
      _
      (loop_fills pool.bits bytes pool.consumed bit_count (suc bit_count) (pool.consumed / 64)
        (bit_and pool.consumed 63) 0 0 (set buf 0 0) start (omega arith))
      λ dst spelled. (spelled, refl)
  where
    start :
        IsFilling pool.bits bytes pool.consumed bit_count
          (pool.consumed / 64)
          (bit_and pool.consumed 63)
          0
          0
          (set buf 0 0)
    start = record {
      more = omega (arith, some_bits);
      src = rw (low_six pool.consumed) (omega arith);
      src_lt = rw (low_six pool.consumed) (omega arith);
      at_word = omega arith;
      room = rw (length-set buf 0 0) room;
      spelled = words-set_next 0 buf (omega (arith, some_bits, room));
      partial = rw (get_or-set_self buf 0 0 0 (omega (arith, some_bits, room))) (omega arith);
    }
