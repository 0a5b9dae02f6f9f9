-- ===== src/Autoshrink/Drop.antt =====
-- src/theft_autoshrink.c, `drop_from_bit_pool`: what is left of the bits.
use theft.Base.{
  ℕ, zero, suc, ◌+◌, ◌*◌, ◌%◌, ◌≤◌, ◌≡◌, refl, arith, ap, ◌∙◌, Bool, true, false, not, ◌&&◌, List,
  [], ◌∷◌, ◌++◌,
}
use theft.Base.{ltb, ◌==◌, if◌then◌else◌, length, length-append, sum, Bool-cases, inl, inr}
use native.Mathlib.Nat.{add-zero}
use theft.Base.BitArray.{IsBytes, test_bit, set_bit}
use theft.Pool.{Pool, Cursor, cursor_at}
use theft.Pool.Cursor.{advance-cursor_at, test-cursor, set-cursor}
use theft.Autoshrink.{
  do_not_drop, Env, Sink, put_bit, copy_bits, choose_kept, drop_requests, drop_from_bit_pool,
}
use theft.Autoshrink.Parts.{
  bits_from, IsPart, none_left, kept_bits, kept_bits-IsPart, IsPart-append, bits_from-split,
  IsPart-length, length-bits_from,
}
use theft.Autoshrink.Written.{written, written-append, written-buffer, written-reads}

-- The copy after some bits.
abbrev pub sink : List Bool → ℕ → List ℕ → Sink
sink bs offset bits = (cursor_at (offset + length bs), offset + length bs, written bs offset bits)

put_bit_lem :
    (orig : List ℕ) (v offset : ℕ) (bits : List ℕ)
    → put_bit orig (cursor_at v) (cursor_at offset, offset, bits)
      ≡ (cursor_at (offset + 1), offset + 1, if test_bit orig v then set_bit bits offset else bits)
unfolding put_bit
put_bit_lem orig v offset bits =
    rw (test-cursor orig v, set-cursor bits offset, advance-cursor_at offset)
      (flip (test_bit orig v))
  where
    flip :
        (b : Bool)
        → ◌≡◌ {A = Sink}
            (cursor_at (offset + 1), offset + 1, if not b then bits else set_bit bits offset)
            (cursor_at (offset + 1), offset + 1, if b then set_bit bits offset else bits)
    flip true = refl
    flip false = refl

-- The loops over a request write the bits that are kept.
copy_bits_lem :
    (left bi : ℕ) (keep : ℕ → Bool) (orig : List ℕ) (v offset : ℕ) (bits : List ℕ)
    → copy_bits left bi keep orig (cursor_at v) (cursor_at offset, offset, bits)
      ≡ (cursor_at (v + left), sink (kept_bits left bi keep orig v) offset bits)
unfolding copy_bits
copy_bits_lem zero bi keep orig v offset bits = simp add-zero
copy_bits_lem (suc left) bi keep orig v offset bits = elim (Bool-cases (keep bi)) [
  | inl keeps ↦
      let bits' = if test_bit orig v then set_bit bits offset else bits in
      rw (keeps, advance-cursor_at v, put_bit_lem orig v offset bits)
        (copy_bits_lem left (bi + 1) keep orig (v + 1) (offset + 1) bits'
          ∙ at_end (sink (kept_bits left (bi + 1) keep orig (v + 1)) (offset + 1) bits')
          ∙ ap (λ t. (cursor_at (v + suc left), t))
              (sink_next (test_bit orig v) (kept_bits left (bi + 1) keep orig (v + 1))))
  | inr drops ↦
      rw (drops, advance-cursor_at v)
        (copy_bits_lem left (bi + 1) keep orig (v + 1) offset bits
          ∙ at_end (sink (kept_bits left (bi + 1) keep orig (v + 1)) offset bits))
]
  where
    at_end :
        (s : Sink)
        → ◌≡◌ {A = Cursor × Sink} (cursor_at (v + 1 + left), s) (cursor_at (v + suc left), s)
    at_end s = ap (λ (t : ℕ). (cursor_at t, s)) {x = v + 1 + left} {y = v + suc left} (omega arith)

    sink_next :
        (b : Bool) (bs : List Bool)
        → sink bs (offset + 1) (if b then set_bit bits offset else bits) ≡ sink (b ∷ bs) offset bits
    sink_next b bs =
        ap (λ (t : ℕ). (cursor_at t, t, written (b ∷ bs) offset bits)) {x = offset + 1 + length bs}
          {y = offset + suc (length bs)} (omega arith)

-- What a part of some bits leaves in a copy.
abbrev Dropped : List Bool → ℕ → List ℕ → Sink → Type 0
Dropped all offset bits dst = (bs : List Bool) × IsPart bs all × (dst ≡ sink bs offset bits)

module _ {W : Type 0} (prng : ℕ → W → ℕ × W) where
  drop_requests-Dropped :
      (env : Env) (ri to_drop : ℕ) (requests orig : List ℕ) (v offset : ℕ) (bits : List ℕ) (w : W)
      → Dropped
          (bits_from orig (sum requests) v)
          offset
          bits
          (drop_requests prng env ri to_drop requests orig
            (cursor_at v)
            (cursor_at offset, offset, bits)
            w).0
  unfolding drop_requests
  drop_requests-Dropped env ri to_drop [] orig v offset bits w = ([], none_left, simp add-zero)
  drop_requests-Dropped env ri to_drop (size ∷ requests) orig v offset bits w =
      let k = choose_kept prng env (ri == to_drop) size w in
      let ks = kept_bits size 0 k.0 orig v in
      let (bs, part, e) =
        drop_requests-Dropped env (ri + 1) to_drop requests orig (v + size) (offset + length ks)
          (written ks offset bits) k.1 in
      (
        ks ++ bs,
        rw (bits_from-split orig size (sum requests) v)
            (IsPart-append bs _ (kept_bits-IsPart size 0 k.0 orig v) part),
        ap
              (λ (r : Cursor × Sink).
                (drop_requests prng env (ri + 1) to_drop requests orig r.0 r.1 k.1).0)
              (copy_bits_lem size 0 k.0 orig v offset bits)
            ∙ e
            ∙ joined ks bs,
      )
    where
      joined :
          (ks bs : List Bool)
          → sink bs (offset + length ks) (written ks offset bits) ≡ sink (ks ++ bs) offset bits
      joined ks bs = rw (written-append ks bs offset bits) (
          ap (λ (t : ℕ). (cursor_at t, t, written bs (offset + length ks) (written ks offset bits)))
            {x = offset + length ks + length bs} {y = offset + length (ks ++ bs)}
            (omega (arith, length-append ks bs)))

module _ {W : Type 0} (prng : ℕ → W → ℕ × W) where
  -- Where the copy is a zeroed buffer of bytes with room for the requested bits of the original,
  -- drop_from_bit_pool leaves in it the requested bits of the original in their order, with some
  -- of them left out; it fills no more bits than were requested, and the buffer stays one of
  -- bytes, of the same length.
  pub drop-IsPart :
      (env : Env) (orig copy : Pool) (w : W)
      → IsBytes copy.bits
      → ((v : ℕ) → test_bit copy.bits v ≡ false)
      → sum orig.requests ≤ 8 * length copy.bits
      → let pool = (drop_from_bit_pool prng env orig copy w).0 in
        IsPart (bits_from pool.bits pool.bits_filled 0) (bits_from orig.bits (sum orig.requests) 0)
        × (pool.bits_filled ≤ sum orig.requests)
        × IsBytes pool.bits
        × (length pool.bits ≡ length copy.bits)
  unfolding drop_from_bit_pool cursor_at
  drop-IsPart env orig copy w bytes blank room =
      let to_drop =
        if not ((prng 32 w).0 == do_not_drop) && ltb 0 (length orig.requests)
        then (prng 32 w).0 % length orig.requests
        else (prng 32 w).0 in
      let (bs, part, e) =
        drop_requests-Dropped prng env 0 to_drop orig.requests orig.bits 0 0 copy.bits
          (prng 32 w).1 in
      let short : length bs ≤ sum orig.requests =
        omega (arith, IsPart-length part, length-bits_from orig.bits (sum orig.requests) 0) in
      let (bytes', long) = written-buffer bs 0 copy.bits bytes (omega (arith, short, room)) in
      let size : 0 + length bs ≡ length bs = omega arith in
      rw (ap (λ (d : Sink). d.1) e ∙ size, ap (λ (d : Sink). d.2) e)
        (
          rw (written-reads bs 0 copy.bits bytes (omega (arith, short, room)) (λ v h. blank v))
              part,
          short,
          bytes',
          long,
        )
