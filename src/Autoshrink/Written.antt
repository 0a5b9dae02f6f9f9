-- ===== src/Autoshrink/Written.antt =====
-- A buffer of bits, with bits written one after another where it was 0.
use theft.Base.{
  ℕ, suc, ◌+◌, ◌*◌, ◌/◌, ◌<◌, ◌≤◌, ◌≡◌, refl, arith, ap, ◌∙◌, Bool, true, false, List, [], ◌∷◌,
  ◌++◌,
}
use theft.Base.{◌==◌, ==_iff, if◌then◌else◌, length}
use theft.Base.BitArray.{
  IsBytes, test_bit, set_bit, test_bit-set_bit, set_bit-IsBytes, length-set_bit,
}
use theft.Autoshrink.Parts.{bits_from}

-- Some bits written, from an offset on, into a buffer that is 0 there.
abbrev pub written : List Bool → ℕ → List ℕ → List ℕ
written [] offset bits = bits
written (b ∷ bs) offset bits = written bs (offset + 1) (if b then set_bit bits offset else bits)

pub written-append :
    (xs ys : List Bool) (offset : ℕ) (bits : List ℕ)
    → written (xs ++ ys) offset bits ≡ written ys (offset + length xs) (written xs offset bits)
written-append [] ys offset bits =
    ap (λ (t : ℕ). written ys t bits) {x = offset} {y = offset + 0} (omega arith)
written-append (x ∷ xs) ys offset bits =
    written-append xs ys (offset + 1) _
    ∙ ap
        (λ (t : ℕ).
          written ys t (written xs (offset + 1) (if x then set_bit bits offset else bits)))
        {x = offset + 1 + length xs} {y = offset + suc (length xs)} (omega arith)

-- The buffer stays one of bytes, of the same length.
pub written-buffer :
    (bs : List Bool) (offset : ℕ) (bits : List ℕ)
    → IsBytes bits
    → offset + length bs ≤ 8 * length bits
    → IsBytes (written bs offset bits) × (length (written bs offset bits) ≡ length bits)
written-buffer [] offset bits bytes room = (bytes, refl)
written-buffer (true ∷ bs) offset bits bytes room =
    let (bytes', long) =
      written-buffer bs (offset + 1) (set_bit bits offset)
        (set_bit-IsBytes bits bytes offset (omega (arith, room)))
        (omega (arith, room, length-set_bit bits offset)) in
    (bytes', long ∙ length-set_bit bits offset)
written-buffer (false ∷ bs) offset bits bytes room =
    written-buffer bs (offset + 1) bits bytes (omega (arith, room))

written-below :
    (bs : List Bool) (offset u : ℕ) (bits : List ℕ)
    → IsBytes bits
    → offset + length bs ≤ 8 * length bits
    → u < offset
    → test_bit (written bs offset bits) u ≡ test_bit bits u
written-below [] offset u bits bytes room below = refl
written-below (true ∷ bs) offset u bits bytes room below =
    let inside : offset / 8 < length bits = omega (arith, room) in
    written-below bs (offset + 1) u (set_bit bits offset) (set_bit-IsBytes bits bytes offset inside)
      (omega (arith, room, length-set_bit bits offset)) (omega (arith, below))
    ∙ test_bit-set_bit bits bytes offset inside u
    ∙ rw (other offset u below) refl
  where
    other : (a b : ℕ) → b < a → (a == b) ≡ false
    other a b h = ground arith
written-below (false ∷ bs) offset u bits bytes room below =
    written-below bs (offset + 1) u bits bytes (omega (arith, room)) (omega (arith, below))

-- One bit written where the buffer was 0.
one_bit :
    (b : Bool) (offset : ℕ) (bits : List ℕ)
    → IsBytes bits
    → offset < 8 * length bits
    → ((v : ℕ) → offset ≤ v → test_bit bits v ≡ false)
    → let next = if b then set_bit bits offset else bits in
      IsBytes next
      × (length next ≡ length bits)
      × (test_bit next offset ≡ b)
      × ((v : ℕ) → offset + 1 ≤ v → test_bit next v ≡ false)
one_bit true offset bits bytes room blank =
    let inside : offset / 8 < length bits = omega (arith, room) in
    (
      set_bit-IsBytes bits bytes offset inside,
      length-set_bit bits offset,
      test_bit-set_bit bits bytes offset inside offset ∙ rw ((==_iff offset offset).1 refl) refl,
      λ v above.
          test_bit-set_bit bits bytes offset inside v
          ∙ rw (other offset v above, blank v (omega (arith, above))) refl,
    )
  where
    other : (a b : ℕ) → a + 1 ≤ b → (a == b) ≡ false
    other a b h = ground arith
one_bit false offset bits bytes room blank =
    (bytes, refl, blank offset (omega arith), λ v above. blank v (omega (arith, above)))

-- Where the buffer was 0, it reads as written.
pub written-reads :
    (bs : List Bool) (offset : ℕ) (bits : List ℕ)
    → IsBytes bits
    → offset + length bs ≤ 8 * length bits
    → ((v : ℕ) → offset ≤ v → test_bit bits v ≡ false)
    → bits_from (written bs offset bits) (length bs) offset ≡ bs
written-reads [] offset bits bytes room blank = refl
written-reads (b ∷ bs) offset bits bytes room blank =
    let (bytes', long, here, blank') = one_bit b offset bits bytes (omega (arith, room)) blank in
    let next = if b then set_bit bits offset else bits in
    let room' : offset + 1 + length bs ≤ 8 * length next = omega (arith, room, long) in
    rw
      (
        written-below bs (offset + 1) offset next bytes' room' (omega arith) ∙ here,
        written-reads bs (offset + 1) next bytes' room' blank',
      )
      refl
