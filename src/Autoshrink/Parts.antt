-- ===== src/Autoshrink/Parts.antt =====
-- The bits of a pool, and what is left where some of them are left out.
use theft.Base.{ℕ, zero, suc, ◌+◌, ◌≤◌, ◌≡◌, refl, arith, ap, ◌∙◌, Bool, List, [], ◌∷◌, ◌++◌}
use theft.Base.{if◌then◌else◌, length, Bool-cases, inl, inr}
use theft.Base.BitArray.{test_bit}

-- The bits of a buffer from a position on.
abbrev pub bits_from : List ℕ → ℕ → ℕ → List Bool
bits_from bits zero v = []
bits_from bits (suc left) v = test_bit bits v ∷ bits_from bits left (v + 1)

-- A list that is another with some elements left out.
pub data IsPart : List Bool → List Bool → Type 0 where
  none_left : IsPart [] []
  left_out : {xs ys : List Bool} (b : Bool) → IsPart xs ys → IsPart xs (b ∷ ys)
  kept : {xs ys : List Bool} (b : Bool) → IsPart xs ys → IsPart (b ∷ xs) (b ∷ ys)

-- The bits that a choice keeps.
abbrev pub kept_bits : ℕ → ℕ → (ℕ → Bool) → List ℕ → ℕ → List Bool
kept_bits zero bi keep orig v = []
kept_bits (suc left) bi keep orig v =
    let rest = kept_bits left (bi + 1) keep orig (v + 1) in
    if keep bi then test_bit orig v ∷ rest else rest

pub kept_bits-IsPart :
    (left bi : ℕ) (keep : ℕ → Bool) (orig : List ℕ) (v : ℕ)
    → IsPart (kept_bits left bi keep orig v) (bits_from orig left v)
kept_bits-IsPart zero bi keep orig v = none_left
kept_bits-IsPart (suc left) bi keep orig v = elim (Bool-cases (keep bi)) [
  | inl keeps ↦ rw keeps (kept _ (kept_bits-IsPart left (bi + 1) keep orig (v + 1)))
  | inr drops ↦ rw drops (left_out _ (kept_bits-IsPart left (bi + 1) keep orig (v + 1)))
]

pub IsPart-append :
    {xs ys : List Bool} (us vs : List Bool)
    → IsPart xs ys
    → IsPart us vs
    → IsPart (xs ++ us) (ys ++ vs)
IsPart-append us vs none_left q = q
IsPart-append us vs (left_out b p) q = left_out b (IsPart-append us vs p q)
IsPart-append us vs (kept b p) q = kept b (IsPart-append us vs p q)

pub bits_from-split :
    (bits : List ℕ) (n m v : ℕ)
    → bits_from bits (n + m) v ≡ bits_from bits n v ++ bits_from bits m (v + n)
bits_from-split bits zero m v =
    ap (λ (t : ℕ). bits_from bits t v) {x = 0 + m} {y = m} (omega arith)
    ∙ ap (λ (t : ℕ). bits_from bits m t) {x = v} {y = v + 0} (omega arith)
bits_from-split bits (suc n) m v =
    ap (λ (t : ℕ). bits_from bits t v) {x = suc n + m} {y = suc (n + m)} (omega arith)
    ∙ ap (λ t. test_bit bits v ∷ t)
        (bits_from-split bits n m (v + 1)
          ∙ ap (λ (t : ℕ). bits_from bits n (v + 1) ++ bits_from bits m t) {x = v + 1 + n}
              {y = v + suc n} (omega arith))

pub IsPart-length : {xs ys : List Bool} → IsPart xs ys → length xs ≤ length ys
IsPart-length none_left = omega arith
IsPart-length (left_out b p) = omega (arith, IsPart-length p)
IsPart-length (kept b p) = omega (arith, IsPart-length p)

pub length-bits_from : (bits : List ℕ) (n v : ℕ) → length (bits_from bits n v) ≡ n
length-bits_from bits zero v = refl
length-bits_from bits (suc n) v = ap suc (length-bits_from bits n (v + 1))
