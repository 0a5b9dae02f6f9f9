-- ===== src/Builtin/Scalars.antt =====
-- src/theft_aux_builtin.c: the built-in scalars are within their type and their limit.
use theft.Base.{ℕ, ◌+◌, ◌^◌, ◌<◌, ◌≤◌, ◌≡◌, ◌⊎◌, Bool, true, ◌&&◌, List, [], ◌∷◌}
use theft.Base.{ltb}
use theft.Builtin.{Scalar, bits_of, is_signed}

-- Every number of a list is below a bound.
abbrev all_below : ℕ → List ℕ → Bool
all_below n [] = true
all_below n (x ∷ xs) = ltb x n && all_below n xs

-- A value within a limit: from 0, or for a signed type from the limit's negative, to below the limit.
abbrev pub IsWithin : Scalar → ℕ → ℕ → Type 0
IsWithin k limit v =
    (v < limit) ⊎ ((is_signed k ≡ true) × (2 ^ bits_of k ≤ v + limit) × (v < 2 ^ bits_of k))
