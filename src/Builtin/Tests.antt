-- ===== src/Builtin/Tests.antt =====
-- src/theft_aux_builtin.c at small generators.
use theft.Base.{ℕ, ◌+◌, ◌%◌, ◌^◌, ◌≡◌, refl, arith, Bool, true, none, some, List, [], ◌∷◌}
use theft.Base.{length}
use theft.Types.{AllocRes, done, aborted, Finishes}
use theft.Builtin.{
  uint8_t, int, int8_t, is_limit, limited, limit_signed, limit_int, draw_scalar, scalar_alloc,
  char_loop, char_array_alloc,
}
use theft.Builtin.Arrays.{IsMade, char_array-IsMade, char_array-overruns}

abbrev counting : ℕ → ℕ → ℕ × ℕ
counting bits w = (w % 2 ^ bits, w + 1)

abbrev always : ℕ → Bool
always n = true

-- The first draw of 7 asks for a special value, here the ninth of them.
special_value : scalar_alloc counting true int8_t none 7 ≡ done (AllocRes.ok, some 63, 9)
unfolding scalar_alloc draw_scalar
special_value = refl

-- The value -4 stays within a limit of 5, and -3 is what is left of -128 for a limit of 5.
stays_within : limited int8_t 5 252 ≡ 252
unfolding limited limit_signed
stays_within = refl

brought_within : limited int8_t 5 128 ≡ 253
unfolding limited limit_signed
brought_within = refl

-- The row of int leaves 1000 as it is at a limit of 10.
int_left : limited int 10 1000 ≡ 1000
unfolding limited limit_int
int_left = refl

no_limit : scalar_alloc counting true uint8_t (some 0) 7 ≡ aborted
unfolding scalar_alloc is_limit
no_limit = refl

four_bytes :
    char_array_alloc counting always 9 true none 253
    ≡ done (AllocRes.ok, some (253 ∷ 254 ∷ 255 ∷ 0 ∷ [], 8), 257)
unfolding char_array_alloc char_loop
four_bytes = refl

char_array-IsMade_example :
    Finishes (λ r. IsMade 3 r.1) (char_array_alloc counting always 3 true (some 3) 200)
char_array-IsMade_example =
    char_array-IsMade counting always 3 3 true 200 (omega arith) (omega arith)

char_array-overruns_example :
    (bytes : List ℕ) × (ceil : ℕ) × (w' : ℕ) × (char_array_alloc
        (λ bits w. (65, w + 1))
        always
        9
        true
        (some 9)
        0
      ≡ done (AllocRes.ok, some (bytes, ceil), w'))
    × (length bytes ≡ ceil + 1)
char_array-overruns_example =
    char_array-overruns (λ bits w. (65, w + 1)) always 0 (λ v. omega arith)
