-- ===== src/Builtin.antt =====
-- src/theft_aux_builtin.c: the alloc callbacks of the built-in types, less the floating point ones.
-- `random` is `theft_random_bits`. A signed number is its bit pattern.
pub mod Scalars
pub mod Arrays
mod Tests
use theft.Base.{
  ℕ, zero, suc, ◌+◌, ◌-◌, ◌*◌, ◌%◌, ◌^◌, Bool, true, false, not, ◌&&◌, Option, none, some, List, [],
  ◌∷◌, ◌++◌, ◌||◌,
}
use theft.Base.{ltb, leb, ◌==◌, if◌then◌else◌, get_or, length}
use theft.Types.{AllocRes, Outcome, done, aborted, no_fuel, ◌>>=◌}

-- The scalars among the rows of the table.
pub data Scalar : Type 0 where
  uint uint8_t uint16_t uint32_t uint64_t size_t int int8_t int16_t int32_t int64_t : Scalar

abbrev pub bits_use_special : ℕ
bits_use_special = 3

-- The argument `BITS` of a scalar's macro.
abbrev pub bits_of : Scalar → ℕ
bits_of uint = 32
bits_of uint8_t = 8
bits_of uint16_t = 16
bits_of uint32_t = 32
bits_of uint64_t = 64
bits_of size_t = 64
bits_of int = 32
bits_of int8_t = 8
bits_of int16_t = 16
bits_of int32_t = 32
bits_of int64_t = 64

-- The special values of a scalar, as its type holds them.
abbrev pub special : Scalar → List ℕ
special uint =
    0
    ∷ 1
    ∷ 2
    ∷ 3
    ∷ 4
    ∷ 5
    ∷ 6
    ∷ 7
    ∷ 63
    ∷ 64
    ∷ 127
    ∷ 128
    ∷ 129
    ∷ 255
    ∷ (2 ^ 32 - 2)
    ∷ (2 ^ 32 - 1)
    ∷ []
special uint8_t = 0 ∷ 1 ∷ 2 ∷ 3 ∷ 4 ∷ 5 ∷ 6 ∷ 7 ∷ 63 ∷ 64 ∷ 65 ∷ 127 ∷ 128 ∷ 129 ∷ 254 ∷ 255 ∷ []
special uint16_t =
    0 ∷ 1 ∷ 2 ∷ 3 ∷ 4 ∷ 5 ∷ 6 ∷ 255 ∷ 256 ∷ 1024 ∷ 4096 ∷ 16384 ∷ 32768 ∷ 32769 ∷ 65534 ∷ 65535 ∷ []
special uint32_t =
    0
    ∷ 1
    ∷ 2
    ∷ 3
    ∷ 4
    ∷ 5
    ∷ 6
    ∷ 255
    ∷ 2 ^ 8
    ∷ (2 ^ 8 + 1)
    ∷ (2 ^ 16 - 1)
    ∷ 2 ^ 16
    ∷ (2 ^ 16 + 1)
    ∷ 2 ^ 19
    ∷ 2 ^ 22
    ∷ (2 ^ 32 - 1)
    ∷ []
special uint64_t =
    0
    ∷ 1
    ∷ 2
    ∷ 3
    ∷ 4
    ∷ 5
    ∷ 6
    ∷ 255
    ∷ 2 ^ 8
    ∷ 2 ^ 16
    ∷ 2 ^ 32
    ∷ (2 ^ 32 + 1)
    ∷ 2 ^ 53
    ∷ (2 ^ 53 + 1)
    ∷ (2 ^ 64 - 2)
    ∷ (2 ^ 64 - 1)
    ∷ []
special size_t = 0 ∷ 1 ∷ 2 ∷ 3 ∷ 4 ∷ 5 ∷ 6 ∷ 255 ∷ 256 ∷ (2 ^ 64 - 2) ∷ (2 ^ 64 - 1) ∷ []
special int =
    0
    ∷ 1
    ∷ 2
    ∷ 3
    ∷ (2 ^ 32 - 1)
    ∷ (2 ^ 32 - 2)
    ∷ (2 ^ 32 - 3)
    ∷ (2 ^ 32 - 4)
    ∷ (2 ^ 31 + 1)
    ∷ 2 ^ 31
    ∷ (2 ^ 31 - 2)
    ∷ (2 ^ 31 - 1)
    ∷ []
special int8_t =
    0 ∷ 1 ∷ 2 ∷ 3 ∷ 255 ∷ 254 ∷ 253 ∷ 252 ∷ 63 ∷ 64 ∷ 65 ∷ 127 ∷ 128 ∷ 129 ∷ 254 ∷ 255 ∷ []
special int16_t =
    0 ∷ 1 ∷ 2 ∷ 3 ∷ 4 ∷ 5 ∷ 6 ∷ 255 ∷ 256 ∷ 1024 ∷ 4096 ∷ 16384 ∷ 32768 ∷ 32769 ∷ 65534 ∷ 65535 ∷ []
special int32_t =
    0
    ∷ 1
    ∷ 2
    ∷ 3
    ∷ 4
    ∷ 5
    ∷ 6
    ∷ 255
    ∷ 2 ^ 8
    ∷ (2 ^ 8 + 1)
    ∷ (2 ^ 16 - 1)
    ∷ 2 ^ 16
    ∷ (2 ^ 16 + 1)
    ∷ 2 ^ 19
    ∷ 2 ^ 22
    ∷ (2 ^ 32 - 1)
    ∷ []
special int64_t =
    0
    ∷ 1
    ∷ 2
    ∷ 3
    ∷ 4
    ∷ 5
    ∷ 6
    ∷ 255
    ∷ 2 ^ 8
    ∷ 2 ^ 16
    ∷ 2 ^ 32
    ∷ (2 ^ 32 + 1)
    ∷ 2 ^ 53
    ∷ (2 ^ 53 + 1)
    ∷ (2 ^ 64 - 2)
    ∷ (2 ^ 64 - 1)
    ∷ []

-- How a macro brings a value within the limit: that for unsigned scalars, that for signed scalars at
-- a signed type, and the same at `unsigned int`, which the row of `int` names.
unfoldable pub limit_unsigned : ℕ → ℕ → ℕ
limit_unsigned limit v = v % limit

unfoldable pub limit_signed : ℕ → ℕ → ℕ → ℕ
limit_signed bits limit v =
    let magnitude = 2 ^ bits - v in
    if ltb v (2 ^ (bits - 1))
    then (if leb limit v then v % limit else v)
    else (if ltb limit magnitude then (2 ^ bits - magnitude % limit) % 2 ^ bits else v)

unfoldable pub limit_int : ℕ → ℕ → ℕ
limit_int limit v =
    let negated = 2 ^ 32 - limit in
    if ltb v negated then v % negated else (if leb limit v then v % limit else v)

-- Whether a macro asserts a limit of more than 0 as a signed number.
abbrev pub is_signed : Scalar → Bool
is_signed int8_t = true
is_signed int16_t = true
is_signed int32_t = true
is_signed int64_t = true
is_signed _ = false

unfoldable pub limited : Scalar → ℕ → ℕ → ℕ
limited int limit v = limit_int limit v
limited int8_t limit v = limit_signed 8 limit v
limited int16_t limit v = limit_signed 16 limit v
limited int32_t limit v = limit_signed 32 limit v
limited int64_t limit v = limit_signed 64 limit v
limited _ limit v = limit_unsigned limit v

-- The assertion about the limit.
unfoldable pub is_limit : Scalar → ℕ → Bool
is_limit k limit = ltb 0 limit && (not (is_signed k) || ltb limit (2 ^ (bits_of k - 1)))

module _ {W : Type 0} (random : ℕ → W → ℕ × W) where
  -- `bool_alloc`; `memory` is that for the instance, also below.
  unfoldable pub bool_alloc : Bool → W → AllocRes × Option Bool × W
  bool_alloc memory w =
      let r = random 1 w in
      if memory then (AllocRes.ok, some (not (r.0 == 0)), r.1) else (AllocRes.error, none, w)

  -- A special value, or a random one.
  unfoldable pub draw_scalar : Scalar → W → ℕ × W
  draw_scalar k w =
      let s = random bits_use_special w in
      let i = random 8 s.1 in
      let v = random (bits_of k) s.1 in
      if 2 ^ bits_use_special - 1 == s.0
      then (get_or (special k) (i.0 % length (special k)) 0, i.1)
      else (v.0 % 2 ^ bits_of k, v.1)

  -- The alloc callbacks that `ALLOC_USCALAR` and `ALLOC_SSCALAR` define; a limit is the type's
  -- environment.
  unfoldable pub scalar_alloc : Bool → Scalar → Option ℕ → W → Outcome (AllocRes × Option ℕ × W)
  scalar_alloc false k limit w = done (AllocRes.error, none, w)
  scalar_alloc true k none w = done (AllocRes.ok, some (draw_scalar k w).0, (draw_scalar k w).1)
  scalar_alloc true k (some limit) w =
      let v = draw_scalar k w in
      if is_limit k limit then done (AllocRes.ok, some (limited k limit v.0), v.1) else aborted

  -- The loop of `char_ARRAY_alloc`: the bytes that are written, and the size of the buffer.
  -- `more_memory` says whether a larger buffer is given.
  module _ (more_memory : ℕ → Bool) where
    unfoldable pub char_loop :
        ℕ → Option ℕ → ℕ → List ℕ → W → Outcome (AllocRes × Option (List ℕ × ℕ) × W)
    char_loop zero max_length ceil bytes w = no_fuel
    char_loop (suc fuel) max_length ceil bytes w =
        let size = length bytes in
        let at_end : Bool = elim max_length [ none ↦ false | some m ↦ size + 1 == m ] in
        let full = size == ceil in
        let nceil = if full then 2 * ceil else ceil in
        let b = random 8 w in
        let rest = char_loop fuel max_length nceil (bytes ++ (b.0 ∷ [])) b.1 in
        if at_end
        then done (AllocRes.ok, some (bytes ++ (0 ∷ []), ceil), w)
        else (if full && not (more_memory nceil)
            then done (AllocRes.error, none, w)
            else (if b.0 == 0
                then done (AllocRes.ok, some (bytes ++ (0 ∷ []), nceil), b.1)
                else rest))

    -- `char_ARRAY_alloc`
    unfoldable pub char_array_alloc :
        ℕ → Bool → Option ℕ → W → Outcome (AllocRes × Option (List ℕ × ℕ) × W)
    char_array_alloc fuel memory max_length w =
        let is_length : Bool = elim max_length [ none ↦ true | some m ↦ ltb 0 m ] in
        let bytes = char_loop fuel max_length 8 [] w in
        if is_length then (if memory then bytes else done (AllocRes.error, none, w)) else aborted
