-- ===== src/Autoshrink/Copy.antt =====
-- src/theft_autoshrink.c, `theft_autoshrink_shrink`: the copy of a pool, once it is changed, and its
-- assertions.
use theft.Base.{
  ℕ, zero, suc, ◌-◌, ◌*◌, ◌^◌, ◌<◌, ◌≤◌, ◌≡◌, arith, ap, ◌∙◌, sym, subst, AllPositive, true, false,
  none, some, List, [], ◌∷◌, ◌++◌,
}
use theft.Base.{
  ◌==◌, ltb, if◌then◌else◌, length, length-append, length-take, length-drop, min, sum, take, drop,
  inl, inr, Bool-cases, Option-cases,
}
use theft.Base.BitArray.{IsBytes, test_bit}
use theft.Types.{Survives, Survives-bind, Survives-with}
use theft.Pool.{Pool, byte_size, truncate_trailing_zero_bytes}
use theft.Pool.Truncated.{truncate-limit}
use theft.Model.{Model, initial_weights, init_model, should_drop, weight_drop}
use theft.Mutate.{mutate_bits}
use theft.Mutate.Asserted.{IsMutating, mutate_bits-Survives}
use theft.Mutate.Bytes.{mutate_bits-keeps}
use theft.Fill.Supply.{IsBuffer, IsPool, IsBytes-append}
use theft.Autoshrink.{
  Env, or_default, is_some, asks_too_many, drop_from_bit_pool, mutate_bit_pool, change_copy,
}
use theft.Autoshrink.Drop.{drop-IsPart}

-- A pool that was not drawn from.
pub record IsUnused (pool : Pool) : Type 0 where
  pub buffer : IsBuffer pool
  pub consumed : pool.consumed ≡ 0
  pub requests : pool.requests ≡ []

unscheduled :
    (m : Model) (request_count bits : ℕ)
    → should_drop m request_count bits ≡ false
    → ((n : ℕ) → m.weights n < 256)
    → IsMutating m
unfolding should_drop
unscheduled m request_count bits h bytes = (λ e. ground arith, bytes)

initial_weights-bytes : (n : ℕ) → initial_weights n < 256
initial_weights-bytes n = ground arith

-- The weights that a round starts with are bytes.
initialised-bytes :
    (m : Model)
    → ((n : ℕ) → m.weights n < 256)
    → (n : ℕ) → (if m.weights weight_drop == 0 then init_model m else m).weights n < 256
unfolding init_model
initialised-bytes m bytes n = elim (Bool-cases (m.weights weight_drop == 0)) [
  | inr used ↦ rw used (bytes n)
  | inl fresh ↦ elim (Option-cases m.next_action) [
    | inl none' ↦ rw (fresh, none', init_model) (initial_weights-bytes n)
    | inr (a, scheduled) ↦ rw (fresh, scheduled, init_model) (bytes n)
  ]
]

take-IsBytes : (n : ℕ) (bits : List ℕ) → IsBytes bits → IsBytes (take n bits)
take-IsBytes zero bits h i = omega arith
take-IsBytes (suc n) [] h i = omega arith
take-IsBytes (suc n) (x ∷ bits) h zero = h 0
take-IsBytes (suc n) (x ∷ bits) h (suc i) = take-IsBytes n bits (λ j. h (suc j)) i

drop-IsBytes : (n : ℕ) (bits : List ℕ) → IsBytes bits → IsBytes (drop n bits)
drop-IsBytes zero bits h i = h i
drop-IsBytes (suc n) [] h i = omega arith
drop-IsBytes (suc n) (x ∷ bits) h i = drop-IsBytes n bits (λ j. h (suc j)) i

byte_size-below :
    (orig pool : Pool)
    → IsBuffer orig
    → IsBuffer pool
    → orig.bits_filled ≤ pool.bits_ceil
    → (byte_size orig ≤ length orig.bits) × (byte_size orig ≤ length pool.bits)
byte_size-below orig pool b c room =
    (ground (arith, b.filled, b.size), ground (arith, room, c.size))

pub truncate-IsUnused : (pool : Pool) → IsUnused pool → IsUnused (truncate_trailing_zero_bytes pool)
unfolding truncate_trailing_zero_bytes
truncate-IsUnused pool u = record {
  buffer = record {
    bytes = u.buffer.bytes;
    size = u.buffer.size;
    aligned = u.buffer.aligned;
    filled = omega (arith, (truncate-limit pool).1, u.buffer.filled, u.buffer.aligned);
  };
  consumed = u.consumed;
  requests = u.requests;
}

-- A pool cut to its bits is one to draw an instance from.
pub truncated-IsPool :
    (pool : Pool)
    → IsUnused pool
    → pool.limit ≤ pool.bits_filled
    → IsPool (record pool { shrinking = true })
truncated-IsPool pool u cut = record {
  buffer = record {
    bytes = u.buffer.bytes;
    size = u.buffer.size;
    aligned = u.buffer.aligned;
    filled = u.buffer.filled;
  };
  counted = ap sum u.requests ∙ sym u.consumed;
  positive = subst AllPositive (sym u.requests) tt;
  within = omega (arith, u.consumed);
  supplied = omega (arith, u.consumed);
  shrunk = λ e. cut;
  live = λ e. cc;
}

module _ {W : Type 0} (prng random : ℕ → W → ℕ × W)
    (bounded : (b : ℕ) (w : W) → (prng b w).0 < 2 ^ b) where
  -- The buffer of the copy in `mutate_bit_pool`.
  abbrev copied : Pool → Pool → List ℕ
  copied orig pool = take (byte_size orig) orig.bits ++ drop (byte_size orig) pool.bits

  copied-IsBytes :
      (orig pool : Pool)
      → IsBuffer orig
      → IsBuffer pool
      → orig.bits_filled ≤ pool.bits_ceil
      → IsBytes (copied orig pool) × (length (copied orig pool) ≡ length pool.bits)
  copied-IsBytes orig pool b c room =
      let n = byte_size orig in
      (
        IsBytes-append (take n orig.bits) (drop n pool.bits) (take-IsBytes n orig.bits b.bytes)
            (drop-IsBytes n pool.bits c.bytes),
        joined n (take n orig.bits) (drop n pool.bits) (length-take n orig.bits)
            (length-drop n pool.bits) (byte_size-below orig pool b c room),
      )
    where
      joined :
          {a b : ℕ} (n : ℕ) (xs ys : List ℕ)
          → length xs ≡ min n a
          → length ys ≡ b - n
          → (n ≤ a) × (n ≤ b)
          → length (xs ++ ys) ≡ b
      joined n xs ys p q h = omega (arith, length-append xs ys, p, q, h)

  mutate-IsUnused :
      (fuel : ℕ) (orig : Pool) (m : Model) (pool : Pool) (w : W)
      → IsPool orig
      → IsUnused pool
      → orig.bits_filled ≤ pool.bits_ceil
      → IsMutating m
      → is_some orig.index ≡ true
      → Survives (λ r. IsUnused r.0) (mutate_bit_pool prng random fuel false orig m pool w)
  unfolding mutate_bit_pool
  mutate-IsUnused fuel orig m pool w v u room mutating has_index =
      let fits = copied-IsBytes orig pool v.buffer u.buffer room in
      rw has_index (
        Survives-bind (λ r. IsBytes r.1 × (length r.1 ≡ length pool.bits)) (λ r. IsUnused r.0)
          (mutate_bits prng random fuel true orig.requests m (copied orig pool) w) _
          (Survives-with (λ r. Unit) (λ r. IsBytes r.1 × (length r.1 ≡ length pool.bits)) _
            (mutate_bits-Survives prng random bounded orig.requests v.positive fuel m
              (copied orig pool) w mutating)
            λ r e.
              let k =
                mutate_bits-keeps prng random bounded true orig.requests fuel m (copied orig pool) w
                  r.0 r.1 r.2 fits.0
                  (omega (arith, fits.1, v.counted, v.supplied, room, u.buffer.size)) e in
              (k.1, k.0 ∙ fits.1))
          λ r k. record {
            buffer = record {
              bytes = k.0;
              size = ap (λ (n : ℕ). 8 * n) k.1 ∙ u.buffer.size;
              aligned = u.buffer.aligned;
              filled = room;
            };
            consumed = u.consumed;
            requests = u.requests;
          })

  drop-IsUnused :
      (env : Env) (orig pool : Pool) (w : W)
      → IsPool orig
      → IsUnused pool
      → ((v : ℕ) → test_bit pool.bits v ≡ false)
      → orig.bits_filled ≤ pool.bits_ceil
      → IsUnused (drop_from_bit_pool prng env orig pool w).0
  unfolding drop_from_bit_pool
  drop-IsUnused env orig pool w v u blank room =
      let part =
        drop-IsPart prng env orig pool w u.buffer.bytes blank
          (omega (arith, v.counted, v.supplied, room, u.buffer.size)) in
      record {
        buffer = record {
          bytes = part.2;
          size = ap (λ (n : ℕ). 8 * n) part.3 ∙ u.buffer.size;
          aligned = u.buffer.aligned;
          filled = omega (arith, part.1, v.counted, v.supplied, room);
        };
        consumed = u.consumed;
        requests = u.requests;
      }

  pub change-IsUnused :
      (fuel : ℕ) (env : Env) (orig pool : Pool) (w : W)
      → IsPool orig
      → IsUnused pool
      → ((v : ℕ) → test_bit pool.bits v ≡ false)
      → orig.bits_filled ≤ pool.bits_ceil
      → is_some orig.index ≡ true
      → ((n : ℕ) → env.model.weights n < 256)
      → or_default env.drop_bits 5 ≤ 64
      → Survives (λ c. IsUnused c.0) (change_copy prng random fuel false env orig pool w)
  unfolding change_copy asks_too_many
  change-IsUnused fuel env orig pool w v u blank room has_index bytes few =
      let cleared : Model = record (env.model) { cur_tried = 0; cur_set = 0 } in
      let m = if cleared.weights weight_drop == 0 then init_model cleared else cleared in
      let p : ℕ × W = elim (m.next_action) [ none ↦ prng 8 w | some a ↦ (0, w) ] in
      elim (Bool-cases (should_drop m (length orig.requests) p.0)) [
        | inl drops ↦
            rw (drops, not_many (or_default env.drop_bits 5) few)
              (drop-IsUnused env orig pool p.1 v u blank room)
        | inr mutates ↦ rw mutates (
            mutate-IsUnused fuel orig m pool p.1 v u room
              (unscheduled m (length orig.requests) p.0 mutates (initialised-bytes cleared bytes))
              has_index)
      ]
    where
      not_many : (n : ℕ) → n ≤ 64 → ltb 64 n ≡ false
      not_many n h = ground arith
