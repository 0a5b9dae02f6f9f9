-- ===== src/Fill/Taken.antt =====
-- src/theft_autoshrink.c, `theft_autoshrink_bit_pool_random`: a request takes its bits, and keeps
-- what a pool satisfies.
use theft.Base.{
  ℕ, ◌+◌, ◌-◌, ◌*◌, ◌/◌, ◌%◌, ◌<◌, ◌≤◌, ◌≡◌, refl, arith, ◌∙◌, sym, subst, Bool, true, false, ◌⊎◌,
  inl, inr,
}
use theft.Base.{leb, ◌==◌, if◌then◌else◌, List, [], ◌∷◌, ◌++◌, length, sum-append_one, Bool-cases}
use theft.Types.{done, Finishes, Finishes-bind, Finishes-weaken}
use theft.Pool.{Pool, append_request}
use theft.Fill.{fill_buf, zero_bytes, lazily_fill_bit_pool, take_bits, bit_pool_random}
use theft.Fill.Loop.{fill_buf-Spells}
use theft.Fill.Agree.{Agree}
use theft.Base.{AllPositive-append_one}
use theft.Fill.Supply.{IsPool, IsGranted, lazily_fill-IsFilled}

-- How many bits are taken: as many as the limit leaves.
abbrev pub granted_bits : ℕ → Pool → ℕ
granted_bits bit_count pool =
    if leb pool.limit (pool.consumed + bit_count) then pool.limit - pool.consumed else bit_count

-- The pool after a request, up to the ceiling for requests.
abbrev pub requested : ℕ → ℕ → Pool → Pool
requested ceil n pool = record pool {
  request_ceil = ceil;
  requests = pool.requests ++ (n ∷ []);
  consumed = pool.consumed + n;
}

append_request_lem :
    (n : ℕ) (pool : Pool)
    → (ceil : ℕ) × (append_request true n pool
        ≡ (true, record pool { request_ceil = ceil; requests = pool.requests ++ (n ∷ []) }))
unfolding append_request
append_request_lem n pool = elim (Bool-cases (length pool.requests == pool.request_ceil)) [
  | inl full ↦ (pool.request_ceil * 2, rw full)
  | inr room ↦ (pool.request_ceil, rw room)
]

requested-IsPool :
    (ceil n : ℕ) (pool : Pool)
    → IsPool pool
    → 0 < n
    → pool.consumed + n ≤ pool.limit
    → pool.consumed + n ≤ pool.bits_filled
    → IsPool (requested ceil n pool)
requested-IsPool ceil n pool v some_bits within supplied = record {
  buffer = record {
    bytes = v.buffer.bytes;
    size = v.buffer.size;
    aligned = v.buffer.aligned;
    filled = v.buffer.filled;
  };
  counted = omega (arith, sum-append_one pool.requests n, v.counted);
  positive = AllPositive-append_one pool.requests n v.positive some_bits;
  within = within;
  supplied = supplied;
  shrunk = v.shrunk;
  live = v.live;
}

-- Where the bits that a request wants are there.
abbrev pub IsSupplied : ℕ → Pool → Type 0
IsSupplied bit_count pool =
    (pool.consumed + bit_count ≤ pool.bits_filled) ⊎ (pool.limit ≤ pool.bits_filled)

-- What a request keeps: the bits that were there before, taken or not, and what is taken of
-- them.
abbrev pub Keeps : Pool → Pool → Type 0
Keeps pool p =
    IsPool p
    × Agree pool.bits p.bits pool.bits_filled
    × (pool.consumed ≤ p.consumed)
    × (p.limit ≡ pool.limit)
    × (p.shrinking ≡ pool.shrinking)
    × (pool.bits_filled ≤ p.bits_filled)

pub Keeps-trans : (a b c : Pool) → Keeps a b → Keeps b c → Keeps a c
Keeps-trans a b c h k = (
  k.0,
  λ w below. h.1 w below ∙ k.1 w (omega (arith, below, h.5)),
  omega (arith, h.2, k.2),
  k.3 ∙ h.3,
  k.4 ∙ h.4,
  omega (arith, h.5, k.5),
)

pub sizes :
    (bit_count : ℕ) (pool : Pool)
    → pool.consumed ≤ pool.limit
    → 0 < bit_count
    → IsSupplied bit_count pool
    → (pool.consumed == pool.limit) ≡ false
    → let n = granted_bits bit_count pool in
      (0 < n)
      × (n ≤ bit_count)
      × (pool.consumed + n ≤ pool.limit)
      × (pool.consumed + n ≤ pool.bits_filled)
sizes bit_count pool within some_bits supplied more = ground arith

module _ {R : Type 0} (next : R → ℕ × R) (more_bits more_requests : Pool → Bool)
    (fresh : ℕ → List ℕ) (granted : IsGranted more_bits more_requests fresh) where
  -- At the limit nothing is taken.
  pub take_bits_end :
      (bit_count : ℕ) (buf : List ℕ) (pool : Pool)
      → (pool.consumed == pool.limit) ≡ true
      → take_bits next more_bits more_requests fresh bit_count buf pool
        ≡ done (zero_bytes (bit_count / 64 + (if bit_count % 64 == 0 then 0 else 1)) buf, pool)
  unfolding take_bits
  take_bits_end bit_count buf pool at_end = rw (at_end, take_bits) refl

  -- Else the request is noted, and the buffer filled.
  pub take_bits_more :
      (bit_count : ℕ) (buf : List ℕ) (pool : Pool)
      → (pool.consumed == pool.limit) ≡ false
      → (ceil : ℕ) × (take_bits next more_bits more_requests fresh bit_count buf pool
          ≡ fill_buf
              (record pool {
                request_ceil = ceil;
                requests = pool.requests ++ (granted_bits bit_count pool ∷ []);
              })
              (granted_bits bit_count pool)
              buf)
  unfolding take_bits
  take_bits_more bit_count buf pool more =
      let (ceil, appended) = append_request_lem (granted_bits bit_count pool) pool in
      (ceil, rw (more, granted.requests pool, appended, take_bits) refl)

  pub take_bits-Keeps :
      (bit_count : ℕ) (buf : List ℕ) (pool : Pool)
      → IsPool pool
      → 0 < bit_count
      → bit_count ≤ 64 * length buf
      → IsSupplied bit_count pool
      → Finishes
          (λ q. Keeps pool q.1)
          (take_bits next more_bits more_requests fresh bit_count buf pool)
  take_bits-Keeps bit_count buf pool v some_bits room supplied =
      let n = granted_bits bit_count pool in
      elim (Bool-cases (pool.consumed == pool.limit)) [
        | inl at_end ↦
            rw (take_bits_end bit_count buf pool at_end)
              (v, (λ w below. refl), omega arith, refl, refl, omega arith)
        | inr more ↦
            let size = sizes bit_count pool v.within some_bits supplied more in
            let (ceil, e) = take_bits_more bit_count buf pool more in
            rw e (
              Finishes-weaken _ (λ q. Keeps pool q.1) (fill_buf _ n buf)
                (λ q taken. subst (Keeps pool) (sym taken.1) (
                  requested-IsPool ceil n pool v size.0 size.2 size.3,
                  (λ w below. refl),
                  omega arith,
                  refl,
                  refl,
                  omega arith,
                ))
                (fill_buf-Spells _ n buf v.buffer.bytes size.0 (omega (arith, size.1, room))))
      ]

  abbrev Fresh : ℕ → Pool → Pool × R → Type 0
  Fresh bit_count pool p =
      Keeps pool p.0 × (p.0.consumed ≡ pool.consumed) × IsSupplied bit_count p.0

  supply :
      (bit_count : ℕ) (pool : Pool) (r : R) (b : Bool)
      → IsPool pool
      → pool.shrinking ≡ b
      → Finishes (Fresh bit_count pool) (
          if b
          then done (pool, r)
          else lazily_fill_bit_pool next more_bits more_requests fresh bit_count pool r)
  supply bit_count pool r true v e =
      ((v, (λ w below. refl), omega arith, refl, refl, omega arith), refl, inr (v.shrunk e))
  supply bit_count pool r false v e =
      Finishes-weaken _ (Fresh bit_count pool)
        (lazily_fill_bit_pool next more_bits more_requests fresh bit_count pool r)
        (λ q h. ((h.0, h.6, omega (arith, h.2), h.4, h.3, h.5), h.2, inl (omega (arith, h.1, h.2))))
        (lazily_fill-IsFilled next more_bits more_requests fresh granted bit_count pool r v e)

  -- Where memory is granted and the buffer has room, theft_autoshrink_bit_pool_random on a
  -- well-formed pool returns without failing an assertion; it leaves a well-formed pool with the
  -- same limit, whose bits up to those that were filled are the same, whether they were consumed
  -- or not; and it takes back no consumed and no filled bit.
  pub bit_pool_random-Keeps :
      (bit_count : ℕ) (buf : List ℕ) (pool : Pool) (r : R)
      → IsPool pool
      → bit_count ≤ 64 * length buf
      → Finishes
          (λ q. Keeps pool q.1)
          (bit_pool_random next more_bits more_requests fresh bit_count buf pool r)
  unfolding bit_pool_random
  bit_pool_random-Keeps bit_count buf pool r v room = elim (Bool-cases (bit_count == 0)) [
    | inl nothing ↦ rw nothing (v, (λ w below. refl), omega arith, refl, refl, omega arith)
    | inr something ↦ rw something (
        Finishes-bind (Fresh bit_count pool) (λ q. Keeps pool q.1)
          (if pool.shrinking
            then done (pool, r)
            else lazily_fill_bit_pool next more_bits more_requests fresh bit_count pool r)
          _ (supply bit_count pool r pool.shrinking v refl)
          λ p h.
            Finishes-bind (λ q. Keeps p.0 q.1) (λ q. Keeps pool q.1)
              (take_bits next more_bits more_requests fresh bit_count buf p.0) _
              (take_bits-Keeps bit_count buf p.0 h.0.0 (positive something) room h.2)
              λ q k. Keeps-trans pool p.0 q.1 h.0 k)
  ]
    where
      positive : (bit_count == 0) ≡ false → 0 < bit_count
      positive e = ground arith
