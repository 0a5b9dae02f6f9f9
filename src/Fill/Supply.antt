-- ===== src/Fill/Supply.antt =====
-- src/theft_autoshrink.c, `theft_autoshrink_bit_pool_random`: what a pool satisfies between two
-- requests, and that a request keeps it.
use theft.Base.{
  ℕ, zero, suc, ◌+◌, ◌-◌, ◌*◌, ◌/◌, ◌%◌, ◌<◌, ◌≤◌, ◌≡◌, refl, arith, ap, ◌∙◌, sym, subst, Bool,
  true, false, inl, inr,
}
use theft.Base.{
  ltb, List, [], ◌∷◌, ◌++◌, set, length, length-append, sum, AllPositive, length-set,
  get_or-set_self, get_or-set_ne, ℕ_discrete, Bool-cases, ltb→lt, lt→ltb, dec_lt,
}
use theft.Base.BitArray.{IsBytes}
use theft.Types.{Finishes, Finishes-bind, Finishes-weaken}
use theft.Pool.{Pool}
use theft.Fill.{write_bytes, grow_loop, fill_words, lazily_fill_bit_pool}
use theft.Fill.Agree.{Agree, Agree-trans, Agree-bytes, get_or-append, get_or-write_bytes}

-- The buffer: bytes, as many as the ceiling says, in whole words, and filled in whole words.
pub record IsBuffer (pool : Pool) : Type 0 where
  pub bytes : IsBytes pool.bits
  pub size : 8 * length pool.bits ≡ pool.bits_ceil
  pub aligned : pool.bits_ceil % 64 ≡ 0
  pub filled : pool.bits_filled ≤ pool.bits_ceil

-- A pool between two requests.
pub record IsPool (pool : Pool) : Type 0 where
  pub buffer : IsBuffer pool
  pub counted : sum pool.requests ≡ pool.consumed
  pub positive : AllPositive pool.requests
  pub within : pool.consumed ≤ pool.limit
  pub supplied : pool.consumed ≤ pool.bits_filled
  pub shrunk : pool.shrinking ≡ true → pool.limit ≤ pool.bits_filled
  pub live : pool.shrinking ≡ false → (pool.bits_filled % 64 ≡ 0) × (0 < pool.bits_ceil)

-- The memory grants what is asked for.
pub record IsGranted (more_bits more_requests : Pool → Bool) (fresh : ℕ → List ℕ) : Type 0 where
  pub bits : (pool : Pool) → more_bits pool ≡ true
  pub requests : (pool : Pool) → more_requests pool ≡ true
  pub fresh_length : (n : ℕ) → length (fresh n) ≡ n
  pub fresh_bytes : (n : ℕ) → IsBytes (fresh n)

pub IsBytes-append : (xs ys : List ℕ) → IsBytes xs → IsBytes ys → IsBytes (xs ++ ys)
IsBytes-append [] ys h k i = k i
IsBytes-append (x ∷ xs) ys h k zero = h 0
IsBytes-append (x ∷ xs) ys h k (suc i) = IsBytes-append xs ys (λ j. h (suc j)) k i

set-IsBytes : (bits : List ℕ) (k v : ℕ) → IsBytes bits → v < 256 → IsBytes (set bits k v)
set-IsBytes bits k v h small i = elim (ℕ_discrete k i) [
  | no other ↦ rw (get_or-set_ne bits k i v 0 other) (h i)
  | yes here ↦ elim (dec_lt k (length bits)) [
    | yes inside ↦ rw (← here, get_or-set_self bits k v 0 inside) small
    | no outside ↦ rw (set-outside bits k v outside) (h i)
  ]
]
  where
    set-outside : (xs : List ℕ) (j w : ℕ) → ¬ (j < length xs) → set xs j w ≡ xs
    set-outside [] j w n = refl
    set-outside (x ∷ xs) zero w n = absurd (n (omega arith))
    set-outside (x ∷ xs) (suc j) w n = ap (λ t. x ∷ t) (set-outside xs j w (λ l. n (omega arith)))

write_bytes-IsBytes :
    (left i v : ℕ) (bits : List ℕ) → IsBytes bits → IsBytes (write_bytes left i v bits)
unfolding write_bytes
write_bytes-IsBytes zero i v bits h = h
write_bytes-IsBytes (suc left) i v bits h =
    write_bytes-IsBytes left (i + 1) (v / 256) (set bits i (v % 256))
      (set-IsBytes bits i (v % 256) h (omega arith))

length-write_bytes :
    (left i v : ℕ) (bits : List ℕ) → length (write_bytes left i v bits) ≡ length bits
unfolding write_bytes
length-write_bytes zero i v bits = refl
length-write_bytes (suc left) i v bits =
    length-write_bytes left (i + 1) (v / 256) (set bits i (v % 256)) ∙ length-set bits i (v % 256)

module _ {R : Type 0} (next : R → ℕ × R) (more_bits more_requests : Pool → Bool)
    (fresh : ℕ → List ℕ) (granted : IsGranted more_bits more_requests fresh) where
  -- What growing and filling leave alone.
  abbrev IsSame : Pool → Pool → Type 0
  IsSame pool p =
      (p.shrinking ≡ pool.shrinking)
      × (p.limit ≡ pool.limit)
      × (p.consumed ≡ pool.consumed)
      × (p.requests ≡ pool.requests)

  abbrev IsGrown : ℕ → Pool → Pool → Type 0
  IsGrown need pool p =
      IsBuffer p
      × IsSame pool p
      × (need ≤ p.bits_ceil)
      × (p.bits_filled ≡ pool.bits_filled)
      × (0 < p.bits_ceil)
      × Agree pool.bits p.bits pool.bits_filled

  grow_loop-IsBuffer :
      (fuel need : ℕ) (pool : Pool)
      → IsBuffer pool
      → 0 < pool.bits_ceil
      → need - pool.bits_ceil < fuel
      → Finishes (IsGrown need pool) (grow_loop next more_bits more_requests fresh fuel need pool)
  unfolding grow_loop
  grow_loop-IsBuffer zero need pool b pos h = absurd (omega (arith, h))
  grow_loop-IsBuffer (suc fuel) need pool b pos h =
      let nceil = 2 * pool.bits_ceil in
      let more = nceil / 8 - length pool.bits in
      let grown : Pool = record pool { bits = pool.bits ++ fresh more; bits_ceil = nceil } in
      let buffer : IsBuffer grown = record {
        bytes = IsBytes-append pool.bits (fresh more) b.bytes (granted.fresh_bytes more);
        size =
            omega (arith, b.size, granted.fresh_length more, length-append pool.bits (fresh more));
        aligned = omega (arith, b.aligned);
        filled = omega (arith, b.filled);
      } in
      elim (Bool-cases (ltb pool.bits_ceil need)) [
        | inl low ↦
            rw (low, granted.bits pool)
              (Finishes-weaken (IsGrown need grown) (IsGrown need pool)
                (grow_loop next more_bits more_requests fresh fuel need grown)
                (λ p g. (
                  g.0,
                  g.1,
                  g.2,
                  g.3,
                  g.4,
                  Agree-trans pool.bits grown.bits p.bits pool.bits_filled
                      (Agree-bytes pool.bits grown.bits pool.bits_filled λ i below. sym (
                        get_or-append pool.bits (fresh more) i
                          (omega (arith, below, b.size, b.filled))))
                      g.5,
                ))
                (grow_loop-IsBuffer fuel need grown buffer (omega (arith, pos))
                  (omega (arith, h, pos, ltb→lt pool.bits_ceil need low))))
        | inr high ↦ rw high (b, (refl, refl, refl, refl), ground arith, refl, pos, λ w below. refl)
      ]

  abbrev IsFilled : ℕ → Pool → Pool × R → Type 0
  IsFilled need pool q =
      IsBuffer (q.0)
      × IsSame pool (q.0)
      × (need ≤ q.0.bits_filled)
      × (q.0.bits_filled % 64 ≡ 0)
      × (q.0.bits_ceil ≡ pool.bits_ceil)
      × (pool.bits_filled ≤ q.0.bits_filled)
      × Agree pool.bits q.0.bits pool.bits_filled

  fill_words-IsBuffer :
      (fuel need : ℕ) (pool : Pool) (r : R)
      → IsBuffer pool
      → need ≤ pool.bits_ceil
      → pool.bits_filled % 64 ≡ 0
      → need - pool.bits_filled < fuel
      → Finishes
          (IsFilled need pool)
          (fill_words next more_bits more_requests fresh fuel need pool r)
  unfolding fill_words
  fill_words-IsBuffer zero need pool r b enough words h = absurd (omega (arith, h))
  fill_words-IsBuffer (suc fuel) need pool r b enough words h =
      let offset = pool.bits_filled / 64 in
      let bits = write_bytes 8 (8 * offset) (next r).0 pool.bits in
      let filled : Pool = record pool { bits = bits; bits_filled = pool.bits_filled + 64 } in
      let long : length bits ≡ length pool.bits =
        length-write_bytes 8 (8 * offset) (next r).0 pool.bits in
      elim (Bool-cases (ltb pool.bits_filled need)) [
        | inl low ↦
            let below = ltb→lt pool.bits_filled need low in
            let buffer : IsBuffer filled = record {
              bytes = write_bytes-IsBytes 8 (8 * offset) (next r).0 pool.bits b.bytes;
              size = omega (arith, b.size, long);
              aligned = b.aligned;
              filled = omega (arith, b.aligned, below, enough, words);
            } in
            let room : ltb (offset * 64) pool.bits_ceil ≡ true =
              lt→ltb (offset * 64) pool.bits_ceil (omega (arith, below, enough)) in
            rw (low, room)
              (Finishes-weaken (IsFilled need filled) (IsFilled need pool)
                (fill_words next more_bits more_requests fresh fuel need filled (next r).1)
                (λ q f. (
                  f.0,
                  f.1,
                  f.2,
                  f.3,
                  f.4,
                  omega (arith, f.5),
                  Agree-trans pool.bits bits q.0.bits pool.bits_filled
                      (Agree-bytes pool.bits bits pool.bits_filled λ i under. sym (
                        get_or-write_bytes 8 (8 * offset) (next r).0 i pool.bits
                          (omega (arith, under, words))))
                      (λ v under. f.6 v (omega (arith, under))),
                ))
                (fill_words-IsBuffer fuel need filled (next r).1 buffer enough
                  (omega (arith, words)) (omega (arith, h, below))))
        | inr high ↦
            rw high
              (b, (refl, refl, refl, refl), ground arith, words, refl, omega arith, λ w below. refl)
      ]

  pub lazily_fill-IsFilled :
      (bit_count : ℕ) (pool : Pool) (r : R)
      → IsPool pool
      → pool.shrinking ≡ false
      → Finishes
          (λ q.
            IsPool q.0
            × (pool.consumed + bit_count ≤ q.0.bits_filled)
            × (q.0.consumed ≡ pool.consumed)
            × (q.0.shrinking ≡ pool.shrinking)
            × (q.0.limit ≡ pool.limit)
            × (pool.bits_filled ≤ q.0.bits_filled)
            × Agree pool.bits q.0.bits pool.bits_filled)
          (lazily_fill_bit_pool next more_bits more_requests fresh bit_count pool r)
  unfolding lazily_fill_bit_pool
  lazily_fill-IsFilled bit_count pool r v alive =
      let need = pool.consumed + bit_count in
      let l = v.live alive in
      Finishes-bind (IsGrown need pool) _
        (grow_loop next more_bits more_requests fresh (suc need) need pool) _
        (grow_loop-IsBuffer (suc need) need pool v.buffer l.1 (omega arith))
        λ g grown.
          Finishes-weaken (IsFilled need g) _
            (fill_words next more_bits more_requests fresh (suc need) need g r)
            (λ q filled. refilled g q grown filled)
            (fill_words-IsBuffer (suc need) need g r grown.0 grown.2 (omega (arith, grown.3, l.0))
              (omega arith))
    where
      refilled :
          (g : Pool) (q : Pool × R)
          → IsGrown (pool.consumed + bit_count) pool g
          → IsFilled (pool.consumed + bit_count) g q
          → IsPool q.0
            × (pool.consumed + bit_count ≤ q.0.bits_filled)
            × (q.0.consumed ≡ pool.consumed)
            × (q.0.shrinking ≡ pool.shrinking)
            × (q.0.limit ≡ pool.limit)
            × (pool.bits_filled ≤ q.0.bits_filled)
            × Agree pool.bits q.0.bits pool.bits_filled
      refilled g q grown filled =
          let shrinking : q.0.shrinking ≡ pool.shrinking = filled.1.0 ∙ grown.1.0 in
          let limit : q.0.limit ≡ pool.limit = filled.1.1 ∙ grown.1.1 in
          let consumed : q.0.consumed ≡ pool.consumed = filled.1.2 ∙ grown.1.2 in
          let requests : q.0.requests ≡ pool.requests = filled.1.3 ∙ grown.1.3 in
          (
            record {
              buffer = filled.0;
              counted = ap sum requests ∙ v.counted ∙ sym consumed;
              positive = subst AllPositive (sym requests) v.positive;
              within = omega (arith, consumed, limit, v.within);
              supplied = omega (arith, consumed, filled.2);
              shrunk = λ e. cc;
              live = λ e. (filled.3, omega (arith, filled.4, grown.4));
            },
            filled.2,
            consumed,
            shrinking,
            limit,
            omega (arith, filled.5, grown.3),
            λ w below. grown.5 w below ∙ filled.6 w (omega (arith, below, grown.3)),
          )
