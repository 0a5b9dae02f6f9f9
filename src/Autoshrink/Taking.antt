-- ===== src/Autoshrink/Taking.antt =====
-- src/theft_autoshrink.c: what a request takes from a pool in use, it takes from a shrinking pool with
-- the same bits.
use theft.Base.{
  ℕ, ◌+◌, ◌<◌, ◌≤◌, ◌≡◌, refl, arith, ap, ◌∙◌, sym, subst, Bool, true, false, List, [], ◌∷◌, ◌++◌,
}
use theft.Base.{◌==◌, if◌then◌else◌, Bool-cases, inl, inr}
use theft.Types.{Outcome, done, ◌>>=◌}
use theft.Pool.{Pool}
use theft.Fill.{fill_buf, lazily_fill_bit_pool, take_bits, bit_pool_random}
use theft.Fill.Agree.{Agree, fill_buf_after, fill_buf_same}
use theft.Fill.Supply.{IsPool, IsGranted}
use theft.Fill.Taken.{Keeps, IsSupplied, granted_bits, take_bits_end, take_bits_more, sizes}

module _ {W : Type 0} (next : W → ℕ × W) (more_bits more_requests : Pool → Bool)
    (fresh : ℕ → List ℕ) (granted : IsGranted more_bits more_requests fresh) where
  -- What a request gave: the buffer, and a pool that took as much as another.
  abbrev pub Took : Pool → Pool → List ℕ → Outcome (List ℕ × Pool) → Type 0
  Took q p' dst m =
      (q' : Pool) × (m ≡ done (dst, q'))
      × (q'.consumed ≡ p'.consumed)
      × (q'.bits ≡ q.bits)
      × (q'.limit ≡ q.limit)
      × (q'.shrinking ≡ q.shrinking)

  pub take_same :
      (bit_count : ℕ) (buf dst : List ℕ) (g q p' last : Pool)
      → IsPool g
      → IsPool q
      → 0 < bit_count
      → IsSupplied bit_count g
      → g.consumed ≡ q.consumed
      → q.limit ≤ g.limit
      → Keeps p' last
      → Agree last.bits q.bits last.consumed
      → last.consumed ≤ q.limit
      → take_bits next more_bits more_requests fresh bit_count buf g ≡ done (dst, p')
      → Took q p' dst (take_bits next more_bits more_requests fresh bit_count buf q)
  take_same bit_count buf dst g q p' last v u some_bits supplied same bound keeps agree enough e =
      elim (Bool-cases (g.consumed == g.limit)) [
        | inl at_end ↦
            let got =
              sym (take_bits_end next more_bits more_requests fresh granted bit_count buf g at_end)
              ∙ e in
            let stays : g ≡ p' = cc got in
            let kept = subst (λ t. Keeps t last) (sym stays) keeps in
            let q_end = end_of at_end (omega (arith, kept.2, enough)) in
            (
              q,
              take_bits_end next more_bits more_requests fresh granted bit_count buf q q_end
                  ∙ cc got,
              sym same ∙ ap (λ (t : Pool). t.consumed) stays,
              refl,
              refl,
              refl,
            )
        | inr more ↦
            let n = granted_bits bit_count g in
            let size = sizes bit_count g v.within some_bits supplied more in
            let (ceil, from_g) =
              take_bits_more next more_bits more_requests fresh granted bit_count buf g more in
            let filled = sym from_g ∙ e in
            let after = fill_buf_after _ p' n buf dst filled in
            let kept = subst (λ t. Keeps t last) (sym after) keeps in
            let q_more = more_of (omega (arith, kept.2, enough, size.0, same)) in
            let (ceil', from_q) =
              take_bits_more next more_bits more_requests fresh granted bit_count buf q q_more in
            let taken : granted_bits bit_count q ≡ n =
              same_size size.0 size.1 (omega (arith, kept.2, enough)) in
            (
              record q {
                request_ceil = ceil';
                requests = q.requests ++ (granted_bits bit_count q ∷ []);
                consumed = q.consumed + n;
              },
              from_q
                  ∙ ap
                      (λ (t : ℕ).
                        fill_buf
                          (record q {
                            request_ceil = ceil';
                            requests = q.requests ++ (granted_bits bit_count q ∷ []);
                          })
                          t buf)
                      taken
                  ∙ fill_buf_same _ _ p' n buf dst v.buffer.bytes u.buffer.bytes same
                      (λ w below.
                        kept.1 w (omega (arith, below, size.3))
                        ∙ agree w (omega (arith, below, kept.2)))
                      filled,
              omega (arith, same, ap (λ (t : Pool). t.consumed) after),
              refl,
              refl,
              refl,
            )
      ]
    where
      end_of :
          (g.consumed == g.limit) ≡ true → g.consumed ≤ q.limit → (q.consumed == q.limit) ≡ true
      end_of at_end h = ground (arith, u.within)

      more_of : q.consumed < q.limit → (q.consumed == q.limit) ≡ false
      more_of h = ground arith

      same_size :
          let n = granted_bits bit_count g in
          0 < n → n ≤ bit_count → g.consumed + n ≤ q.limit → granted_bits bit_count q ≡ n
      same_size some_taken few h = ground (arith, u.within, v.within)

  -- A request of a pool that is alive, and of one that is shrinking.
  pub live_request :
      (bit_count : ℕ) (buf : List ℕ) (p : Pool) (w : W)
      → (bit_count == 0) ≡ false
      → p.shrinking ≡ false
      → bit_pool_random next more_bits more_requests fresh bit_count buf p w ≡ (
          lazily_fill_bit_pool next more_bits more_requests fresh bit_count p w >>= λ g.
          take_bits next more_bits more_requests fresh bit_count buf g.0 >>= λ q.
          done (q.0, q.1, g.1))
  unfolding bit_pool_random
  live_request bit_count buf p w some_bits e = rw some_bits (
      ap
        (λ (b : Bool).
          (if b
            then done (p, w)
            else lazily_fill_bit_pool next more_bits more_requests fresh bit_count p w)
          >>= λ g. take_bits next more_bits more_requests fresh bit_count buf g.0 >>= λ q.
              done (q.0, q.1, g.1))
        e)

  pub shrinking_request :
      (bit_count : ℕ) (buf : List ℕ) (p : Pool) (w : W)
      → (bit_count == 0) ≡ false
      → p.shrinking ≡ true
      → bit_pool_random next more_bits more_requests fresh bit_count buf p w
        ≡ (take_bits next more_bits more_requests fresh bit_count buf p >>= λ q. done (q.0, q.1, w))
  unfolding bit_pool_random
  shrinking_request bit_count buf p w some_bits e = rw some_bits (
      ap
        (λ (b : Bool).
          (if b
            then done (p, w)
            else lazily_fill_bit_pool next more_bits more_requests fresh bit_count p w)
          >>= λ g. take_bits next more_bits more_requests fresh bit_count buf g.0 >>= λ q.
              done (q.0, q.1, g.1))
        e)

  pub no_request :
      (bit_count : ℕ) (buf : List ℕ) (p : Pool) (w : W)
      → (bit_count == 0) ≡ true
      → bit_pool_random next more_bits more_requests fresh bit_count buf p w ≡ done (buf, p, w)
  unfolding bit_pool_random
  no_request bit_count buf p w nothing = rw nothing refl
