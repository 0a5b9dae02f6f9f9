-- ===== src/Mutate/Bytes.antt =====
-- src/theft_autoshrink.c, `mutate_bit_pool`: the size and the bytes of the buffer across its loop.
use theft.Base.{sum, ℕ, zero, suc, ◌-◌, ◌*◌, ◌%◌, ◌^◌, ◌<◌, ◌≤◌, ◌≡◌, arith}
use theft.Base.{
  Bool, true, false, not, ◌||◌, ◌==◌, if◌then◌else◌, List, get_or, length, inl, inr, Bool-cases,
}
use theft.Base.BitArray.{IsBytes}
use native.Mathlib.Nat.{mod-lt}
use theft.Types.{
  Outcome, done, aborted, no_fuel, Ensures, Ensures-bind, Ensures-done, Ensures-weaken,
}
use theft.Model.{Model, Mutation}
use theft.Mutate.{
  log2ceil, fails_assertion, weighted_mutation, mutate_chosen, choose_and_mutate_request,
  change_loop, mutate_bits,
}
use theft.Mutate.Kept.{Kept, Kept-refl, Kept-trans, mutate_request-Kept}

nothing_said : {A : Type 0} (m : Outcome A) → Ensures (λ a. Unit) m
nothing_said (done a) = tt
nothing_said aborted = tt
nothing_said no_fuel = tt

module _ {W : Type 0} (prng random : ℕ → W → ℕ × W)
    (bounded : (b : ℕ) (w : W) → (prng b w).0 < 2 ^ b) (has_index : Bool) (requests : List ℕ) where
  abbrev KeptBy : List ℕ → Bool × Model × List ℕ × W → Type 0
  KeptBy pool r = Kept (sum requests) pool r.2

  chosen-KeptBy :
      (m : Model) (pool : List ℕ) (k : Mutation) (w : W)
      → IsBytes pool
      → sum requests ≤ 8 * length pool
      → Ensures (KeptBy pool) (mutate_chosen prng has_index requests m pool k w)
  unfolding mutate_chosen
  chosen-KeptBy m pool k w bytes inside =
      let p = prng (log2ceil (length requests)) w in
      let pos = p.0 % length requests in
      elim (Bool-cases (length requests == 0)) [
        | inl none' ↦ rw (none', mutate_chosen) (Kept-refl (sum requests) pool bytes)
        | inr some' ↦
            elim (Bool-cases
              (not has_index || fails_assertion prng k (get_or requests pos 0) p.1)) [
                | inl fails ↦ rw (some', fails, mutate_chosen) tt
                | inr fine ↦
                    rw (some', fine, mutate_chosen)
                      (mutate_request-Kept prng bounded (sum requests) k requests pos pool p.1
                        (mod-lt p.0 {m = length requests} (positive (length requests) some')) bytes
                        inside (omega arith))
              ]
      ]
    where
      positive : (n : ℕ) → (n == 0) ≡ false → 0 < n
      positive n e = ground arith

  choose-KeptBy :
      (fuel : ℕ) (m : Model) (pool : List ℕ) (w : W)
      → IsBytes pool
      → sum requests ≤ 8 * length pool
      → Ensures
          (KeptBy pool)
          (choose_and_mutate_request prng random fuel has_index requests m pool w)
  unfolding choose_and_mutate_request
  choose-KeptBy fuel m pool w bytes inside =
      Ensures-bind (λ k. Unit) (KeptBy pool) (weighted_mutation prng random fuel m w) _
        (nothing_said (weighted_mutation prng random fuel m w))
        (λ k u. chosen-KeptBy m pool k.0 k.1 bytes inside)

  abbrev Result : Type 0
  Result = Model × List ℕ × W

  abbrev KeptAfter : List ℕ → Result → Type 0
  KeptAfter pool r = Kept (sum requests) pool r.1

  -- What a buffer is after a try, and after those that follow it.
  then-KeptAfter :
      (pool pool' : List ℕ) (m : Outcome Result)
      → Kept (sum requests) pool pool'
      → Ensures (KeptAfter pool') m
      → Ensures (KeptAfter pool) m
  then-KeptAfter pool pool' m k h =
      Ensures-weaken (KeptAfter pool') (KeptAfter pool) m
        (λ r k'. Kept-trans (sum requests) pool pool' r.1 k k') h

  change_loop-KeptAfter :
      (fuel tries changes : ℕ) (m : Model) (pool : List ℕ) (w : W)
      → IsBytes pool
      → sum requests ≤ 8 * length pool
      → Ensures
          (KeptAfter pool)
          (change_loop prng random fuel has_index tries changes requests m pool w)
  unfolding change_loop
  change_loop-KeptAfter fuel zero changes m pool w bytes inside =
      Kept-refl (sum requests) pool bytes
  change_loop-KeptAfter fuel (suc tries) changes m pool w bytes inside =
      Ensures-bind (KeptBy pool) (KeptAfter pool)
        (choose_and_mutate_request prng random fuel has_index requests m pool w) _
        (choose-KeptBy fuel m pool w bytes inside)
        (λ r k.
          next r changes k
            (λ c. change_loop-KeptAfter fuel tries c r.1 r.2 r.3 k.1 (omega (arith, k.0, inside))))
    where
      next :
          (r : Bool × Model × List ℕ × W) (changes : ℕ)
          → KeptBy pool r
          → ((c : ℕ)
              → Ensures
                  (KeptAfter r.2)
                  (change_loop prng random fuel has_index tries c requests r.1 r.2 r.3))
          → Ensures (KeptAfter pool) (
              if r.0
              then (if changes == 1
                  then done (r.1, r.2, r.3)
                  else change_loop prng random fuel has_index tries
                      (changes - 1)
                      requests
                      r.1
                      r.2
                      r.3)
              else change_loop prng random fuel has_index tries changes requests r.1 r.2 r.3)
      next (true, m, pool', w) changes k ih = elim (Bool-cases (changes == 1)) [
        | inl last ↦ rw last k
        | inr more ↦ rw more (then-KeptAfter pool pool' _ k (ih (changes - 1)))
      ]
      next (false, m, pool', w) changes k ih = then-KeptAfter pool pool' _ k (ih changes)

  -- Where the generator gives numbers of no more bits than asked for, and the buffer holds the
  -- requested bits, the changes of mutate_bit_pool, whichever they are, leave every bit beyond the
  -- requested ones as it was, and a buffer of the same length, and of bytes.
  pub mutate_bits-keeps :
      (fuel : ℕ) (m : Model) (pool : List ℕ) (w : W) (m' : Model) (pool' : List ℕ) (w' : W)
      → IsBytes pool
      → sum requests ≤ 8 * length pool
      → mutate_bits prng random fuel has_index requests m pool w ≡ done (m', pool', w')
      → Kept (sum requests) pool pool'
  unfolding mutate_bits
  mutate_bits-keeps fuel m pool w m' pool' w' bytes inside e =
      Ensures-done (KeptAfter pool) (mutate_bits prng random fuel has_index requests m pool w)
        (m', pool', w') (change_loop-KeptAfter fuel _ _ m pool _ bytes inside) e
