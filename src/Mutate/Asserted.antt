-- ===== src/Mutate/Asserted.antt =====
-- src/theft_autoshrink.c, `mutate_bit_pool`: its loop fails no assertion.
use theft.Base.{
  ℕ, zero, suc, ◌-◌, ◌%◌, ◌<◌, ◌≤◌, ◌≡◌, ◌≢◌, refl, arith, true, false, ◌^◌, Option, none, some,
  List, [], ◌∷◌,
}
use theft.Base.{◌==◌, leb, if◌then◌else◌, get_or, length, inl, inr, Bool-cases, AllPositive}
use native.Mathlib.Nat.{mod-lt}
use theft.Types.{done, aborted, Survives, Survives-bind, Survives-if}
use theft.Model.{Action, Model, Mutation, mutation_of, bit_count}
use theft.Model.Draws.{bit_count-le}
use theft.Mutate.Kept.{fit_blocks-lt}
use theft.Mutate.{
  log2ceil, fails_assertion, note_mutation, draw_weighted, weighted_mutation, mutate_chosen,
  choose_and_mutate_request, change_loop, mutate_bits,
}

-- No DROP is scheduled, and the weights are bytes.
abbrev pub IsMutating : Model → Type 0
IsMutating m = (m.next_action ≢ some Action.drop) × ((n : ℕ) → m.weights n < 256)

get_or-positive :
    (requests : List ℕ) (pos : ℕ)
    → AllPositive requests
    → pos < length requests
    → 0 < get_or requests pos 0
get_or-positive [] pos h below = absurd (omega (arith, below))
get_or-positive (x ∷ xs) zero h below = h.0
get_or-positive (x ∷ xs) (suc pos) h below = get_or-positive xs pos h.1 (omega (arith, below))

module _ {W : Type 0} (prng random : ℕ → W → ℕ × W)
    (bounded : (b : ℕ) (w : W) → (prng b w).0 < 2 ^ b) (requests : List ℕ)
    (positive : AllPositive requests) where
  -- Two blocks that were made to fit in a request leave some of it.
  fails_assertion-positive :
      (k : Mutation) (size : ℕ) (w : W) → 0 < size → fails_assertion prng k size w ≡ false
  unfolding fails_assertion
  fails_assertion-positive Mutation.shift size w h = refl
  fails_assertion-positive Mutation.mask size w h = refl
  fails_assertion-positive Mutation.swap size w h =
      ground (arith, fit_blocks-lt 8 size (prng 6 w).0 h (omega (arith, bounded 6 w)))
  fails_assertion-positive Mutation.sub size w h = refl

  draw_weighted-Survives :
      (fuel : ℕ) (weights : ℕ → ℕ) (w : W)
      → Survives (λ k. Unit) (draw_weighted prng random fuel weights w)
  unfolding draw_weighted
  draw_weighted-Survives zero weights w = tt
  draw_weighted-Survives (suc fuel) weights w =
      let r = random (bit_count weights) w in
      next r.1 (mutation_of weights r.0) (draw_weighted-Survives fuel weights r.1)
    where
      next :
          (w' : W) (k : Option Mutation)
          → Survives (λ q. Unit) (draw_weighted prng random fuel weights w')
          → Survives
              (λ (q : Mutation × W). Unit)
              (elim k [
                | some k' ↦ done (k', w')
                | none ↦ draw_weighted prng random fuel weights w'
              ])
      next w' none h = h
      next w' (some k) h = tt

  weighted_mutation-Survives :
      (fuel : ℕ) (m : Model) (w : W)
      → IsMutating m
      → Survives (λ k. Unit) (weighted_mutation prng random fuel m w)
  unfolding weighted_mutation
  weighted_mutation-Survives fuel m w mutating = scheduled m.next_action mutating.0
    where
      few : (n : ℕ) → n ≤ 10 → leb n 16 ≡ true
      few n h = ground arith

      scheduled :
          (next : Option Action)
          → next ≢ some Action.drop
          → Survives
              (λ k. Unit)
              (elim next [
                | none ↦
                    let drawn = draw_weighted prng random fuel m.weights w in
                    if leb (bit_count m.weights) 16 then drawn else aborted
                | some Action.drop ↦ aborted
                | some Action.shift ↦ done (Mutation.shift, w)
                | some Action.mask ↦ done (Mutation.mask, w)
                | some Action.swap ↦ done (Mutation.swap, w)
                | some Action.sub ↦ done (Mutation.sub, w)
              ])
      scheduled none h =
          rw (few (bit_count m.weights) (bit_count-le m.weights mutating.1))
            (draw_weighted-Survives fuel m.weights w)
      scheduled (some Action.drop) h = h refl
      scheduled (some Action.shift) h = tt
      scheduled (some Action.mask) h = tt
      scheduled (some Action.swap) h = tt
      scheduled (some Action.sub) h = tt

  mutate_chosen-Survives :
      (m : Model) (pool : List ℕ) (k : Mutation) (w : W)
      → IsMutating m
      → Survives (λ r. IsMutating r.1) (mutate_chosen prng true requests m pool k w)
  unfolding mutate_chosen note_mutation
  mutate_chosen-Survives m pool k w mutating =
      let p = prng (log2ceil (length requests)) w in
      let pos = p.0 % length requests in
      elim (Bool-cases (length requests == 0)) [
        | inl none' ↦ rw none' mutating
        | inr some' ↦
            rw
              (
                some',
                fails_assertion-positive k (get_or requests pos 0) p.1 (
                    get_or-positive requests pos positive
                      (mod-lt p.0 {m = length requests} (at_least_one (length requests) some'))),
              )
              mutating
      ]
    where
      at_least_one : (n : ℕ) → (n == 0) ≡ false → 0 < n
      at_least_one n e = ground arith

  change_loop-Survives :
      (fuel tries changes : ℕ) (m : Model) (pool : List ℕ) (w : W)
      → IsMutating m
      → Survives (λ r. Unit) (change_loop prng random fuel true tries changes requests m pool w)
  unfolding change_loop choose_and_mutate_request
  change_loop-Survives fuel zero changes m pool w mutating = tt
  change_loop-Survives fuel (suc tries) changes m pool w mutating =
      Survives-bind (λ r. IsMutating r.1) (λ r. Unit)
        (choose_and_mutate_request prng random fuel true requests m pool w) _
        (Survives-bind (λ k. Unit) (λ r. IsMutating r.1) (weighted_mutation prng random fuel m w) _
          (weighted_mutation-Survives fuel m w mutating)
          λ k u. mutate_chosen-Survives m pool k.0 k.1 mutating)
        λ r h.
          Survives-if (λ q. Unit) r.0 _ _
            (Survives-if (λ q. Unit) (changes == 1) (done (r.1, r.2, r.3)) _ tt
              (change_loop-Survives fuel tries (changes - 1) r.1 r.2 r.3 h))
            (change_loop-Survives fuel tries changes r.1 r.2 r.3 h)

  -- mutate_bits with an index fails no assertion.
  pub mutate_bits-Survives :
      (fuel : ℕ) (m : Model) (pool : List ℕ) (w : W)
      → IsMutating m
      → Survives (λ r. Unit) (mutate_bits prng random fuel true requests m pool w)
  unfolding mutate_bits
  mutate_bits-Survives fuel m pool w mutating = change_loop-Survives fuel _ _ m pool _ mutating
