-- ===== src/Builtin/Arrays.antt =====
-- src/theft_aux_builtin.c, `char_ARRAY_alloc`: the array is a C string, and where it is written.
use theft.Base.{
  ℕ, zero, suc, ◌+◌, ◌*◌, ◌<◌, ◌≤◌, ◌≡◌, ◌≢◌, refl, arith, ap, ◌∙◌, Bool, true, false, not, ◌&&◌,
  Option, none, some, List, [], ◌∷◌, ◌++◌,
}
use theft.Base.{
  ◌==◌, ==_iff, if◌then◌else◌, length, length-append, AllPositive, AllPositive-append_one, inl, inr,
  Bool-cases, lt→ltb,
}
use theft.Types.{AllocRes, done, Finishes}
use theft.Builtin.{char_loop, char_array_alloc}

-- Bytes of which the last, and no other, is 0.
abbrev pub IsString : List ℕ → Type 0
IsString bytes = (text : List ℕ) × (bytes ≡ text ++ (0 ∷ [])) × AllPositive text

-- What is made where the length is limited: a string of at most that length, which lies in its buffer
-- unless the limit is one more than the size of the buffer.
abbrev pub IsMade : ℕ → Option (List ℕ × ℕ) → Type 0
IsMade m none = Unit
IsMade m (some (bytes, ceil)) =
    IsString bytes × (length bytes ≤ m) × (m ≢ ceil + 1 → length bytes ≤ ceil)

module _ {W : Type 0} (random : ℕ → W → ℕ × W) (more_memory : ℕ → Bool) where
  char_loop-IsMade :
      (fuel m ceil : ℕ) (bytes : List ℕ) (w : W)
      → AllPositive bytes
      → length bytes < m
      → length bytes ≤ ceil
      → 0 < ceil
      → m ≤ fuel + length bytes
      → Finishes (λ r. IsMade m r.1) (char_loop random more_memory fuel (some m) ceil bytes w)
  unfolding char_loop
  char_loop-IsMade zero m ceil bytes w v less fits pos enough = absurd (omega (arith, less, enough))
  char_loop-IsMade (suc fuel) m ceil bytes w v less fits pos enough =
      let size = length bytes in
      let b = random 8 w in
      let long = length-append bytes (0 ∷ []) in
      elim (Bool-cases (size + 1 == m)) [
        | inl last ↦
            let at : size + 1 ≡ m = (==_iff (size + 1) m).0 last in
            rw last (
              (bytes, refl, v),
              omega (arith, long, at),
              λ ne. near (length (bytes ++ (0 ∷ []))) size ceil m long at fits ne,
            )
        | inr more ↦
            let nceil = if size == ceil then 2 * ceil else ceil in
            let room : size + 1 ≤ nceil = grown size ceil fits pos in
            let next = length-append bytes (b.0 ∷ []) in
            let less' : size + 1 < m = not_last size m less more in
            rw more (elim (Bool-cases (size == ceil && not (more_memory nceil))) [
              | inl refused ↦ rw refused tt
              | inr given ↦ elim (Bool-cases (b.0 == 0)) [
                | inl ends ↦
                    rw (given, ends)
                      ((bytes, refl, v), omega (arith, long, less), λ ne. omega (arith, long, room))
                | inr goes_on ↦
                    rw (given, goes_on)
                      (char_loop-IsMade fuel m nceil (bytes ++ (b.0 ∷ [])) b.1
                        (AllPositive-append_one bytes b.0 v (positive b.0 goes_on))
                        (omega (arith, next, less')) (omega (arith, next, room))
                        (omega (arith, room)) (omega (arith, next, enough)))
              ]
            ])
      ]
    where
      near :
          (n size ceil m : ℕ) → n ≡ size + 1 → size + 1 ≡ m → size ≤ ceil → m ≢ ceil + 1 → n ≤ ceil
      near n size ceil m e at fits ne = ground arith

      grown :
          (size ceil : ℕ)
          → size ≤ ceil
          → 0 < ceil
          → size + 1 ≤ (if size == ceil then 2 * ceil else ceil)
      grown size ceil fits pos = ground arith

      not_last : (size m : ℕ) → size < m → (size + 1 == m) ≡ false → size + 1 < m
      not_last size m h e = ground arith

      positive : (b : ℕ) → (b == 0) ≡ false → 0 < b
      positive b e = ground arith

  -- char_ARRAY_alloc with a maximal length m of more than 0 returns in at most m rounds; an array
  -- that it makes is a C string (bytes of which the last, and no other, is 0) of at most m bytes,
  -- which lie in the buffer unless m is one more than the size of the buffer.
  pub char_array-IsMade :
      (fuel m : ℕ) (memory : Bool) (w : W)
      → 0 < m
      → m ≤ fuel
      → Finishes (λ r. IsMade m r.1) (char_array_alloc random more_memory fuel memory (some m) w)
  unfolding char_array_alloc
  char_array-IsMade fuel m true w pos enough =
      rw (lt→ltb 0 m pos)
        (char_loop-IsMade fuel m 8 [] w tt pos (omega arith) (omega arith) (omega (arith, enough)))
  char_array-IsMade fuel m false w pos enough = rw (lt→ltb 0 m pos) tt

  overruns_from :
      (fuel : ℕ) (bytes : List ℕ) (w : W)
      → ((v : W) → 0 < (random 8 v).0)
      → fuel + length bytes ≡ 9
      → length bytes < 9
      → (text : List ℕ) × (w' : W) × (char_loop random more_memory fuel (some 9) 8 bytes w
          ≡ done (AllocRes.ok, some (text ++ (0 ∷ []), 8), w'))
        × (length text ≡ 8)
  unfolding char_loop
  overruns_from zero bytes w busy e less = absurd (omega (arith, e, less))
  overruns_from (suc fuel) bytes w busy e less =
      let b = random 8 w in
      let next = length-append bytes (b.0 ∷ []) in
      elim (Bool-cases (length bytes + 1 == 9)) [
        | inl last ↦ (bytes, w, rw last refl, ground arith)
        | inr more ↦
            let below : length bytes < 8 = ground arith in
            let (text, w', r, n) =
              overruns_from fuel (bytes ++ (b.0 ∷ [])) b.1 busy (omega (arith, next, e))
                (omega (arith, next, below)) in
            (text, w', rw (more, not_full (length bytes) below, not_zero b.0 (busy w)) r, n)
      ]
    where
      not_full : (n : ℕ) → n < 8 → (n == 8) ≡ false
      not_full n h = ground arith

      not_zero : (n : ℕ) → 0 < n → (n == 0) ≡ false
      not_zero n h = ground arith

  -- Where no random byte is 0 and memory is granted, char_ARRAY_alloc with a maximal length of 9
  -- writes one byte more than its buffer has.
  pub char_array-overruns :
      (w : W)
      → ((v : W) → 0 < (random 8 v).0)
      → (bytes : List ℕ) × (ceil : ℕ) × (w' : W) × (char_array_alloc random more_memory 9 true
            (some 9)
            w
          ≡ done (AllocRes.ok, some (bytes, ceil), w'))
        × (length bytes ≡ ceil + 1)
  unfolding char_array_alloc
  char_array-overruns w busy =
      let (text, w', e, n) = overruns_from 9 [] w busy refl (omega arith) in
      (text ++ (0 ∷ []), 8, w', e, length-append text (0 ∷ []) ∙ ap (λ (t : ℕ). t + 1) n)
