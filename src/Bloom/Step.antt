-- ===== src/Bloom/Step.antt =====
-- What one call of `theft_bloom_mark` does to the block that it works on.
use theft.Base.{ℕ, ◌+◌, ◌*◌, ◌%◌, ◌≢◌, ◌<◌, ◌≤◌, ◌≡◌, refl, arith, ◌⊎◌, inl, inr}
use theft.Base.{Bool, true, false, List, [], ◌∷◌, get_or, set, none, some}
use theft.Base.{ltb, lt→ltb, Bool-cases, Option-cases}
use mathlib.Core.Path.{subst}
use theft.Base.Words.{◌>>>◌}
use theft.Bloom.{
  Filter, Bloom, hash_count, mark_loop, grow, alloc_filter, front_block, front_or_alloc, mark_hash,
  hit_all, check_block, block_id,
}
use theft.Bloom.Valid.{IsFilter, IsValid, All, Fits, alloc_filter-IsFilter}
use theft.Bloom.Mark.{mark_loop-IsFilter, hit_all-mark_loop, hit_all-mark_loop_keeps}

-- The block of `id` was replaced by `new`, in which all matches of `old` are kept.
pub record Replaced (b : Bloom) (id : ℕ) (old : List Filter) (b' : Bloom) : Type 0 where
  pub new : List Filter
  pub result : b' ≡ record b { blocks = set b.blocks id new }
  pub valid : All IsFilter new
  pub keeps : (hash : ℕ) → check_block hash old ≡ true → check_block hash new ≡ true
  pub fits : b.top_block2 % 4 ≢ 0 → All (Fits b.top_block2) old → All (Fits b.top_block2) new

abbrev pub with_block : Bloom → ℕ → List Filter → Bloom
with_block b id new = record b { blocks = set b.blocks id new }

grow_cases :
    (malloc : ℕ → Bool) (b : Bloom) (id : ℕ) (any_set : Bool) (bf : Filter) (rest : List Filter)
    → ((grow malloc b id any_set bf rest).1 ≡ with_block b id (bf ∷ rest))
      ⊎ ((nbf : Filter) × (alloc_filter malloc (bf.size2 + 1) ≡ some nbf)
          × (b.top_block2 + hash_count * (bf.size2 + 1) ≤ 64)
          × ((grow malloc b id any_set bf rest).1 ≡ with_block b id (nbf ∷ bf ∷ rest)))
unfolding grow
grow_cases malloc b id true bf rest = inl refl
grow_cases malloc b id false bf rest =
    elim (Bool-cases (ltb 64 (b.top_block2 + hash_count * (bf.size2 + 1)))) [
      | inl full ↦ inl (rw full)
      | inr room ↦ elim (Option-cases (alloc_filter malloc (bf.size2 + 1))) [
        | inl fails ↦ inl (rw (room, fails))
        | inr (nbf, e) ↦ inr (nbf, e, ground arith, rw (room, e))
      ]
    ]

-- Growing adds at most one valid filter at the front.
grow-Replaced :
    (malloc : ℕ → Bool) (b : Bloom) (id : ℕ) (any_set : Bool) (bf : Filter) (rest : List Filter)
    → IsFilter bf
    → All IsFilter rest
    → Replaced b id (bf ∷ rest) (grow malloc b id any_set bf rest).1
unfolding check_block
grow-Replaced malloc b id any_set bf rest v vs = elim (grow_cases malloc b id any_set bf rest) [
  | inl e ↦ record {
    new = bf ∷ rest;
    result = e;
    valid = (v, vs);
    keeps = λ hash h. h;
    fits = λ odd h. h;
  }
  | inr (nbf, a, small, e) ↦ record {
    new = nbf ∷ bf ∷ rest;
    result = e;
    valid = ((alloc_filter-IsFilter malloc (bf.size2 + 1) (omega (arith, v.wide)) a).0, (v, vs));
    keeps = λ hash h. ground (arith, h);
    fits = λ odd h.
        let size : nbf.size2 ≡ bf.size2 + 1 =
          (alloc_filter-IsFilter malloc (bf.size2 + 1) (omega (arith, v.wide)) a).1 in
        (omega arith, h);
  }
]

-- What `mark` finds or allocates is valid, and matches what its block matched.
record IsFront (top min2 : ℕ) (old : List Filter) (bf : Filter) (rest : List Filter) : Type 0 where
  fits : top + hash_count * min2 < 64 → All (Fits top) old → All (Fits top) (bf ∷ rest)
  first : IsFilter bf
  others : All IsFilter rest
  same : (hash : ℕ) → check_block hash old ≡ true → check_block hash (bf ∷ rest) ≡ true

front_or_alloc_cases :
    (malloc : ℕ → Bool) (top min2 : ℕ) (old : List Filter)
    → 3 ≤ min2
    → All IsFilter old
    → (front_or_alloc malloc min2 old ≡ none)
      ⊎ ((bf : Filter) × (rest : List Filter) × (front_or_alloc malloc min2 old ≡ some (bf, rest))
          × IsFront top min2 old bf rest)
unfolding front_or_alloc check_block
front_or_alloc_cases malloc top min2 (f ∷ fs) wide v =
    inr (f, fs, refl, record { fits = λ h w. w; first = v.0; others = v.1; same = λ hash h. h })
front_or_alloc_cases malloc top min2 [] wide v = elim (Option-cases (alloc_filter malloc min2)) [
  | inl fails ↦ inl (rw (fails, front_or_alloc))
  | inr (bf, e) ↦ inr (
    bf,
    [],
    rw (e, front_or_alloc),
    record {
      fits = λ h w. (omega (arith, (alloc_filter-IsFilter malloc min2 wide e).1), tt);
      first = (alloc_filter-IsFilter malloc min2 wide e).0;
      others = tt;
      same = λ hash h. cc;
    },
  )
]

check_block_front :
    (hash : ℕ) (bf : Filter) (rest : List Filter)
    → hit_all hash_count 0 hash bf ≡ true
    → check_block hash (bf ∷ rest) ≡ true
unfolding check_block
check_block_front hash bf rest h = rw h

check_block-front_keeps :
    (hash : ℕ) (bf bf' : Filter) (rest : List Filter)
    → (hit_all hash_count 0 hash bf ≡ true → hit_all hash_count 0 hash bf' ≡ true)
    → check_block hash (bf ∷ rest) ≡ true
    → check_block hash (bf' ∷ rest) ≡ true
unfolding check_block
check_block-front_keeps hash bf bf' rest keep h = elim (Bool-cases (hit_all hash_count 0 hash bf)) [
  | inl e ↦ rw (keep e)
  | inr e ↦ ground arith
]

-- What a call that does not abort and was given its first filter has done.
pub record Marked (b : Bloom) (hash : ℕ) (b' : Bloom) : Type 0 where
  pub new : List Filter
  pub result : b' ≡ with_block b (block_id b hash) new
  pub valid : All IsFilter new
  pub hits : check_block (hash >>> b.top_block2) new ≡ true
  pub keeps :
      (other : ℕ)
      → check_block other (get_or b.blocks (block_id b hash) []) ≡ true
      → check_block other new ≡ true
  pub fits :
      b.top_block2 % 4 ≢ 0
      → b.top_block2 + hash_count * b.min_filter2 < 64
      → All (Fits b.top_block2) (get_or b.blocks (block_id b hash) [])
      → All (Fits b.top_block2) new

marked_filter : Bloom → ℕ → Filter → Filter
marked_filter b hash bf = record {
  size2 = bf.size2;
  bits = (mark_loop hash_count 0 (hash >>> b.top_block2) bf.size2 false bf.bits).1;
}

grow-Marked :
    (malloc : ℕ → Bool) (b : Bloom) (hash : ℕ) (any_set : Bool) (bf : Filter) (rest : List Filter)
    → IsFront b.top_block2 b.min_filter2 (get_or b.blocks (block_id b hash) []) bf rest
    → Marked b hash (grow malloc b (block_id b hash) any_set (marked_filter b hash bf) rest).1
unfolding marked_filter
grow-Marked malloc b hash any_set bf rest front =
    let shifted : ℕ = hash >>> b.top_block2 in
    let bf' : Filter = marked_filter b hash bf in
    let r : Replaced b (block_id b hash) (bf' ∷ rest)
        (grow malloc b (block_id b hash) any_set bf' rest).1 =
      grow-Replaced malloc b (block_id b hash) any_set bf' rest
        (mark_loop-IsFilter hash_count 0 shifted bf.size2 false bf.bits front.first) front.others in
    record {
      new = r.new;
      result = r.result;
      valid = r.valid;
      hits = r.keeps shifted (
          check_block_front shifted bf' rest
            (hit_all-mark_loop hash_count 0 shifted bf.size2 false bf.bits front.first));
      keeps = λ other h. r.keeps other (
          check_block-front_keeps other bf bf' rest
            (hit_all-mark_loop_keeps hash_count 0 other hash_count 0 shifted bf.size2 false bf.bits
              front.first)
            (front.same other h));
      fits = λ odd small h. r.fits odd (front.fits small h);
    }

-- The three ways in which marking ends: no memory for a first filter, abort, or marked.
pub mark_hash_cases :
    (malloc : ℕ → Bool) (b : Bloom) (hash : ℕ)
    → IsValid b
    → (mark_hash malloc b hash ≡ some (false, b))
      ⊎ (mark_hash malloc b hash ≡ none)
      ⊎ ((r : Bool) × (b' : Bloom) × (mark_hash malloc b hash ≡ some (r, b')) × Marked b hash b')
unfolding mark_hash front_block marked_filter
mark_hash_cases malloc b hash v =
    elim (front_or_alloc_cases malloc b.top_block2 b.min_filter2
      (get_or b.blocks (block_id b hash) []) v.min_wide (v.filters (block_id b hash))) [
        | inl fails ↦ inl (rw (fails, mark_hash))
        | inr (bf, rest, e, front) ↦
            elim (Bool-cases (ltb (b.top_block2 + hash_count * bf.size2) 64)) [
              | inr aborts ↦ inr (inl (rw (e, aborts, mark_hash)))
              | inl fits ↦
                  let marked : Bool × List ℕ =
                    mark_loop hash_count 0 (hash >>> b.top_block2) bf.size2 false bf.bits in
                  let g : Bool × Bloom =
                    grow malloc b (block_id b hash) marked.0 (marked_filter b hash bf) rest in
                  inr (
                    inr (
                      g.0,
                      g.1,
                      rw (e, fits, mark_hash),
                      grow-Marked malloc b hash marked.0 bf rest front,
                    ))
            ]
      ]

-- Seen from a result that was returned.
pub mark_hash_returns :
    (malloc : ℕ → Bool) (b : Bloom) (hash : ℕ) (r : Bool) (b' : Bloom)
    → IsValid b
    → mark_hash malloc b hash ≡ some (r, b')
    → ((r ≡ false) × (b' ≡ b)) ⊎ Marked b hash b'
mark_hash_returns malloc b hash r b' v e = elim (mark_hash_cases malloc b hash v) [
  | inl fails ↦ inl (cc, cc)
  | inr (inl aborts) ↦ absurd (cc)
  | inr (inr (r'', b'', e', m)) ↦
      let same : b'' ≡ b' = cc in inr (subst (λ x. Marked b hash x) same m)
]

-- A filter in which every check fits its hash is marked without an abort.
pub mark_hash-ne-none :
    (malloc : ℕ → Bool) (b : Bloom) (hash : ℕ)
    → IsValid b
    → b.top_block2 + hash_count * b.min_filter2 < 64
    → All (Fits b.top_block2) (get_or b.blocks (block_id b hash) [])
    → mark_hash malloc b hash ≢ none
unfolding mark_hash front_block marked_filter
mark_hash-ne-none malloc b hash v small fit =
    elim (front_or_alloc_cases malloc b.top_block2 b.min_filter2
      (get_or b.blocks (block_id b hash) []) v.min_wide (v.filters (block_id b hash))) [
        | inl fails ↦ λ e. cc (rw (fails, mark_hash) at e)
        | inr (bf, rest, e, front) ↦ λ none'.
            let fits : ltb (b.top_block2 + hash_count * bf.size2) 64 ≡ true =
              lt→ltb _ _ (front.fits small fit).0 in
            cc (rw (e, fits, mark_hash) at none')
      ]
