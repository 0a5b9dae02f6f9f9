-- ===== src/Bloom/Growth.antt =====
-- Which hash bits a filter needs: when `theft_bloom_mark` fails its assertion, and when not.
use theft.Base.{ℕ, ◌+◌, ◌*◌, ◌/◌, ◌%◌, ◌^◌, ◌<◌, ◌≤◌, ◌≡◌, ◌≢◌, refl, arith, ◌⊎◌, inl, inr}
use theft.Base.{Bool, true, false, List, [], ◌∷◌, get_or, length, replicate, none, some, ltb}
use theft.Base.{lt→ltb, Bool-cases, Option-cases, get_or-set_self, get_or-replicate}
use theft.Base.Words.{◌>>>◌, bit_and-low_mask, pow-pos}
use native.Mathlib.Nat.{mod-lt}
use theft.Hash.{onepass}
use theft.Bloom.{
  Filter, Bloom, Config, hash_count, or_default, init, mark, mark_hash, mark_loop, grow,
  alloc_filter, block_id, front_block, front_or_alloc,
}
use theft.Bloom.Valid.{IsValid, All, Fits}
use theft.Bloom.Step.{mark_hash_returns, mark_hash-ne-none, with_block}
use theft.Bloom.Laws.{block_after, mark-IsValid, init-IsValid, mark_all}

-- A first filter, and each filter that is there, can be checked with one hash.
pub record IsFitting (b : Bloom) : Type 0 where
  pub min_fits : b.top_block2 + hash_count * b.min_filter2 < 64
  pub filters_fit : (id : ℕ) → All (Fits b.top_block2) (get_or b.blocks id [])

-- A marking of such a filter does not abort.
mark-returns :
    (malloc : ℕ → Bool) (b : Bloom) (bytes : List ℕ)
    → IsValid b
    → IsFitting b
    → mark malloc b bytes ≢ none
unfolding mark
mark-returns malloc b bytes v fit =
    mark_hash-ne-none malloc b (onepass bytes) v fit.min_fits
      (fit.filters_fit (block_id b (onepass bytes)))

-- Where the number of block bits is no multiple of four, theft_bloom_mark on a valid filter in
-- which every check fits in one hash leaves such a filter: growth stops in time.
pub mark-IsFitting :
    (malloc : ℕ → Bool) (b : Bloom) (bytes : List ℕ) (r : Bool) (b' : Bloom)
    → IsValid b
    → IsFitting b
    → b.top_block2 % 4 ≢ 0
    → mark malloc b bytes ≡ some (r, b')
    → IsFitting b'
unfolding mark
mark-IsFitting malloc b bytes r b' v fit odd e =
    elim (mark_hash_returns malloc b (onepass bytes) r b' v e) [
      | inl (_, same) ↦ rw same fit
      | inr m ↦ rw m.result (record {
        min_fits = fit.min_fits;
        filters_fit = λ id. elim (block_after b (onepass bytes) id m.new v) [
          | inl (e', _) ↦
              rw e' (m.fits odd fit.min_fits (fit.filters_fit (block_id b (onepass bytes))))
          | inr e' ↦ rw e' (fit.filters_fit id)
        ];
      })
    ]

mark-top_block2 :
    (malloc : ℕ → Bool) (b : Bloom) (bytes : List ℕ) (r : Bool) (b' : Bloom)
    → IsValid b
    → mark malloc b bytes ≡ some (r, b')
    → b'.top_block2 ≡ b.top_block2
unfolding mark
mark-top_block2 malloc b bytes r b' v e =
    elim (mark_hash_returns malloc b (onepass bytes) r b' v e) [
      | inl (_, same) ↦ rw same refl
      | inr m ↦ rw m.result refl
    ]

mark_all-returns :
    (malloc : ℕ → Bool) (b : Bloom) (more : List (List ℕ))
    → IsValid b
    → IsFitting b
    → b.top_block2 % 4 ≢ 0
    → mark_all malloc b more ≢ none
unfolding mark_all
mark_all-returns malloc b [] v fit odd = λ none'. cc
mark_all-returns malloc b (bytes ∷ more) v fit odd = elim (Option-cases (mark malloc b bytes)) [
  | inl aborts ↦ absurd (mark-returns malloc b bytes v fit aborts)
  | inr (res, e) ↦ λ none'.
      mark_all-returns malloc res.1 more (mark-IsValid malloc b bytes res.0 res.1 v e)
        (mark-IsFitting malloc b bytes res.0 res.1 v fit odd e)
        (rw (mark-top_block2 malloc b bytes res.0 res.1 v e) odd) (rw (e, mark_all) at none')
]

fresh-IsFitting :
    (top min2 : ℕ)
    → top + hash_count * min2 < 64
    → IsFitting (record { top_block2 = top; min_filter2 = min2; blocks = replicate (2 ^ top) [] })
fresh-IsFitting top min2 h = record {
  min_fits = h;
  filters_fit = λ id. rw (get_or-replicate {A = List Filter} (2 ^ top) id []) tt;
}

-- A filter that theft_bloom_init makes never fails the assertion of theft_bloom_mark, whatever
-- data is marked, however often, and whatever memory is given; where the number of block bits is
-- no multiple of four, as the default is not, the first filters leave a check within one hash, and
-- no filter width below three bits other than the default's 0 is asked for.
pub mark_all-init :
    (malloc given : ℕ → Bool) (c : Config) (b : Bloom) (more : List (List ℕ))
    → (c.min_filter_bits ≡ 0) ⊎ (3 ≤ c.min_filter_bits)
    → or_default c.top_block_bits 9 % 4 ≢ 0
    → or_default c.top_block_bits 9 + hash_count * or_default c.min_filter_bits 9 < 64
    → init malloc (some c) ≡ some b
    → mark_all given b more ≢ none
unfolding init
mark_all-init malloc given c b more wide odd small e =
    let top : ℕ = or_default c.top_block_bits 9 in
    let min2 : ℕ = or_default c.min_filter_bits 9 in
    let fresh : Bloom = record {
      top_block2 = top;
      min_filter2 = min2;
      blocks = replicate (2 ^ top) [];
    } in
    elim (Bool-cases (malloc (8 + 2 ^ top * 8))) [
      | inr fails ↦ absurd (cc (rw (fails, init) at e))
      | inl granted ↦
          let same : fresh ≡ b = cc (rw (granted, init) at e) in
          mark_all-returns given b more (init-IsValid malloc c b [] wide e).0
            (rw (← same) (fresh-IsFitting top min2 small)) (rw (← same) odd)
    ]

-- Where the next width of the newest filter of a block would need exactly 64 hash bits, and all
-- bits that the data has in that filter are set, theft_bloom_mark of that data, given memory,
-- returns true, and marking the same data once more aborts the process.
pub mark_aborts :
    (malloc : ℕ → Bool) (b : Bloom) (bytes : List ℕ) (bf : Filter) (rest : List Filter)
    → ((n : ℕ) → malloc n ≡ true)
    → length b.blocks ≡ 2 ^ b.top_block2
    → get_or b.blocks (block_id b (onepass bytes)) [] ≡ bf ∷ rest
    → b.top_block2 + hash_count * (bf.size2 + 1) ≡ 64
    → (mark_loop hash_count 0 (onepass bytes >>> b.top_block2) bf.size2 false bf.bits).0 ≡ false
    → (b' : Bloom) × (mark malloc b bytes ≡ some (true, b')) × (mark malloc b' bytes ≡ none)
unfolding mark mark_hash front_block front_or_alloc grow alloc_filter
mark_aborts malloc b bytes bf rest granted count e full old =
    let hash : ℕ = onepass bytes in
    let id : ℕ = block_id b hash in
    let marked : Filter = record {
      size2 = bf.size2;
      bits = (mark_loop hash_count 0 (hash >>> b.top_block2) bf.size2 false bf.bits).1;
    } in
    let wider : Filter = record {
      size2 = bf.size2 + 1;
      bits = replicate (2 ^ (bf.size2 + 1) / 8) 0;
    } in
    let inside : id < length b.blocks =
      rw (count, bit_and-low_mask b.top_block2 hash) (mod-lt hash (pow-pos b.top_block2)) in
    let fits : ltb (b.top_block2 + hash_count * bf.size2) 64 ≡ true =
      lt→ltb _ _ (omega (arith, full)) in
    let grows : ltb 64 (b.top_block2 + hash_count * (bf.size2 + 1)) ≡ false = ground arith in
    let stuck : ltb (b.top_block2 + hash_count * (bf.size2 + 1)) 64 ≡ false = ground arith in
    (
      with_block b id (wider ∷ marked ∷ rest),
      rw
          (
            e,
            front_or_alloc,
            fits,
            old,
            grow,
            grows,
            granted (16 + 2 ^ (bf.size2 + 1) / 8),
            alloc_filter,
            mark_hash,
          )
          refl,
      rw
          (
            get_or-set_self b.blocks id (wider ∷ marked ∷ rest) [] inside,
            front_or_alloc,
            stuck,
            mark_hash,
          )
          refl,
    )
