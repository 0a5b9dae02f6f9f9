-- ===== src/Bloom/Laws.antt =====
-- src/theft_bloom.c: marking, checking and making a bloom filter.
use theft.Base.{ℕ, ◌+◌, ◌*◌, ◌^◌, ◌≤◌, ◌≡◌, arith, ◌∙◌, ◌⊎◌, inl, inr}
use theft.Base.{
  Bool, true, false, Bool-cases, replicate, List, [], ◌∷◌, get_or, set, Option, none, some,
}
use theft.Base.{
  length-set, get_or-set_self, get_or-set_ne, length-replicate, get_or-replicate, ℕ_discrete,
  Option-cases,
}
use theft.Base.Words.{◌>>>◌}
use theft.Hash.{onepass}
use theft.Bloom.{
  or_default, Filter, Bloom, Config, init, mark, check, check_hash, check_block, block_id,
}
use theft.Bloom.Valid.{IsFilter, IsValid, All, block_id-inside}
use theft.Bloom.Step.{mark_hash_returns, with_block}

-- The blocks after a marking: the one of the hash is new, the others are untouched.
pub block_after :
    (b : Bloom) (hash id : ℕ) (new : List Filter)
    → IsValid b
    → (get_or (set b.blocks (block_id b hash) new) id [] ≡ new) × (block_id b hash ≡ id)
      ⊎ (get_or (set b.blocks (block_id b hash) new) id [] ≡ get_or b.blocks id [])
block_after b hash id new v = elim (ℕ_discrete (block_id b hash) id) [
  | yes e ↦
      inl (rw (← e) (get_or-set_self b.blocks (block_id b hash) new [] (block_id-inside hash v)), e)
  | no ne ↦ inr (get_or-set_ne b.blocks (block_id b hash) id new [] ne)
]

with_block-IsValid :
    (b : Bloom) (hash : ℕ) (new : List Filter)
    → IsValid b
    → All IsFilter new
    → IsValid (with_block b (block_id b hash) new)
with_block-IsValid b hash new v vs = record {
  count = length-set b.blocks (block_id b hash) new ∙ v.count;
  min_wide = v.min_wide;
  filters = λ id. elim (block_after b hash id new v) [
    | inl (e, same) ↦ rw e vs
    | inr e ↦ rw e (v.filters id)
  ];
}

-- theft_bloom_mark, whatever memory it is given, keeps a valid filter valid.
pub mark-IsValid :
    (malloc : ℕ → Bool) (b : Bloom) (bytes : List ℕ) (r : Bool) (b' : Bloom)
    → IsValid b
    → mark malloc b bytes ≡ some (r, b')
    → IsValid b'
unfolding mark
mark-IsValid malloc b bytes r b' v e = elim (mark_hash_returns malloc b (onepass bytes) r b' v e) [
  | inl (_, same) ↦ rw same v
  | inr m ↦ rw m.result (with_block-IsValid b (onepass bytes) m.new v m.valid)
]

-- No false negatives: where theft_bloom_mark on a valid filter returns true, theft_bloom_check
-- says afterwards that the data was marked.
pub check-mark :
    (malloc : ℕ → Bool) (b : Bloom) (bytes : List ℕ) (b' : Bloom)
    → IsValid b
    → mark malloc b bytes ≡ some (true, b')
    → check b' bytes ≡ true
unfolding mark check check_hash
check-mark malloc b bytes b' v e = elim (mark_hash_returns malloc b (onepass bytes) true b' v e) [
  | inl (never, _) ↦ cc
  | inr m ↦
      rw
        (
          m.result,
          get_or-set_self b.blocks (block_id b (onepass bytes)) m.new []
              (block_id-inside (onepass bytes) v),
        )
        m.hits
]

-- Marking forgets nothing: data that a valid filter knows is still known after any other data was
-- marked, also where that call ran out of memory.
pub check-mark_keeps :
    (malloc : ℕ → Bool) (b : Bloom) (bytes other : List ℕ) (r : Bool) (b' : Bloom)
    → IsValid b
    → check b other ≡ true
    → mark malloc b bytes ≡ some (r, b')
    → check b' other ≡ true
unfolding mark check check_hash
check-mark_keeps malloc b bytes other r b' v known e =
    elim (mark_hash_returns malloc b (onepass bytes) r b' v e) [
      | inl (_, same) ↦ rw same known
      | inr m ↦ elim (block_after b (onepass bytes) (block_id b (onepass other)) m.new v) [
        | inl (new, same) ↦
            rw (m.result, new) (m.keeps (onepass other >>> b.top_block2) (rw same known))
        | inr old ↦ rw (m.result, old) known
      ]
    ]

-- Marking a list of data, in order; `none` is an abort.
unfoldable pub mark_all : (ℕ → Bool) → Bloom → List (List ℕ) → Option Bloom
mark_all malloc b [] = some b
mark_all malloc b (bytes ∷ more) = elim (mark malloc b bytes) [
  | none ↦ none
  | some (r, b') ↦ mark_all malloc b' more
]

-- What a valid filter knows is still known, and the filter still valid, after any number of
-- further markings.
pub check-mark_all :
    (malloc : ℕ → Bool) (b : Bloom) (more : List (List ℕ)) (other : List ℕ) (b' : Bloom)
    → IsValid b
    → check b other ≡ true
    → mark_all malloc b more ≡ some b'
    → IsValid b' × (check b' other ≡ true)
unfolding mark_all
check-mark_all malloc b [] other b' v known e =
    let same : b ≡ b' = cc in (rw (← same) v, rw (← same) known)
check-mark_all malloc b (bytes ∷ more) other b' v known e =
    elim (Option-cases (mark malloc b bytes)) [
      | inl aborts ↦ absurd (cc (rw (aborts, mark_all) at e))
      | inr (res, e') ↦
          check-mark_all malloc res.1 more other b' (mark-IsValid malloc b bytes res.0 res.1 v e')
            (check-mark_keeps malloc b bytes other res.0 res.1 v known e') (rw (e', mark_all) at e)
    ]

fresh : ℕ → ℕ → Bloom
fresh top_block2 min_filter2 = record {
  top_block2 = top_block2;
  min_filter2 = min_filter2;
  blocks = replicate (2 ^ top_block2) [];
}

init-fresh :
    (malloc : ℕ → Bool) (c : Config) (b : Bloom)
    → init malloc (some c) ≡ some b
    → b ≡ fresh (or_default c.top_block_bits 9) (or_default c.min_filter_bits 9)
unfolding init fresh
init-fresh malloc c b e = elim (Bool-cases (malloc (8 + 2 ^ or_default c.top_block_bits 9 * 8))) [
  | inl given ↦ cc (rw (given, init) at e)
  | inr fails ↦ absurd (cc (rw (fails, init) at e))
]

empty_blocks : (n id : ℕ) → get_or {A = List Filter} (replicate n []) id [] ≡ []
empty_blocks n id = get_or-replicate {A = List Filter} n id []

fresh-IsValid :
    (top_block2 min_filter2 : ℕ) → 3 ≤ min_filter2 → IsValid (fresh top_block2 min_filter2)
unfolding fresh
fresh-IsValid top_block2 min_filter2 h = record {
  count = length-replicate {A = List Filter} (2 ^ top_block2) [];
  min_wide = h;
  filters = λ id. rw (empty_blocks (2 ^ top_block2) id) tt;
}

check-fresh :
    (top_block2 min_filter2 : ℕ) (bytes : List ℕ)
    → check (fresh top_block2 min_filter2) bytes ≡ false
unfolding check check_hash check_block fresh
check-fresh top_block2 min_filter2 bytes =
    rw (empty_blocks (2 ^ top_block2) (block_id (fresh top_block2 min_filter2) (onepass bytes)))

-- theft_bloom_init, where it is given memory and no filter width below three bits other than the 0
-- that asks for the default, makes a valid filter that knows no data.
pub init-IsValid :
    (malloc : ℕ → Bool) (c : Config) (b : Bloom) (bytes : List ℕ)
    → (c.min_filter_bits ≡ 0) ⊎ (3 ≤ c.min_filter_bits)
    → init malloc (some c) ≡ some b
    → IsValid b × (check b bytes ≡ false)
init-IsValid malloc c b bytes wide e =
    let top : ℕ = or_default c.top_block_bits 9 in
    let min2 : ℕ = or_default c.min_filter_bits 9 in
    let same : b ≡ fresh top min2 = init-fresh malloc c b e in
    (rw same (fresh-IsValid top min2 (ground arith)), rw same (check-fresh top min2 bytes))
