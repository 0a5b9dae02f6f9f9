-- ===== src/Fill/Buffer.antt =====
-- src/theft_autoshrink.c, `fill_buf`: the words of its buffer spell the next bits of the pool.
use theft.Base.{
  ℕ, zero, suc, ◌+◌, ◌-◌, ◌*◌, ◌/◌, ◌%◌, ◌^◌, ◌<◌, ◌≤◌, ◌≡◌, arith, ap, ◌∙◌, bit_and, bit_or,
}
use theft.Base.{
  ◌==◌, ltb, if◌then◌else◌, List, [], ◌∷◌, get_or, set, length, length-set, get_or-set_self,
}
use native.Mathlib.Nat.{mul-le-mul_left}
use theft.Base.Words.{pow-add, bit_and-low_mask, ◌>>>◌, ◌<<<◌, u64}
use theft.Base.BitArray.{IsBytes}
use theft.Random.{get_mask, put}
use theft.Random.Bits.{put_lem}
use theft.Pool.Value.{value, value-lt}
use theft.Pool.Number.{value-split}
use theft.Fill.{word_at, copy_size}
use theft.Fill.Words.{word_at-value}

-- The number of the first words, the first the lowest.
abbrev pub words : ℕ → List ℕ → ℕ
words zero dst = 0
words (suc k) [] = 0
words (suc k) (word ∷ dst) = word + 2 ^ 64 * words k dst

-- How many words hold some bits.
abbrev pub word_count : ℕ → ℕ
word_count bit_count = (bit_count + 63) / 64

pow-64 : (o : ℕ) → 2 ^ (64 * suc o) ≡ 2 ^ 64 * 2 ^ (64 * o)
pow-64 o =
    ap (λ (t : ℕ). 2 ^ t) {x = 64 * suc o} {y = 64 + 64 * o} (omega arith) ∙ pow-add 64 (64 * o)

-- Adding to the last word.
words-set_last :
    (o : ℕ) (dst : List ℕ) (x : ℕ)
    → o < length dst
    → words (suc o) (set dst o (get_or dst o 0 + x)) ≡ words (suc o) dst + 2 ^ (64 * o) * x
words-set_last o [] x h = absurd (omega arith)
words-set_last zero (word ∷ dst) x h = omega arith
words-set_last (suc o) (word ∷ dst) x h =
    rw (pow-64 o, words-set_last o dst x (omega arith))
      (spread word (2 ^ 64) (words (suc o) dst) (2 ^ (64 * o)) x)
  where
    spread : (a p b q x : ℕ) → a + p * (b + q * x) ≡ a + p * b + p * q * x
    spread a p b q x = omega arith

-- A new last word of 0.
pub words-set_next :
    (o : ℕ) (dst : List ℕ) → o < length dst → words (suc o) (set dst o 0) ≡ words o dst
words-set_next o [] h = absurd (omega arith)
words-set_next zero (word ∷ dst) h = omega arith
words-set_next (suc o) (word ∷ dst) h =
    ap (λ (t : ℕ). word + 2 ^ 64 * t) (words-set_next o dst (omega arith))

pub low_six : (v : ℕ) → bit_and v 63 ≡ v % 64
low_six v = bit_and-low_mask 6 v

pub copy_size_bounds :
    (bit_count i src_bit : ℕ)
    → i < bit_count
    → src_bit < 64
    → let n = copy_size bit_count i src_bit in
      (1 ≤ n) × (i + n ≤ bit_count) × (i % 64 + n ≤ 64) × (src_bit + n ≤ 64)
unfolding copy_size
copy_size_bounds bit_count i src_bit h k = rw (low_six i) (bounds (i % 64) (omega arith))
  where
    bounds :
        (d : ℕ)
        → d < 64
        → let r = if ltb (bit_count - i) (64 - d) then bit_count - i else 64 - d in
          let n = if ltb r (64 - src_bit) then r else 64 - src_bit in
          (1 ≤ n) × (i + n ≤ bit_count) × (d + n ≤ 64) × (src_bit + n ≤ 64)
    bounds d s = ground arith

-- The words of a buffer spell some bits of a pool.
abbrev pub Spells : List ℕ → ℕ → ℕ → List ℕ → Type 0
Spells bits start bit_count dst = words (word_count bit_count) dst ≡ value bits bit_count start

module _ (bits : List ℕ) (bytes : IsBytes bits) (start bit_count : ℕ) where
  -- The loop after `i` bits, where there are more to come: the offsets are those of the next bit,
  -- and the buffer up to the word at `o` spells the bits before it.
  pub record IsFilling (offset src_bit o i : ℕ) (dst : List ℕ) : Type 0 where
    pub more : i < bit_count
    pub src : 64 * offset + src_bit ≡ start + i
    pub src_lt : src_bit < 64
    pub at_word : 64 * o + i % 64 ≡ i
    pub room : bit_count ≤ 64 * length dst
    pub spelled : words (suc o) dst ≡ value bits i start
    pub partial : get_or dst o 0 < 2 ^ (i % 64)

  -- The word that a round stores.
  abbrev pub stored : ℕ → ℕ → ℕ → ℕ → ℕ → List ℕ → ℕ
  stored offset src_bit o i n dst =
      bit_or (get_or dst o 0)
        (u64 (bit_and (word_at bits offset >>> src_bit) (get_mask n) <<< bit_and i 63))

  module _ {offset src_bit o i : ℕ} {dst : List ℕ} (f : IsFilling offset src_bit o i dst) where
    abbrev pub n : ℕ
    n = copy_size bit_count i src_bit

    pub limits : (1 ≤ n) × (i + n ≤ bit_count) × (i % 64 + n ≤ 64) × (src_bit + n ≤ 64)
    limits = copy_size_bounds bit_count i src_bit f.more f.src_lt

    stored_lem :
        stored offset src_bit o i n dst ≡ get_or dst o 0 + 2 ^ (i % 64) * value bits n (start + i)
    unfolding put
    stored_lem =
        let w = get_or dst o 0 in
        rw (low_six i) (
          put_lem w (word_at bits offset >>> src_bit) n (i % 64) f.partial limits.2
          ∙ rw
              (
                word_at-value bits offset src_bit n bytes limits.3,
                ap (λ (t : ℕ). value bits n t) {x = 64 * offset + src_bit} {y = start + i} f.src,
              )
              (omega arith))

    step-spelled :
        words (suc o) (set dst o (stored offset src_bit o i n dst)) ≡ value bits (i + n) start
    step-spelled =
        rw
          (
            stored_lem,
            words-set_last o dst (2 ^ (i % 64) * value bits n (start + i))
                (omega (arith, f.more, f.room, f.at_word)),
            f.spelled,
            value-split bits i n start,
          )
          (omega (
            arith,
            ap (λ (t : ℕ). 2 ^ t * value bits n (start + i)) {x = i} {y = 64 * o + i % 64}
                (omega (arith, f.at_word)),
            ap (λ (t : ℕ). t * value bits n (start + i)) (pow-add (64 * o) (i % 64)),
          ))

    step-partial : get_or (set dst o (stored offset src_bit o i n dst)) o 0 < 2 ^ (i % 64 + n)
    step-partial =
        rw
          (
            get_or-set_self dst o (stored offset src_bit o i n dst) 0
                (omega (arith, f.more, f.room, f.at_word)),
            stored_lem,
            pow-add (i % 64) n,
          )
          (below (get_or dst o 0) (2 ^ (i % 64)) (value bits n (start + i)) (2 ^ n) f.partial
            (value-lt bits n (start + i)))
      where
        below : (w p b q : ℕ) → w < p → b < q → w + p * b < p * q
        below w p b q h k =
            let next : p * suc b ≤ p * q = mul-le-mul_left p k in omega (arith, next)

    -- After a round with no more to come.
    pub finished :
        i + n ≡ bit_count
        → Spells bits start bit_count (set dst o (stored offset src_bit o i n dst))
    finished e =
        rw
          (ap (λ (t : ℕ). words t (set dst o (stored offset src_bit o i n dst)))
            {x = word_count bit_count} {y = suc o} (omega (arith, e, limits, f.at_word)))
          (step-spelled ∙ ap (λ (t : ℕ). value bits t start) e)

    pub src-next :
        let crossed = src_bit + n == 64 in
        (64 * (if crossed then offset + 1 else offset) + (if crossed then 0 else src_bit + n)
          ≡ start + (i + n))
        × ((if crossed then 0 else src_bit + n) < 64)
    src-next = ground (arith, limits, f.src)

    -- After a round that leaves its word with room.
    pub same_word :
        (offset' src_bit' : ℕ)
        → 64 * offset' + src_bit' ≡ start + (i + n)
        → src_bit' < 64
        → i % 64 + n < 64
        → i + n < bit_count
        → IsFilling offset' src_bit' o (i + n) (set dst o (stored offset src_bit o i n dst))
    same_word offset' src_bit' src src_lt room more =
        let place : (i + n) % 64 ≡ i % 64 + n = omega (arith, room) in
        record {
          more = more;
          src = src;
          src_lt = src_lt;
          at_word = omega (arith, f.at_word, place);
          room = rw (length-set dst o (stored offset src_bit o i n dst)) f.room;
          spelled = step-spelled;
          partial = rw place step-partial;
        }

    -- After a round that fills its word.
    pub next_word :
        (offset' src_bit' : ℕ)
        → 64 * offset' + src_bit' ≡ start + (i + n)
        → src_bit' < 64
        → i % 64 + n ≡ 64
        → i + n < bit_count
        → IsFilling offset' src_bit'
            (o + 1)
            (i + n)
            (set (set dst o (stored offset src_bit o i n dst)) (o + 1) 0)
    next_word offset' src_bit' src src_lt full more =
        let dst₁ = set dst o (stored offset src_bit o i n dst) in
        let place : (i + n) % 64 ≡ 0 = omega (arith, full) in
        let long : length dst₁ ≡ length dst = length-set dst o (stored offset src_bit o i n dst) in
        let inside : o + 1 < length dst₁ = omega (arith, f.room, f.at_word, full, more, long) in
        record {
          more = more;
          src = src;
          src_lt = src_lt;
          at_word = omega (arith, f.at_word, place, full);
          room = rw (length-set dst₁ (o + 1) 0, long) f.room;
          spelled =
              words-set_next (o + 1) dst₁ inside
              ∙ ap (λ (t : ℕ). words t dst₁) {x = o + 1} {y = suc o} (omega arith)
              ∙ step-spelled;
          partial = rw (get_or-set_self dst₁ (o + 1) 0 0 inside, place) (omega arith);
        }
