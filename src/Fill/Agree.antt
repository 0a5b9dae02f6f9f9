-- ===== src/Fill/Agree.antt =====
-- src/theft_autoshrink.c, `fill_buf` on two pools that hold the same bits.
use theft.Base.{
  ℕ, zero, suc, ◌+◌, ◌*◌, ◌/◌, ◌%◌, ◌<◌, ◌≤◌, ◌≡◌, refl, arith, ◌∙◌, sym, bit_and, bit_or,
}
use theft.Base.{
  ◌==◌, ◌&&◌, ltb, if◌then◌else◌, List, [], ◌∷◌, ◌++◌, get_or, set, length, get_or-set_ne,
  Bool-cases, inl, inr, ltb→lt,
}
use theft.Base.Words.{◌>>>◌, ◌<<<◌, u64, bit_and-low_mask}
use theft.Base.BitArray.{test_bit, IsBytes}
use theft.Types.{Outcome, done, aborted, no_fuel, ◌>>=◌}
use theft.Random.{get_mask}
use theft.Random.Bits.{get_mask_lem}
use theft.Pool.{Pool}
use theft.Pool.Value.{same-value}
use theft.Fill.{word_at, copy_size, fill_loop, fill_buf, write_bytes}
use theft.Fill.Words.{word_at-value}
use theft.Fill.Buffer.{low_six, copy_size_bounds}

-- Two buffers hold the same bits, up to some position.
abbrev pub Agree : List ℕ → List ℕ → ℕ → Type 0
Agree a b k = (w : ℕ) → w < k → test_bit a w ≡ test_bit b w

pub Agree-trans : (a b c : List ℕ) (k : ℕ) → Agree a b k → Agree b c k → Agree a c k
Agree-trans a b c k h g w below = h w below ∙ g w below

-- Bytes that are the same hold the same bits.
pub Agree-bytes :
    (a b : List ℕ) (k : ℕ) → ((i : ℕ) → 8 * i < k → get_or a i 0 ≡ get_or b i 0) → Agree a b k
Agree-bytes a b k same w below = rw (same (w / 8) (omega (arith, below))) refl

pub get_or-append : (a b : List ℕ) (i : ℕ) → i < length a → get_or (a ++ b) i 0 ≡ get_or a i 0
get_or-append [] b i h = absurd (omega arith)
get_or-append (x ∷ a) b zero h = refl
get_or-append (x ∷ a) b (suc i) h = get_or-append a b i (omega arith)

pub get_or-write_bytes :
    (left i v j : ℕ) (bits : List ℕ)
    → j < i
    → get_or (write_bytes left i v bits) j 0 ≡ get_or bits j 0
unfolding write_bytes
get_or-write_bytes zero i v j bits h = refl
get_or-write_bytes (suc left) i v j bits h =
    get_or-write_bytes left (i + 1) (v / 256) j (set bits i (v % 256)) (omega arith)
    ∙ get_or-set_ne bits i j (v % 256) 0 (λ e. absurd (omega (arith, e)))

module _ (a b : List ℕ) (a_bytes : IsBytes a) (b_bytes : IsBytes b) (start bit_count : ℕ)
    (same : Agree a b (start + bit_count)) where
  got_same :
      (offset src_bit i : ℕ)
      → 64 * offset + src_bit ≡ start + i
      → src_bit < 64
      → i < bit_count
      → let n = copy_size bit_count i src_bit in
        bit_and (word_at a offset >>> src_bit) (get_mask n)
        ≡ bit_and (word_at b offset >>> src_bit) (get_mask n)
  got_same offset src_bit i src src_lt more =
      let n = copy_size bit_count i src_bit in
      let l = copy_size_bounds bit_count i src_bit more src_lt in
      rw
        (
          get_mask_lem n,
          bit_and-low_mask n (word_at a offset >>> src_bit),
          bit_and-low_mask n (word_at b offset >>> src_bit),
          word_at-value a offset src_bit n a_bytes l.3,
          word_at-value b offset src_bit n b_bytes l.3,
        )
        (same-value a b n (64 * offset + src_bit)
          λ w low high. same w (omega (arith, high, src, l)))

  pub fill_loop_same :
      (fuel offset src_bit o i : ℕ) (dst : List ℕ)
      → 64 * offset + src_bit ≡ start + i
      → src_bit < 64
      → fill_loop fuel bit_count a offset src_bit o i dst
        ≡ fill_loop fuel bit_count b offset src_bit o i dst
  unfolding fill_loop
  fill_loop_same zero offset src_bit o i dst src src_lt = refl
  fill_loop_same (suc fuel) offset src_bit o i dst src src_lt =
      let n = copy_size bit_count i src_bit in
      let got = bit_and (word_at b offset >>> src_bit) (get_mask n) in
      let dst₁ = set dst o (bit_or (get_or dst o 0) (u64 (got <<< bit_and i 63))) in
      let dst₂ =
        if bit_and i 63 + n == 64 && ltb (i + n) bit_count then set dst₁ (o + 1) 0 else dst₁ in
      elim (Bool-cases (ltb i bit_count)) [
        | inr stop ↦ rw stop refl
        | inl more ↦
            rw (more, got_same offset src_bit i src src_lt (ltb→lt i bit_count more))
              (fill_loop_same fuel (if src_bit + n == 64 then offset + 1 else offset)
                (if src_bit + n == 64 then 0 else src_bit + n)
                (if bit_and i 63 + n == 64 then o + 1 else o) (i + n) dst₂
                (next_src n (limit (ltb→lt i bit_count more))).0
                (next_src n (limit (ltb→lt i bit_count more))).1)
      ]
    where
      limit : i < bit_count → src_bit + copy_size bit_count i src_bit ≤ 64
      limit more = (copy_size_bounds bit_count i src_bit more src_lt).3

      next_src :
          (n : ℕ)
          → src_bit + n ≤ 64
          → (64 * (if src_bit + n == 64 then offset + 1 else offset)
                + (if src_bit + n == 64 then 0 else src_bit + n)
              ≡ start + (i + n))
            × ((if src_bit + n == 64 then 0 else src_bit + n) < 64)
      next_src n h = ground arith

-- What a bind of a result that is given anyway shows.
bind_done :
    {A C : Type 0} (m : Outcome A) (c : C) {a : A} {c' : C}
    → (◌>>=◌ {B = A × C} m λ d. done (d, c)) ≡ done (a, c')
    → (m ≡ done a) × (c ≡ c')
bind_done (done d) c e = (cc, cc)
bind_done aborted c e = absurd cc
bind_done no_fuel c e = absurd cc

pub fill_buf_after :
    (p p' : Pool) (n : ℕ) (buf dst : List ℕ)
    → fill_buf p n buf ≡ done (dst, p')
    → record p { consumed = p.consumed + n } ≡ p'
unfolding fill_buf
fill_buf_after p p' n buf dst h =
    (bind_done
      (fill_loop (suc n) n p.bits (p.consumed / 64) (bit_and p.consumed 63) 0 0 (set buf 0 0))
      (record p { consumed = p.consumed + n }) h).1

-- Two pools that hold the same bits give the same.
pub fill_buf_same :
    (p q p' : Pool) (n : ℕ) (buf dst : List ℕ)
    → IsBytes p.bits
    → IsBytes q.bits
    → p.consumed ≡ q.consumed
    → Agree p.bits q.bits (p.consumed + n)
    → fill_buf p n buf ≡ done (dst, p')
    → fill_buf q n buf ≡ done (dst, record q { consumed = q.consumed + n })
unfolding fill_buf
fill_buf_same p q p' n buf dst p_bytes q_bytes e same h =
    let (filled, after) =
      bind_done
        (fill_loop (suc n) n p.bits (p.consumed / 64) (bit_and p.consumed 63) 0 0 (set buf 0 0))
        (record p { consumed = p.consumed + n }) h in
    let again =
      fill_loop_same p.bits q.bits p_bytes q_bytes p.consumed n same (suc n) (p.consumed / 64)
        (bit_and p.consumed 63) 0 0 (set buf 0 0) (rw (low_six p.consumed) (omega arith))
        (rw (low_six p.consumed) (omega arith)) in
    rw (← e) (rw (sym again ∙ filled) refl)
