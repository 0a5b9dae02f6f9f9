-- ===== src/Autoshrink/Replay.antt =====
-- src/theft_autoshrink.c: an alloc callback on a pool that holds the bits of another makes the
-- same instance.
use theft.Base.{ℕ, ◌*◌, ◌<◌, ◌≤◌, ◌≡◌, refl, arith, ap, ◌∙◌, sym, subst, Bool, true, false, List}
use theft.Base.{◌==◌, length, Bool-cases, inl, inr}
use theft.Types.{AllocRes, Outcome, done, Finishes-at, bind-done}
use theft.Pool.{Pool}
use theft.Fill.{lazily_fill_bit_pool, take_bits, bit_pool_random}
use theft.Fill.Agree.{Agree}
use theft.Fill.Supply.{IsPool, IsGranted, lazily_fill-IsFilled}
use theft.Fill.Taken.{Keeps, bit_pool_random-Keeps}
use theft.Autoshrink.{Gen, finish, draw, run_gen, alloc_from_bit_pool, Source, stop_using}
use theft.Autoshrink.Requests.{IsRoomy, run_gen-Keeps}
use theft.Autoshrink.Taking.{Took, take_same, live_request, shrinking_request, no_request}

module _ {W : Type 0} (next : W → ℕ × W) (more_bits more_requests : Pool → Bool)
    (fresh : ℕ → List ℕ) (granted : IsGranted more_bits more_requests fresh) where
  -- The pool of the second run, beside that of the first, whose last pool is `last`.
  record IsBeside (p q last : Pool) : Type 0 where
    pub second : IsPool q
    pub alive : p.shrinking ≡ false
    pub shrinking : q.shrinking ≡ true
    pub same : p.consumed ≡ q.consumed
    pub bound : q.limit ≤ p.limit
    pub agree : Agree last.bits q.bits last.consumed
    pub enough : last.consumed ≤ q.limit

  -- What a request of the second run gives.
  abbrev Beside : Pool → Pool → List ℕ → W → Outcome (List ℕ × Pool × W) → Type 0
  Beside p' last dst v m = (q' : Pool) × (m ≡ done (dst, q', v)) × IsBeside p' q' last

  -- The second run's request, once it has taken its bits.
  second_request :
      (bit_count : ℕ) (buf dst : List ℕ) (p q p' last : Pool) (v : W)
      → (bit_count == 0) ≡ false
      → IsBeside p q last
      → bit_count ≤ 64 * length buf
      → Keeps p p'
      → Took next more_bits more_requests fresh granted q p' dst
          (take_bits next more_bits more_requests fresh bit_count buf q)
      → Beside p' last dst v (bit_pool_random next more_bits more_requests fresh bit_count buf q v)
  second_request bit_count buf dst p q p' last v some_bits beside room kept
        (q', took, consumed, bits, limit, shrinking) =
      let again : bit_pool_random next more_bits more_requests fresh bit_count buf q v
          ≡ done (dst, q', v) =
        shrinking_request next more_bits more_requests fresh granted bit_count buf q v some_bits
          beside.shrinking
        ∙ rw took refl in
      (
        q',
        again,
        record {
          second =
              (Finishes-at _ (bit_pool_random next more_bits more_requests fresh bit_count buf q v)
                (bit_pool_random-Keeps next more_bits more_requests fresh granted bit_count buf q v
                  beside.second room)
                again).0;
          alive = kept.4 ∙ beside.alive;
          shrinking = shrinking ∙ beside.shrinking;
          same = sym consumed;
          bound = omega (arith, limit, kept.3, beside.bound);
          agree = subst (λ b. Agree last.bits b last.consumed) (sym bits) beside.agree;
          enough = omega (arith, limit, beside.enough);
        },
      )

  -- The same bits are taken, once the first pool is filled.
  after_fill :
      (bit_count : ℕ) (buf dst : List ℕ) (p q p' last : Pool) (w w' : W) (g : Pool × W)
      → 0 < bit_count
      → IsPool p
      → IsBeside p q last
      → Keeps p' last
      → lazily_fill_bit_pool next more_bits more_requests fresh bit_count p w ≡ done g
      → take_bits next more_bits more_requests fresh bit_count buf g.0 ≡ done (dst, p')
      → Took next more_bits more_requests fresh granted q p' dst
          (take_bits next more_bits more_requests fresh bit_count buf q)
  after_fill bit_count buf dst p q p' last w w' g some_bits first beside keeps filled taken =
      let fact =
        Finishes-at _ (lazily_fill_bit_pool next more_bits more_requests fresh bit_count p w)
          (lazily_fill-IsFilled next more_bits more_requests fresh granted bit_count p w first
            beside.alive)
          filled in
      take_same next more_bits more_requests fresh granted bit_count buf dst g.0 q p' last fact.0
        beside.second some_bits (inl (omega (arith, fact.1, fact.2))) (fact.2 ∙ beside.same)
        (omega (arith, beside.bound, fact.4)) keeps beside.agree beside.enough taken

  ended_same :
      {A B C : Type 0} (m : Outcome (A × B)) (t : A × B) (c c' : C) (a : A) (b : B)
      → m ≡ done t
      → ◌≡◌ {A = Outcome (A × B × C)} (done (t.0, t.1, c)) (done (a, b, c'))
      → m ≡ done (a, b)
  ended_same m (a', b') c c' a b e f = e ∙ cc f

  draw_same :
      (bit_count : ℕ) (buf dst : List ℕ) (p q p' last : Pool) (w w' v : W)
      → IsPool p
      → IsBeside p q last
      → bit_count ≤ 64 * length buf
      → Keeps p p'
      → Keeps p' last
      → bit_pool_random next more_bits more_requests fresh bit_count buf p w ≡ done (dst, p', w')
      → Beside p' last dst v (bit_pool_random next more_bits more_requests fresh bit_count buf q v)
  draw_same bit_count buf dst p q p' last w w' v first beside room kept keeps e =
      elim (Bool-cases (bit_count == 0)) [
        | inl nothing ↦
            let got =
              sym (no_request next more_bits more_requests fresh granted bit_count buf p w nothing)
              ∙ e in
            let stays : p ≡ p' = cc got in
            (
              q,
              no_request next more_bits more_requests fresh granted bit_count buf q v nothing
                  ∙ cc got,
              subst (λ t. IsBeside t q last) stays beside,
            )
        | inr some_bits ↦
            let (g, filled, rest) =
              bind-done (lazily_fill_bit_pool next more_bits more_requests fresh bit_count p w) _ (
                sym (
                  live_request next more_bits more_requests fresh granted bit_count buf p w
                    some_bits beside.alive)
                ∙ e) in
            let (t, taken, ended) =
              bind-done (take_bits next more_bits more_requests fresh bit_count buf g.0) _ rest in
            second_request bit_count buf dst p q p' last v some_bits beside room kept (
              after_fill bit_count buf dst p q p' last w w' g (positive some_bits) first beside
                keeps filled (ended_same _ t g.1 w' dst p' taken ended))
      ]
    where
      positive : (bit_count == 0) ≡ false → 0 < bit_count
      positive h = ground arith

  module _ {I : Type 0} where
    run_same :
        (gen : Gen I) (p q last : Pool) (w w' v : W) (res : AllocRes) (x : I)
        → IsPool p
        → IsRoomy gen
        → IsBeside p q last
        → run_gen next more_bits more_requests fresh gen p w ≡ done (res, x, last, w')
        → (q' : Pool) × (run_gen next more_bits more_requests fresh gen q v ≡ done (res, x, q', v))
          × (q'.consumed ≡ last.consumed)
    unfolding run_gen
    run_same (finish res' x') p q last w w' v res x first room beside e =
        let stays : p ≡ last = cc e in
        (q, cc e, sym beside.same ∙ ap (λ (t : Pool). t.consumed) stays)
    run_same (draw bit_count buf k) p q last w w' v res x first room beside e =
        let (g, drawn, rest) =
          bind-done (bit_pool_random next more_bits more_requests fresh bit_count buf p w) _ e in
        let kept =
          Finishes-at _ (bit_pool_random next more_bits more_requests fresh bit_count buf p w)
            (bit_pool_random-Keeps next more_bits more_requests fresh granted bit_count buf p w
              first room.0)
            drawn in
        let keeps =
          Finishes-at _ (run_gen next more_bits more_requests fresh (k g.0) g.1 g.2)
            (run_gen-Keeps next more_bits more_requests fresh granted (k g.0) g.1 g.2 kept.0
              (room.1 g.0))
            rest in
        let (q₁, again, beside') =
          draw_same bit_count buf g.0 p q g.1 last w g.2 v first beside room.0 kept keeps drawn in
        let (q', ran, consumed) =
          run_same (k g.0) g.1 q₁ last g.2 w' v res x kept.0 (room.1 g.0) beside' rest in
        (q', rw again ran, consumed)

    -- An alloc callback that made an instance from a pool in use makes the same instance, with the
    -- same result and as many bits, from a shrinking pool that had consumed as many bits before
    -- and holds the same bits up to those consumed in the end, where that pool's limit is not
    -- below their number and not above the first pool's limit; and it draws nothing from the
    -- generator. Both pools are well formed, memory is granted, and the callback's buffers have
    -- room for what it draws.
    pub alloc-replays :
        (gen : Gen I) (p q last : Pool) (s s' t : Source W) (res : AllocRes) (x : I)
        → IsRoomy gen
        → IsPool (record p { shrinking = false })
        → IsPool (record q { shrinking = true })
        → p.consumed ≡ q.consumed
        → Agree last.bits q.bits last.consumed
        → last.consumed ≤ q.limit
        → q.limit ≤ p.limit
        → alloc_from_bit_pool next more_bits more_requests fresh gen p false s
          ≡ done (res, x, last, s')
        → (q' : Pool) × (alloc_from_bit_pool next more_bits more_requests fresh gen q true t
            ≡ done (res, x, q', stop_using t))
          × (q'.consumed ≡ last.consumed)
    unfolding alloc_from_bit_pool
    alloc-replays gen p q last s s' t res x room first second same agree enough bound e =
        let (r, ran, ended) =
          bind-done
            (run_gen next more_bits more_requests fresh gen (record p { shrinking = false })
              s.state)
            _ e in
        let ends : (r.0 ≡ res) × (r.1 ≡ x) × (r.2 ≡ last) = (cc ended, cc ended, cc ended) in
        let (q', again, consumed) =
          run_same gen (record p { shrinking = false }) (record q { shrinking = true }) last s.state
            r.3 t.state res x first room
            (record {
              second = second;
              alive = refl;
              shrinking = refl;
              same = same;
              bound = bound;
              agree = agree;
              enough = enough;
            })
            (rw (← ends.0, ← ends.1, ← ends.2) ran) in
        (q', rw again refl, consumed)
