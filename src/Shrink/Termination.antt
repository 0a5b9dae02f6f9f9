-- ===== src/Shrink/Termination.antt =====
-- src/theft_shrink.c, `theft_shrink`: how many rounds it needs.
use theft.Base.{
  ℕ, zero, suc, ◌+◌, ◌*◌, ◌-◌, ◌≤◌, ◌<◌, ◌≡◌, ◌≢◌, refl, ap, arith, Bool, true, false, none,
}
use theft.Base.{Bool-cases, inl, inr, if◌then◌else◌, ◌==◌, ==_iff, ℕ_discrete}
use theft.Types.{ShrinkRes, ShrinkArgRes, Outcome, done, no_fuel, Returns, Returns-bind, Returns-ne}
use theft.Theft.{Setup, ArgInfo, arg, update}
use theft.Shrink.{State, propose, attempt_to_shrink_arg, can_shrink, shrink_from, shrink}
use theft.Shrink.Ends.{LowerArg, attempt-Returns}

module _ {I P : Type 0} (size : I → ℕ) where
  -- The sizes of the arguments from index `i` on, as many as are left, in sum.
  abbrev pub total_size : ℕ → ℕ → (ℕ → ArgInfo I P) → ℕ
  total_size zero i args = 0
  total_size (suc left) i args = size (args i).instance_of + total_size left (i + 1) args

  total_size-update_before :
      (left i j : ℕ) (args : ℕ → ArgInfo I P) (a : ArgInfo I P)
      → j < i
      → total_size left i (update args j a) ≡ total_size left i args
  total_size-update_before zero i j args a h = refl
  total_size-update_before (suc left) i j args a h =
      rw (other, total_size-update_before left (i + 1) j args a (omega arith)) refl
    where
      other : (j == i) ≡ false
      other = ground arith

  total_size-update :
      (left i j : ℕ) (args : ℕ → ArgInfo I P) (a : ArgInfo I P)
      → i ≤ j
      → j < i + left
      → size a.instance_of < size (args j).instance_of
      → total_size left i (update args j a) < total_size left i args
  total_size-update zero i j args a low high lt = absurd (omega arith)
  total_size-update (suc left) i j args a low high lt = elim (ℕ_discrete j i) [
    | yes here ↦
        rw ((==_iff j i).1 here, total_size-update_before left (i + 1) j args a (omega arith))
          (omega (arith, ap (λ (k : ℕ). size (args k).instance_of) here, lt))
    | no later ↦
        rw (differs later)
          (omega (arith, total_size-update left (i + 1) j args a (omega arith) (omega arith) lt))
  ]
    where
      differs : j ≢ i → (j == i) ≡ false
      differs ne = ground arith

module _ {I P W : Type 0} (s : Setup I P W) (size : I → ℕ)
    (quiet : s.hooks.shrink_trial_post ≡ none)
    (smaller : (arg_i tactic : ℕ) (t : State s)
      → (propose s arg_i tactic t).0 ≡ ShrinkRes.ok
      → size (propose s arg_i tactic t).1.instance_of < size (arg arg_i t).instance_of) where
  abbrev sum : State s → ℕ
  sum t = total_size size s.arity 0 t.trial.args

  -- The rounds that are left to go, at most.
  abbrev need : Bool → ℕ → State s → ℕ
  need progress left t = sum t * (s.arity + 2) + (if progress then s.arity + 1 else 0) + left + 1

  -- What one commit gains is worth a pass over all arguments, and one more round.
  gained : (new old k : ℕ) → new < old → new * k + k ≤ old * k
  gained new old k lt = omega (
    arith,
    spread new (old - new - 1) k,
    ap (λ (t : ℕ). t * k) {x = new + suc (old - new - 1)} {y = old} (omega arith),
  )
    where
      spread : (n d k : ℕ) → n * k + k ≤ (n + suc d) * k
      spread n d k = omega arith

  abbrev Ended : Bool × State s → Type 0
  Ended r = Unit

  after_attempt :
      (left rounds arg_i : ℕ) (progress : Bool) (args : State s)
      (again next : State s → Outcome (Bool × State s)) (r : ShrinkArgRes × State s)
      → arg_i + suc left ≡ s.arity
      → need progress (suc left) args ≤ suc rounds
      → ((t : State s) → need true (suc left) t ≤ rounds → Returns Ended (again t))
      → ((t : State s) → need progress left t ≤ rounds → Returns Ended (next t))
      → LowerArg s size quiet smaller args.trial.args arg_i r
      → Returns Ended (elim (r.0) [
        | ShrinkArgRes.ok ↦ again r.1
        | ShrinkArgRes.halt ↦ done (true, r.1)
        | ShrinkArgRes.dead_end ↦ next r.1
        | ShrinkArgRes.error ↦ done (false, r.1)
      ])
  after_attempt left rounds arg_i progress t₀ again next (ShrinkArgRes.ok, t) place enough ha hn
        (a, e, lt) =
      let less : sum t < sum t₀ =
        rw e
          (total_size-update size s.arity 0 arg_i t₀.trial.args a (omega arith) (omega arith) lt) in
      ha t (fits progress enough (gained (sum t) (sum t₀) (s.arity + 2) less))
    where
      fits :
          (progress : Bool)
          → need progress (suc left) t₀ ≤ suc rounds
          → sum t * (s.arity + 2) + (s.arity + 2) ≤ sum t₀ * (s.arity + 2)
          → need true (suc left) t ≤ rounds
      fits true h g = omega arith
      fits false h g = omega arith
  after_attempt left rounds arg_i progress t₀ again next (ShrinkArgRes.dead_end, t) place enough ha
        hn e =
      hn t (rw e (omega arith))
  after_attempt left rounds arg_i progress t₀ again next (ShrinkArgRes.halt, t) place enough ha hn
        e =
      tt
  after_attempt left rounds arg_i progress t₀ again next (ShrinkArgRes.error, t) place enough ha hn
        e =
      tt

  shrink_from-Returns :
      (calls rounds left arg_i : ℕ) (progress : Bool) (t : State s)
      → arg_i + left ≡ s.arity
      → need progress left t ≤ rounds
      → Returns Ended (shrink_from s (suc calls) rounds left arg_i progress t)
  unfolding shrink_from
  shrink_from-Returns calls zero left arg_i progress t place enough = absurd (omega arith)
  shrink_from-Returns calls (suc rounds) zero arg_i true t place enough =
      shrink_from-Returns calls rounds s.arity 0 false t (omega arith) (omega arith)
  shrink_from-Returns calls (suc rounds) zero arg_i false t place enough = tt
  shrink_from-Returns calls (suc rounds) (suc left) arg_i progress t place enough =
      elim (Bool-cases (can_shrink s arg_i)) [
        | inl can ↦
            rw (can, shrink_from)
              (Returns-bind (LowerArg s size quiet smaller t.trial.args arg_i) Ended
                (attempt_to_shrink_arg s (suc calls) arg_i t) _
                (attempt-Returns s size quiet smaller calls arg_i t)
                (λ r.
                  after_attempt left rounds arg_i progress t
                    (shrink_from s (suc calls) rounds (suc left) arg_i true)
                    (shrink_from s (suc calls) rounds left (arg_i + 1) progress) r place enough
                    (λ t' h. shrink_from-Returns calls rounds (suc left) arg_i true t' place h)
                    (λ t' h.
                      shrink_from-Returns calls rounds left (arg_i + 1) progress t' (omega arith)
                        h)))
        | inr cannot ↦
            rw (cannot, shrink_from)
              (shrink_from-Returns calls rounds left (arg_i + 1) progress t (omega arith)
                (omega arith))
      ]

  -- Where there is no shrink_trial_post hook, so that no call is repeated, and every candidate
  -- that is proposed is smaller than the instance it is to replace, theft_shrink does not run out
  -- of fuel if it has a call and, for arguments of a total size n and an arity k, n * (k + 2) + k
  -- + 1 rounds.
  pub shrink-ends :
      (calls rounds : ℕ) (t : State s)
      → 0 < calls
      → total_size size s.arity 0 t.trial.args * (s.arity + 2) + s.arity + 1 ≤ rounds
      → shrink s calls rounds t ≢ no_fuel
  unfolding shrink
  shrink-ends zero rounds t some' enough = absurd (omega arith)
  shrink-ends (suc calls) rounds t some' enough =
      Returns-ne Ended (shrink s (suc calls) rounds t)
        (shrink_from-Returns calls rounds s.arity 0 false t (omega arith) (omega arith))
