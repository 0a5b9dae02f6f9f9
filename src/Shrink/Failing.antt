-- ===== src/Shrink/Failing.antt =====
-- src/theft_shrink.c, `theft_shrink`: the result of the property on the arguments left in place.
use theft.Base.{ℕ, zero, suc, ◌+◌, ◌≡◌, refl, Bool, true, false, List, Bool-cases, inl, inr}
use theft.Types.{TrialRes, ShrinkArgRes, Outcome, done, Ensures, Ensures-bind, Ensures-done}
use theft.Theft.{Setup, ArgInfo, instances}
use theft.Shrink.{State, attempt_to_shrink_arg, shrink_from, shrink, can_shrink}
use theft.Shrink.Settled.{SettledArg, attempt-SettledArg}

module _ {I P W : Type 0} (s : Setup I P W) (property : List I → TrialRes)
    (deterministic : (xs : List I) (w : W) → (s.call xs w).0 ≡ property xs) where
  abbrev pub Fails : (ℕ → ArgInfo I P) → Type 0
  Fails args = property (instances s.arity 0 args) ≡ TrialRes.fail

  -- Where calling the property is deterministic, an attempt at one argument that returns OK leaves
  -- arguments that fail and changes only the one that was tried; a dead end and a halt leave all
  -- arguments as they were; an error leaves the other arguments as they were.
  pub attempt_to_shrink_arg_lem :
      (calls arg_i : ℕ) (t : State s) (res : ShrinkArgRes) (t' : State s)
      → attempt_to_shrink_arg s calls arg_i t ≡ done (res, t')
      → SettledArg s property deterministic t.trial.args arg_i (res, t')
  attempt_to_shrink_arg_lem calls arg_i t res t' e =
      Ensures-done (SettledArg s property deterministic t.trial.args arg_i)
        (attempt_to_shrink_arg s calls arg_i t) (res, t')
        (attempt-SettledArg s property deterministic calls arg_i t) e

  abbrev StillFails : Bool × State s → Type 0
  StillFails r = r.0 ≡ true → Fails r.1.trial.args

  -- The branches after an attempt, with the rounds that follow it.
  after_attempt :
      (args : ℕ → ArgInfo I P) (arg_i : ℕ) (again next : State s → Outcome (Bool × State s))
      (r : ShrinkArgRes × State s)
      → ((t : State s) → Fails t.trial.args → Ensures StillFails (again t))
      → ((t : State s) → Fails t.trial.args → Ensures StillFails (next t))
      → Fails args
      → SettledArg s property deterministic args arg_i r
      → Ensures StillFails (elim (r.0) [
        | ShrinkArgRes.ok ↦ again r.1
        | ShrinkArgRes.halt ↦ done (true, r.1)
        | ShrinkArgRes.dead_end ↦ next r.1
        | ShrinkArgRes.error ↦ done (false, r.1)
      ])
  after_attempt args arg_i again next (ShrinkArgRes.ok, t) ha hn h e = ha t e.0
  after_attempt args arg_i again next (ShrinkArgRes.dead_end, t) ha hn h e = hn t (rw e h)
  after_attempt args arg_i again next (ShrinkArgRes.halt, t) ha hn h e = λ _. rw e h
  after_attempt args arg_i again next (ShrinkArgRes.error, t) ha hn h e = λ never. cc

  shrink_from-StillFails :
      (calls rounds left arg_i : ℕ) (progress : Bool) (t : State s)
      → Fails t.trial.args
      → Ensures StillFails (shrink_from s calls rounds left arg_i progress t)
  unfolding shrink_from
  shrink_from-StillFails calls zero left arg_i progress t h = tt
  shrink_from-StillFails calls (suc rounds) zero arg_i true t h =
      shrink_from-StillFails calls rounds s.arity 0 false t h
  shrink_from-StillFails calls (suc rounds) zero arg_i false t h = λ _. h
  shrink_from-StillFails calls (suc rounds) (suc left) arg_i progress t h =
      elim (Bool-cases (can_shrink s arg_i)) [
        | inl can ↦
            rw (can, shrink_from)
              (Ensures-bind (SettledArg s property deterministic t.trial.args arg_i) StillFails
                (attempt_to_shrink_arg s calls arg_i t) _
                (attempt-SettledArg s property deterministic calls arg_i t)
                (λ r.
                  after_attempt t.trial.args arg_i
                    (shrink_from s calls rounds (suc left) arg_i true)
                    (shrink_from s calls rounds left (arg_i + 1) progress) r
                    (shrink_from-StillFails calls rounds (suc left) arg_i true)
                    (shrink_from-StillFails calls rounds left (arg_i + 1) progress) h))
        | inr cannot ↦
            rw (cannot, shrink_from)
              (shrink_from-StillFails calls rounds left (arg_i + 1) progress t h)
      ]

  -- Where calling the property is deterministic and it fails on the arguments, and theft_shrink
  -- returns true, it still fails on the arguments that are then in place.
  pub shrink-Fails :
      (calls rounds : ℕ) (t t' : State s)
      → Fails t.trial.args
      → shrink s calls rounds t ≡ done (true, t')
      → Fails t'.trial.args
  unfolding shrink
  shrink-Fails calls rounds t t' h e =
      Ensures-done StillFails (shrink s calls rounds t) (true, t')
        (shrink_from-StillFails calls rounds s.arity 0 false t h) e refl
