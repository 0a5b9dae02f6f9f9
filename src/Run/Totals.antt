-- ===== src/Run/Totals.antt =====
-- src/theft_run.c, `theft_run_trials`: the counters before and after a run, and its result.
use theft.Base.{ℕ, zero, suc, ◌+◌, ◌≤◌, ◌<◌, ◌≡◌, ◌≢◌, refl, ap, ◌∙◌, Bool, true, false}
use theft.Base.{Bool-cases, Option-cases, ◌⊎◌, inl, inr, arith}
use mathlib.Core.Path.{subst}
use theft.Types.{
  TrialRes, RunStepRes, RunRes, Outcome, done, ◌>>=◌, Ensures, Ensures-bind, Ensures-done,
  Ensures-weaken,
}
use theft.Theft.{Setup, Counters}
use theft.Shrink.{State}
use theft.Trial.{Fuel}
use theft.Trial.Counts.{bump}
use theft.Run.{
  Step, new_trial, run_step, trials_from, verdict, run_pre_hook, run_post_hook, conclude,
  run_trials,
}
use theft.Run.Counts.{total, CanFail, NeverHalts, Stepped, run_step-Stepped}

total-bump :
    (k : TrialRes) (c : Counters)
    → (total (bump k c) ≤ total c + 1) × (k ≢ TrialRes.error → total (bump k c) ≡ total c + 1)
total-bump TrialRes.error c = (omega arith, λ n. absurd (n refl))
total-bump TrialRes.pass c = (omega arith, λ n. omega arith)
total-bump TrialRes.fail c = (omega arith, λ n. omega arith)
total-bump TrialRes.skip c = (omega arith, λ n. omega arith)
total-bump TrialRes.dup c = (omega arith, λ n. omega arith)

fail-bump : (k : TrialRes) (c : Counters) → (k ≡ TrialRes.fail) ⊎ ((bump k c).fail ≡ c.fail)
fail-bump TrialRes.fail c = inl refl
fail-bump _ c = inr refl

module _ {I P W : Type 0} (s : Setup I P W) where
  -- What the loop did to the counters `c`, with `left` trials to go.
  record Ran (c : Counters) (left : ℕ) (r : Bool × State s) : Type 0 where
    at_most : total r.1.counters ≤ total c + left
    exactly : NeverHalts s → r.0 ≡ true → total r.1.counters ≡ total c + left
    failed : (r.1.counters.fail ≡ c.fail) ⊎ CanFail s

  -- A step's part in what became of the failures.
  failed_step :
      (c c' : Counters) (k : TrialRes)
      → c' ≡ bump k c
      → (k ≡ TrialRes.fail → CanFail s)
      → (c'.fail ≡ c.fail) ⊎ CanFail s
  failed_step c c' k e f = elim (fail-bump k c) [
    | inl is_fail ↦ inr (f is_fail)
    | inr same ↦ inl (ap (λ x. x.fail) e ∙ same)
  ]

  stopped :
      (c : Counters) (left : ℕ) (b : Bool) (seed : ℕ) (res : RunStepRes) (t : State s)
      → (NeverHalts s → b ≡ true → ⊥)
      → Stepped s c (res, seed, t)
      → Ran c (suc left) (b, t)
  stopped c left b seed res t n st = record {
    at_most = omega (arith, ap total st.counted, (total-bump st.kind c).0);
    exactly = λ h e. absurd (n h e);
    failed = failed_step c t.counters st.kind st.counted st.failed;
  }

  continued :
      (c : Counters) (left seed : ℕ) (t : State s) (r : Bool × State s)
      → Stepped s c (RunStepRes.ok, seed, t)
      → Ran t.counters left r
      → Ran c (suc left) r
  continued c left seed t r st later = record {
    at_most = omega (arith, ap total st.counted, (total-bump st.kind c).0, later.at_most);
    exactly = λ h e.
        omega (
          arith,
          ap total st.counted,
          (total-bump st.kind c).1 (st.counts refl),
          later.exactly h e,
        );
    failed = elim (later.failed) [
      | inr can ↦ inr can
      | inl same ↦ elim (failed_step c t.counters st.kind st.counted st.failed) [
        | inr can ↦ inr can
        | inl same' ↦ inl (same ∙ same')
      ]
    ];
  }

  next_trial :
      (c : Counters) (left : ℕ) (later : ℕ → State s → Outcome (Bool × State s)) (r : Step s)
      → ((seed : ℕ) (t : State s) → Ensures (Ran t.counters left) (later seed t))
      → Stepped s c r
      → Ensures (Ran c (suc left)) (elim (r.0) [
        | RunStepRes.ok ↦ later r.1 (new_trial s 0 0 r.2)
        | RunStepRes.halt ↦ done (true, new_trial s 0 0 r.2)
        | RunStepRes.gen_error ↦ done (false, new_trial s 0 0 r.2)
        | RunStepRes.trial_error ↦ done (false, new_trial s 0 0 r.2)
      ])
  next_trial c left later (RunStepRes.ok, seed, t) ih st =
      Ensures-weaken (Ran t.counters left) (Ran c (suc left)) (later seed (new_trial s 0 0 t))
        (λ r. continued c left seed t r st) (ih seed (new_trial s 0 0 t))
  next_trial c left later (RunStepRes.halt, seed, t) ih st =
      let r : Ran c (suc left) (true, t) =
        stopped c left true seed RunStepRes.halt t (λ h e. st.halted h refl) st in
      record { at_most = r.at_most; exactly = r.exactly; failed = r.failed }
  next_trial c left later (RunStepRes.gen_error, seed, t) ih st =
      let r : Ran c (suc left) (false, t) =
        stopped c left false seed RunStepRes.gen_error t (λ h e. cc) st in
      record { at_most = r.at_most; exactly = r.exactly; failed = r.failed }
  next_trial c left later (RunStepRes.trial_error, seed, t) ih st =
      let r : Ran c (suc left) (false, t) =
        stopped c left false seed RunStepRes.trial_error t (λ h e. cc) st in
      record { at_most = r.at_most; exactly = r.exactly; failed = r.failed }

  trials_from-Ran :
      (fuel : Fuel) (left trial seed : ℕ) (t : State s)
      → Ensures (Ran t.counters left) (trials_from s fuel left trial seed t)
  unfolding trials_from
  trials_from-Ran fuel zero trial seed t = record {
    at_most = omega arith;
    exactly = λ h e. omega arith;
    failed = inl refl;
  }
  trials_from-Ran fuel (suc left) trial seed t =
      Ensures-bind (Stepped s t.counters) (Ran t.counters (suc left)) (run_step s fuel trial seed t)
        _ (run_step-Stepped s fuel trial seed t)
        (λ r.
          next_trial t.counters left (trials_from s fuel left (trial + 1)) r
            (trials_from-Ran fuel left (trial + 1)))

  pub pre-counters : (t : State s) → (run_pre_hook s t).1.counters ≡ t.counters
  unfolding run_pre_hook
  pre-counters t = elim (Option-cases (s.hooks.run_pre)) [
    | inl e ↦ rw (e, run_pre_hook) refl
    | inr (hook, e) ↦ rw (e, run_pre_hook) refl
  ]

  pub post-counters : (t : State s) → (run_post_hook s t).1.counters ≡ t.counters
  unfolding run_post_hook
  post-counters t = elim (Option-cases (s.hooks.run_post)) [
    | inl e ↦ rw (e, run_post_hook) refl
    | inr (hook, e) ↦ rw (e, run_post_hook) refl
  ]

  -- What the result of a run says of its counters `c'`, at `c` before.
  record Reported (c : Counters) (r : RunRes × State s) : Type 0 where
    at_most : total r.1.counters ≤ total c + s.trial_count
    exactly : NeverHalts s → r.0 ≢ RunRes.error → total r.1.counters ≡ total c + s.trial_count
    failed : c.fail ≡ 0 → r.0 ≡ RunRes.fail → CanFail s

  verdict-fail : (t : State s) → verdict s t ≡ RunRes.fail → 0 < t.counters.fail
  unfolding verdict
  verdict-fail t e = ground arith

  errored :
      (c : Counters) (b : Bool) (t : State s)
      → Ran c s.trial_count (b, t)
      → Reported c (RunRes.error, t)
  errored c b t ran = record {
    at_most = ran.at_most;
    exactly = λ h n. absurd (n refl);
    failed = λ z e. absurd (cc);
  }

  judged :
      (c : Counters) (t t' : State s)
      → t'.counters ≡ t.counters
      → Ran c s.trial_count (true, t)
      → Reported c (verdict s t', t')
  judged c t t' same ran = record {
    at_most = omega (arith, ap total same, ran.at_most);
    exactly = λ h n. omega (arith, ap total same, ran.exactly h refl);
    failed = λ z e. elim (ran.failed) [
      | inr can ↦ can
      | inl still ↦ absurd (omega (arith, verdict-fail t' e, still, ap (λ x. x.fail) same))
    ];
  }

  conclude-Reported :
      (c : Counters) (r : Bool × State s) → Ran c s.trial_count r → Reported c (conclude s r)
  unfolding conclude
  conclude-Reported c (false, t) ran = errored c false t ran
  conclude-Reported c (true, t) ran = elim (Bool-cases ((run_post_hook s t).0)) [
    | inl fine ↦ rw (fine, conclude) (judged c t (run_post_hook s t).1 (post-counters t) ran)
    | inr err ↦
        rw (err, conclude)
          (record {
            at_most = omega (arith, ap total (post-counters t), ran.at_most);
            exactly = λ h n. absurd (n refl);
            failed = λ z e. absurd (cc);
          })
  ]

  run_trials-Reported :
      (fuel : Fuel) (t : State s) → Ensures (Reported t.counters) (run_trials s fuel t)
  unfolding run_trials
  run_trials-Reported fuel t = elim (Bool-cases ((run_pre_hook s t).0)) [
    | inr stop ↦
        rw (stop, run_trials)
          (record {
            at_most = omega (arith, ap total (pre-counters t));
            exactly = λ h n. absurd (n refl);
            failed = λ z e. absurd (cc);
          })
    | inl go_on ↦
        rw (go_on, run_trials)
          (subst
            (λ c. Ensures (Reported c) (
              trials_from s fuel s.trial_count 0 s.run_seed (run_pre_hook s t).1 >>= λ r.
              done (conclude s r)))
            (pre-counters t)
            (Ensures-bind (Ran (run_pre_hook s t).1.counters s.trial_count)
              (Reported (run_pre_hook s t).1.counters)
              (trials_from s fuel s.trial_count 0 s.run_seed (run_pre_hook s t).1) _
              (trials_from-Ran fuel s.trial_count 0 s.run_seed (run_pre_hook s t).1)
              (λ r ran. conclude-Reported (run_pre_hook s t).1.counters r ran)))
  ]

  -- Whatever its result, a run counts at most trial_count trials.
  pub total-run_trials_le :
      (fuel : Fuel) (t t' : State s) (res : RunRes)
      → run_trials s fuel t ≡ done (res, t')
      → total t'.counters ≤ total t.counters + s.trial_count
  total-run_trials_le fuel t t' res e =
      (Ensures-done (Reported t.counters) (run_trials s fuel t) (res, t')
        (run_trials-Reported fuel t) e).at_most

  -- With no hook that can halt it, a run that ends without an error has counted each of its
  -- trial_count trials exactly once.
  pub total-run_trials :
      (fuel : Fuel) (t t' : State s) (res : RunRes)
      → NeverHalts s
      → res ≢ RunRes.error
      → run_trials s fuel t ≡ done (res, t')
      → total t'.counters ≡ total t.counters + s.trial_count
  total-run_trials fuel t t' res h n e =
      (Ensures-done (Reported t.counters) (run_trials s fuel t) (res, t')
          (run_trials-Reported fuel t) e).exactly
        h n

  -- A run that starts with no failure counted reports FAIL only if there are arguments, and a
  -- state of the world, for which calling the property gives FAIL.
  pub run_trials-CanFail :
      (fuel : Fuel) (t t' : State s)
      → t.counters.fail ≡ 0
      → run_trials s fuel t ≡ done (RunRes.fail, t')
      → CanFail s
  run_trials-CanFail fuel t t' z e =
      (Ensures-done (Reported t.counters) (run_trials s fuel t) (RunRes.fail, t')
          (run_trials-Reported fuel t) e).failed
        z refl
