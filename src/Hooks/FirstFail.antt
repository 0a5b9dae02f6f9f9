-- ===== src/Hooks/FirstFail.antt =====
-- src/theft_aux.c, `theft_hook_first_fail_halt`: a run with this hook ends at its first failure.
use theft.Base.{ℕ, zero, suc, ◌+◌, ◌<◌, ◌≤◌, ◌≡◌, refl, arith, ap, subst, Bool, true, false, some}
use theft.Base.{Bool-cases, inl, inr, ltb, ltb→lt, lt→ltb}
use theft.Types.{
  TrialRes, TrialPostRes, GenArgsPreRes, AllGenRes, RunStepRes, RunRes, done, Ensures, Ensures-bind,
  Ensures-done, Ensures-weaken,
}
use theft.Theft.{Setup, Counters, set_world}
use theft.Shrink.{State}
use theft.Trial.{Fuel, is_post_error}
use theft.Trial.Counts.{bump}
use theft.Run.{
  Step, after_post, after_trial_pre, after_gen, after_gen_pre, gen_all_args, gen_args_pre_hook,
  trial_pre_hook, init_arg_info, new_trial, trial_seed, run_step, trials_from, run_pre_hook,
  run_post_hook, conclude, run_trials,
}
use theft.Run.Counts.{Stepped, run_step-Stepped, gen_all_args-counters, gen_pre-same}
use theft.Run.Totals.{pre-counters, post-counters}
use theft.Hooks.{first_fail_halt}

module _ {I P W : Type 0} (s : Setup I P W)
    (installed : s.hooks.trial_pre ≡ some first_fail_halt) where
  -- A step that counts no failure.
  abbrev Unfailed : ℕ → Step s → Type 0
  Unfailed n r = (r.2).counters.fail ≡ n

  after_post-Unfailed :
      (seed : ℕ) (pres : TrialPostRes) (t : State s)
      → Unfailed t.counters.fail (after_post s seed pres t)
  unfolding after_post
  after_post-Unfailed seed pres t = elim (Bool-cases (is_post_error pres)) [
    | inl err ↦ rw (err, after_post) refl
    | inr fine ↦ rw (fine, after_post) refl
  ]

  after_gen-Unfailed :
      (fuel : Fuel) (seed failures : ℕ) (res : AllGenRes) (t : State s)
      → 0 < t.counters.fail
      → Ensures (Unfailed t.counters.fail) (after_gen s fuel seed failures res t)
  unfolding after_gen trial_pre_hook first_fail_halt after_trial_pre
  after_gen-Unfailed fuel seed failures AllGenRes.skip t failed = after_post-Unfailed seed _ _
  after_gen-Unfailed fuel seed failures AllGenRes.dup t failed = after_post-Unfailed seed _ _
  after_gen-Unfailed fuel seed failures AllGenRes.error t failed = refl
  after_gen-Unfailed fuel seed failures AllGenRes.ok t failed =
      rw (installed, lt→ltb 0 t.counters.fail failed) refl

  after_gen_pre-Unfailed :
      (fuel : Fuel) (seed : ℕ) (res : GenArgsPreRes) (t : State s)
      → 0 < t.counters.fail
      → Ensures (Unfailed t.counters.fail) (after_gen_pre s fuel seed res t)
  unfolding after_gen_pre
  after_gen_pre-Unfailed fuel seed GenArgsPreRes.halt t failed = refl
  after_gen_pre-Unfailed fuel seed GenArgsPreRes.error t failed = refl
  after_gen_pre-Unfailed fuel seed GenArgsPreRes.continue t failed =
      let seeded : State s = set_world (s.set_seed t.trial.seed t.world) t in
      let g : AllGenRes × State s = gen_all_args s seeded in
      let same : (g.1).counters.fail ≡ t.counters.fail =
        ap (λ (c : Counters). c.fail) (gen_all_args-counters s seeded) in
      subst (λ (n : ℕ). Ensures (Unfailed n) (after_gen s fuel seed (g.1).counters.fail g.0 g.1))
        same
        (after_gen-Unfailed fuel seed (g.1).counters.fail g.0 g.1 (omega (arith, failed, same)))

  run_step-Unfailed :
      (fuel : Fuel) (trial seed : ℕ) (t : State s)
      → 0 < t.counters.fail
      → Ensures (Unfailed t.counters.fail) (run_step s fuel trial seed t)
  unfolding run_step
  run_step-Unfailed fuel trial seed t failed =
      elim (Bool-cases ((init_arg_info s s.arity 0 t.world).0)) [
        | inr no_env ↦ rw (no_env, run_step) refl
        | inl fine ↦
            let t₁ =
              new_trial s trial (trial_seed s trial seed)
                (set_world (init_arg_info s s.arity 0 t.world).1 t) in
            let p = gen_args_pre_hook s t₁ in
            let same : (p.1).counters.fail ≡ t.counters.fail =
              ap (λ (c : Counters). c.fail) (gen_pre-same s t₁).0 in
            rw (fine, run_step)
              (subst
                (λ (n : ℕ).
                  Ensures (Unfailed n) (after_gen_pre s fuel (trial_seed s trial seed) p.0 p.1))
                same
                (after_gen_pre-Unfailed fuel (trial_seed s trial seed) p.0 p.1
                  (omega (arith, failed, same))))
      ]

  bump-fail : (kind : TrialRes) (c : Counters) → (bump kind c).fail ≤ c.fail + 1
  bump-fail TrialRes.pass c = omega arith
  bump-fail TrialRes.fail c = omega arith
  bump-fail TrialRes.skip c = omega arith
  bump-fail TrialRes.dup c = omega arith
  bump-fail TrialRes.error c = omega arith

  abbrev OneFailure : State s → Type 0
  OneFailure t = t.counters.fail ≤ 1

  run_step-OneFailure :
      (fuel : Fuel) (trial seed : ℕ) (t : State s)
      → OneFailure t
      → Ensures (λ r. OneFailure r.2) (run_step s fuel trial seed t)
  run_step-OneFailure fuel trial seed t one = elim (Bool-cases (ltb 0 t.counters.fail)) [
    | inl failed ↦
        Ensures-weaken (Unfailed t.counters.fail) (λ r. OneFailure r.2)
          (run_step s fuel trial seed t) (λ r same. omega (arith, same, one))
          (run_step-Unfailed fuel trial seed t (ltb→lt 0 t.counters.fail failed))
    | inr none_yet ↦
        Ensures-weaken (Stepped s t.counters) (λ r. OneFailure r.2) (run_step s fuel trial seed t)
          (λ r st. still (r.2).counters t.counters st.kind st.counted none_yet)
          (run_step-Stepped s fuel trial seed t)
  ]
    where
      still :
          (c' c : Counters) (kind : TrialRes)
          → c' ≡ bump kind c
          → ltb 0 c.fail ≡ false
          → c'.fail ≤ 1
      still c' c kind e z = rw e (small c.fail (bump kind c).fail z (bump-fail kind c))
        where
          small : (m n : ℕ) → ltb 0 m ≡ false → n ≤ m + 1 → n ≤ 1
          small m n z h = ground arith

  trials_from-OneFailure :
      (fuel : Fuel) (left trial seed : ℕ) (t : State s)
      → OneFailure t
      → Ensures (λ r. OneFailure r.1) (trials_from s fuel left trial seed t)
  unfolding trials_from
  trials_from-OneFailure fuel zero trial seed t one = one
  trials_from-OneFailure fuel (suc left) trial seed t one =
      Ensures-bind (λ r. OneFailure r.2) (λ r. OneFailure r.1) (run_step s fuel trial seed t) _
        (run_step-OneFailure fuel trial seed t one)
        λ r h. next r h (λ trial' seed' t'. trials_from-OneFailure fuel left trial' seed' t')
    where
      next :
          (r : Step s)
          → OneFailure r.2
          → ((trial' seed' : ℕ) (t' : State s)
              → OneFailure t'
              → Ensures (λ q. OneFailure q.1) (trials_from s fuel left trial' seed' t'))
          → Ensures
              (λ (q : Bool × State s). OneFailure q.1)
              (elim (r.0) [
                | RunStepRes.ok ↦ trials_from s fuel left (trial + 1) r.1 (new_trial s 0 0 r.2)
                | RunStepRes.halt ↦ done (true, new_trial s 0 0 r.2)
                | RunStepRes.gen_error ↦ done (false, new_trial s 0 0 r.2)
                | RunStepRes.trial_error ↦ done (false, new_trial s 0 0 r.2)
              ])
      next (RunStepRes.ok, seed', t') h later = later (trial + 1) seed' (new_trial s 0 0 t') h
      next (RunStepRes.halt, seed', t') h later = h
      next (RunStepRes.gen_error, seed', t') h later = h
      next (RunStepRes.trial_error, seed', t') h later = h

  conclude-OneFailure : (r : Bool × State s) → OneFailure r.1 → OneFailure (conclude s r).1
  unfolding conclude
  conclude-OneFailure (false, t) h = h
  conclude-OneFailure (true, t) h =
      let same = ap (λ (c : Counters). c.fail) (post-counters s t) in
      elim (Bool-cases ((run_post_hook s t).0)) [
        | inl fine ↦ rw (fine, conclude) (omega (arith, same, h))
        | inr err ↦ rw (err, conclude) (omega (arith, same, h))
      ]

  -- A run with theft_hook_first_fail_halt as its trial_pre hook that starts with no failure
  -- counted, however it ends, counts at most one failure.
  pub run_trials-OneFailure :
      (fuel : Fuel) (t t' : State s) (res : RunRes)
      → t.counters.fail ≡ 0
      → run_trials s fuel t ≡ done (res, t')
      → t'.counters.fail ≤ 1
  unfolding run_trials
  run_trials-OneFailure fuel t t' res z e =
      Ensures-done (λ r. OneFailure r.1) (run_trials s fuel t) (res, t') ran e
    where
      same : (run_pre_hook s t).1.counters.fail ≡ t.counters.fail
      same = ap (λ (c : Counters). c.fail) (pre-counters s t)

      ran : Ensures (λ r. OneFailure r.1) (run_trials s fuel t)
      ran = elim (Bool-cases ((run_pre_hook s t).0)) [
        | inr stop ↦ rw (stop, run_trials) (omega (arith, same, z))
        | inl go_on ↦
            rw (go_on, run_trials)
              (Ensures-bind (λ r. OneFailure r.1) (λ r. OneFailure r.1)
                (trials_from s fuel s.trial_count 0 s.run_seed (run_pre_hook s t).1) _
                (trials_from-OneFailure fuel s.trial_count 0 s.run_seed (run_pre_hook s t).1
                  (omega (arith, same, z)))
                (λ r h. conclude-OneFailure r h))
      ]
