-- ===== src/Run/Counts.antt =====
-- src/theft_run.c, `run_step`: the counters before and after a step, and where a failure comes
-- from.
use theft.Base.{ℕ, zero, suc, ◌+◌, ◌≡◌, ◌≢◌, refl, ◌∙◌, Bool, true, false, Option, none}
use theft.Base.{if◌then◌else◌, List, Bool-cases, Option-cases, inl, inr}
use mathlib.Core.Path.{subst}
use theft.Types.{
  TrialRes, TrialPostRes, TrialPreRes, GenArgsPreRes, AllocRes, AllGenRes, RunStepRes, Ensures,
  Ensures-bind,
}
use theft.Theft.{Setup, Counters, set_world}
use theft.Shrink.{State}
use theft.Trial.{Fuel, trial_run, is_post_error}
use theft.Trial.Counts.{bump, Counted, result_of, trial_run-Counted}
use theft.Run.{
  Step, after_post, after_trial_run, after_trial_pre, after_gen, after_gen_pre, gen_args, alloc_arg,
  placed, is_known, gen_all_args, gen_args_pre_hook, trial_pre_hook, new_trial, init_arg_info,
  trial_seed, run_step,
}

abbrev pub total : Counters → ℕ
total c = c.pass + c.fail + c.skip + c.dup

module _ {I P W : Type 0} (s : Setup I P W) where
  -- There are arguments and a state of the world for which the property gives FAIL.
  abbrev pub CanFail : Type 0
  CanFail = (args : List I) × (w : W) × ((s.call args w).0 ≡ TrialRes.fail)

  -- No hook can ask for a halt.
  abbrev pub NeverHalts : Type 0
  NeverHalts = (s.hooks.gen_args_pre ≡ none) × (s.hooks.trial_pre ≡ none)

  -- What a step did to the counters `c`.
  pub record Stepped (c : Counters) (r : Step s) : Type 0 where
    pub kind : TrialRes
    pub counted : (r.2).counters ≡ bump kind c
    pub counts : r.0 ≡ RunStepRes.ok → kind ≢ TrialRes.error
    pub failed : kind ≡ TrialRes.fail → CanFail
    pub halted : NeverHalts → r.0 ≢ RunStepRes.halt

  uncounted :
      (c : Counters) (seed : ℕ) (res : RunStepRes) (t : State s)
      → t.counters ≡ c
      → res ≢ RunStepRes.ok
      → (NeverHalts → res ≢ RunStepRes.halt)
      → Stepped c (res, seed, t)
  uncounted c seed res t e n h = record {
    kind = TrialRes.error;
    counted = e;
    counts = λ x. absurd (n x);
    failed = λ x. absurd (cc);
    halted = h;
  }

  after_post-Stepped :
      (c : Counters) (kind : TrialRes) (seed : ℕ) (pres : TrialPostRes) (t : State s)
      → t.counters ≡ bump kind c
      → kind ≢ TrialRes.error
      → (kind ≡ TrialRes.fail → CanFail)
      → Stepped c (after_post s seed pres t)
  unfolding after_post
  after_post-Stepped c kind seed pres t e n f = elim (Bool-cases (is_post_error pres)) [
    | inl err ↦
        rw (err, after_post)
          (record {
            kind = kind;
            counted = e;
            counts = λ x. absurd (cc);
            failed = f;
            halted = λ h x. cc;
          })
    | inr fine ↦
        rw (fine, after_post)
          (record { kind = kind; counted = e; counts = λ x. n; failed = f; halted = λ h x. cc })
  ]

  after_trial_run-Stepped :
      (c : Counters) (seed : ℕ) (res : TrialRes) (r : Bool × TrialPostRes × State s)
      → (res ≡ TrialRes.fail → CanFail)
      → Counted s c res r
      → Stepped c (after_trial_run s seed r)
  unfolding after_trial_run
  after_trial_run-Stepped c seed res (true, pres, t) f k =
      after_post-Stepped c res seed pres t k.0 k.1 f
  after_trial_run-Stepped c seed res (false, pres, t) f (inl e) = record {
    kind = res;
    counted = e;
    counts = λ x. absurd (cc);
    failed = f;
    halted = λ h x. cc;
  }
  after_trial_run-Stepped c seed res (false, pres, t) f (inr e) =
      uncounted c seed RunStepRes.trial_error _ e (λ x. cc) (λ h x. cc)

  after_trial_pre-Stepped :
      (fuel : Fuel) (seed : ℕ) (res : TrialPreRes) (t : State s)
      → (NeverHalts → res ≢ TrialPreRes.halt)
      → Ensures (Stepped t.counters) (after_trial_pre s fuel seed res t)
  unfolding after_trial_pre
  after_trial_pre-Stepped fuel seed TrialPreRes.halt t h =
      uncounted t.counters seed RunStepRes.halt _ refl (λ x. cc) (λ n x. h n refl)
  after_trial_pre-Stepped fuel seed TrialPreRes.error t h =
      uncounted t.counters seed RunStepRes.trial_error _ refl (λ x. cc) (λ n x. cc)
  after_trial_pre-Stepped fuel seed TrialPreRes.continue t h =
      Ensures-bind (Counted s t.counters (result_of s t)) (Stepped t.counters) (trial_run s fuel t)
        _ (trial_run-Counted s fuel t)
        (λ r k. after_trial_run-Stepped t.counters seed (result_of s t) r (λ e. (_, t.world, e)) k)

  trial_pre-same :
      (t : State s)
      → ((trial_pre_hook s t).1.counters ≡ t.counters)
        × (NeverHalts → (trial_pre_hook s t).0 ≢ TrialPreRes.halt)
  unfolding trial_pre_hook
  trial_pre-same t = elim (Option-cases (s.hooks.trial_pre)) [
    | inl e ↦ rw (e, trial_pre_hook) (refl, λ n x. cc)
    | inr (hook, e) ↦ rw (e, trial_pre_hook) (refl, λ n x. absurd (cc (n.1)))
  ]

  pub gen_pre-same :
      (t : State s)
      → ((gen_args_pre_hook s t).1.counters ≡ t.counters)
        × (NeverHalts → (gen_args_pre_hook s t).0 ≢ GenArgsPreRes.halt)
  unfolding gen_args_pre_hook
  gen_pre-same t = elim (Option-cases (s.hooks.gen_args_pre)) [
    | inl e ↦ rw (e, gen_args_pre_hook) (refl, λ n x. cc)
    | inr (hook, e) ↦ rw (e, gen_args_pre_hook) (refl, λ n x. absurd (cc (n.0)))
  ]

  after_gen-Stepped :
      (fuel : Fuel) (seed failures : ℕ) (res : AllGenRes) (t : State s)
      → Ensures (Stepped t.counters) (after_gen s fuel seed failures res t)
  unfolding after_gen
  after_gen-Stepped fuel seed failures AllGenRes.skip t =
      after_post-Stepped t.counters TrialRes.skip seed _ _ refl (λ x. cc) (λ x. absurd (cc))
  after_gen-Stepped fuel seed failures AllGenRes.dup t =
      after_post-Stepped t.counters TrialRes.dup seed _ _ refl (λ x. cc) (λ x. absurd (cc))
  after_gen-Stepped fuel seed failures AllGenRes.error t =
      uncounted t.counters seed RunStepRes.gen_error _ refl (λ x. cc) (λ n x. cc)
  after_gen-Stepped fuel seed failures AllGenRes.ok t =
      let same = trial_pre-same t in
      subst
        (λ c.
          Ensures (Stepped c)
            (after_trial_pre s fuel seed (trial_pre_hook s t).0 (trial_pre_hook s t).1))
        (same.0)
        (after_trial_pre-Stepped fuel seed (trial_pre_hook s t).0 (trial_pre_hook s t).1 (same.1))

  placed-counters :
      (i : ℕ) (r : AllocRes × I × Option P × W) (t : State s)
      → (placed s i r t).counters ≡ t.counters
  placed-counters i (AllocRes.ok, x, pool, w) t = refl
  placed-counters i (_, x, pool, w) t = refl

  after_alloc :
      (c : Counters) (res : AllocRes) (later : State s → AllGenRes × State s) (t : State s)
      → ((t : State s) → t.counters ≡ c → (later t).1.counters ≡ c)
      → t.counters ≡ c
      → (let r : AllGenRes × State s = elim res [
        | AllocRes.ok ↦ later t
        | AllocRes.skip ↦ (AllGenRes.skip, t)
        | AllocRes.error ↦ (AllGenRes.error, t)
      ] in
          (r.1).counters ≡ c)
  after_alloc c AllocRes.ok later t ih e = ih t e
  after_alloc c _ later t ih e = e

  gen_args-counters :
      (c : Counters) (left i : ℕ) (t : State s)
      → t.counters ≡ c
      → (gen_args s left i t).1.counters ≡ c
  unfolding gen_args
  gen_args-counters c zero i t e = e
  gen_args-counters c (suc left) i t e =
      after_alloc c ((alloc_arg s i t.world).0) (gen_args s left (i + 1))
        (placed s i (alloc_arg s i t.world) t) (gen_args-counters c left (i + 1))
        (placed-counters i (alloc_arg s i t.world) t ∙ e)

  pub gen_all_args-counters : (t : State s) → (gen_all_args s t).1.counters ≡ t.counters
  unfolding gen_all_args
  gen_all_args-counters t =
      checked (gen_args s s.arity 0 t) (gen_args-counters t.counters s.arity 0 t refl)
    where
      checked :
          (r : AllGenRes × State s)
          → r.1.counters ≡ t.counters
          → (let r' : AllGenRes × State s = elim (r.0) [
            | AllGenRes.ok ↦ (if is_known s r.1 then AllGenRes.dup else AllGenRes.ok, r.1)
            | _ ↦ r
          ] in
              (r'.1).counters ≡ t.counters)
      checked (AllGenRes.ok, t') e = e
      checked (_, t') e = e

  after_gen_pre-Stepped :
      (fuel : Fuel) (seed : ℕ) (res : GenArgsPreRes) (t : State s)
      → (NeverHalts → res ≢ GenArgsPreRes.halt)
      → Ensures (Stepped t.counters) (after_gen_pre s fuel seed res t)
  unfolding after_gen_pre
  after_gen_pre-Stepped fuel seed GenArgsPreRes.halt t h =
      uncounted t.counters seed RunStepRes.halt t refl (λ x. cc) (λ n x. h n refl)
  after_gen_pre-Stepped fuel seed GenArgsPreRes.error t h =
      uncounted t.counters seed RunStepRes.gen_error t refl (λ x. cc) (λ n x. cc)
  after_gen_pre-Stepped fuel seed GenArgsPreRes.continue t h =
      let seeded : State s = set_world (s.set_seed t.trial.seed t.world) t in
      let g : AllGenRes × State s = gen_all_args s seeded in
      subst (λ c. Ensures (Stepped c) (after_gen s fuel seed (g.1).counters.fail g.0 g.1))
        (gen_all_args-counters seeded) (after_gen-Stepped fuel seed (g.1).counters.fail g.0 g.1)

  pub run_step-Stepped :
      (fuel : Fuel) (trial seed : ℕ) (t : State s)
      → Ensures (Stepped t.counters) (run_step s fuel trial seed t)
  unfolding run_step
  run_step-Stepped fuel trial seed t =
      let r : Bool × W = init_arg_info s s.arity 0 t.world in
      let now : ℕ = trial_seed s trial seed in
      let t' : State s = new_trial s trial now (set_world (r.1) t) in
      elim (Bool-cases (r.0)) [
        | inr fails ↦
            rw (fails, run_step)
              (uncounted t.counters now RunStepRes.gen_error _ refl (λ x. cc) (λ n x. cc))
        | inl given ↦
            rw (given, run_step)
              (subst
                (λ c.
                  Ensures (Stepped c) (
                    after_gen_pre s fuel now (gen_args_pre_hook s t').0 (gen_args_pre_hook s t').1))
                ((gen_pre-same t').0)
                (after_gen_pre-Stepped fuel now (gen_args_pre_hook s t').0
                  (gen_args_pre_hook s t').1 ((gen_pre-same t').1)))
      ]
