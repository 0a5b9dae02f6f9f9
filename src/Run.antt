-- ===== src/Run.antt =====
-- src/theft_run.c: a run of trials.
pub mod Counts
pub mod Totals
mod Tests
use theft.Base.{
  ℕ, zero, suc, ◌+◌, Bool, true, false, not, ◌&&◌, ◌||◌, Option, none, some, List, [], ◌∷◌,
}
use theft.Base.{length, get_or, ltb, ◌==◌, if◌then◌else◌}
use theft.Types.{
  TrialRes, TrialPostRes, TrialPreRes, GenArgsPreRes, RunPreRes, RunPostRes, AllocRes, AllGenRes,
  RunStepRes, RunRes, Outcome, done, aborted, no_fuel, ◌>>=◌,
}
use theft.Theft.{
  Setup, Theft, TrialInfo, PreInfo, TrialPostInfo, ArgInfo, arg, set_arg, set_world, instances,
}
use theft.Call.{check_called}
use theft.Shrink.{State}
use theft.Trial.{Fuel, trial_run, free_args, is_post_error, count_skip, count_dup}

module _ {I P W : Type 0} (s : Setup I P W) where
  -- `init_arg_info`: the environments of the autoshrunk arguments, from index `i` on.
  unfoldable pub init_arg_info : ℕ → ℕ → W → Bool × W
  init_arg_info zero i w = (true, w)
  init_arg_info (suc left) i w =
      let later = λ (w : W). init_arg_info left (i + 1) w in
      if (s.type_info i).autoshrink
      then (let r = s.autoshrink.alloc_env i w in
          elim (r.0) [ true ↦ later r.1 | false ↦ (false, r.1) ])
      else later w

  unfoldable pub alloc_arg : ℕ → W → AllocRes × I × Option P × W
  alloc_arg i w =
      if (s.type_info i).autoshrink
      then s.autoshrink.alloc i w
      else (let r = (s.type_info i).alloc w in (r.0, r.1, none, r.2))

  -- Put what was allocated in its place; the instance only if all went well.
  abbrev pub placed : ℕ → AllocRes × I × Option P × W → State s → State s
  placed i (AllocRes.ok, x, pool, w) t =
      set_arg i (record { instance_of = x; bit_pool = pool }) (set_world w t)
  placed i (_, x, pool, w) t = set_arg i (record (arg i t) { bit_pool = pool }) (set_world w t)

  -- `gen_all_args` from index `i` on, up to the check of the bloom filter.
  unfoldable pub gen_args : ℕ → ℕ → State s → AllGenRes × State s
  gen_args zero i t = (AllGenRes.ok, t)
  gen_args (suc left) i t =
      let r = alloc_arg i t.world in
      elim (r.0) [
        | AllocRes.ok ↦ gen_args left (i + 1) (placed i r t)
        | AllocRes.skip ↦ (AllGenRes.skip, placed i r t)
        | AllocRes.error ↦ (AllGenRes.error, placed i r t)
      ]

  abbrev pub is_known : State s → Bool
  is_known t = elim (t.bloom) [ none ↦ false | some b ↦ check_called s b t ]

  unfoldable pub gen_all_args : State s → AllGenRes × State s
  gen_all_args t =
      let r = gen_args s.arity 0 t in
      elim (r.0) [
        | AllGenRes.ok ↦ (if is_known r.1 then AllGenRes.dup else AllGenRes.ok, r.1)
        | _ ↦ r
      ]

  abbrev pub pre_info : State s → PreInfo
  pre_info t = record {
    trial_id = t.trial.trial;
    trial_seed = t.trial.seed;
    failures = t.counters.fail;
  }

  unfoldable pub gen_args_pre_hook : State s → GenArgsPreRes × State s
  gen_args_pre_hook t = elim (s.hooks.gen_args_pre) [
    | none ↦ (GenArgsPreRes.continue, t)
    | some hook ↦ let r = hook (pre_info t) t.world in (r.0, set_world r.1 t)
  ]

  unfoldable pub trial_pre_hook : State s → TrialPreRes × State s
  trial_pre_hook t = elim (s.hooks.trial_pre) [
    | none ↦ (TrialPreRes.continue, t)
    | some hook ↦ let r = hook (pre_info t) t.world in (r.0, set_world r.1 t)
  ]

  -- The seed of trial `trial`: the seeds to run always, then the seed of the run, then the one
  -- that the trial before has left.
  unfoldable pub trial_seed : ℕ → ℕ → ℕ
  trial_seed trial seed =
      if ltb trial (length s.always_seeds)
      then get_or s.always_seeds trial 0
      else (if ltb 0 (length s.always_seeds) && trial == length s.always_seeds
          then s.run_seed
          else seed)

  -- The post hook of `run_step`; `args` was read after the arguments were generated.
  abbrev pub step_post : List I → ℕ → TrialRes → State s → TrialPostRes × State s
  step_post args failures res t =
      let info : TrialPostInfo I = record {
        trial_id = t.trial.trial;
        trial_seed = t.trial.seed;
        failures = failures;
        args = args;
        result = res;
        repeated = false;
      } in
      let r = s.hooks.trial_post info t.world in (r.0, set_world r.1 t)

  -- What a step returns, the seed for the next trial and the state.
  abbrev pub Step : Type 0
  Step = RunStepRes × ℕ × State s

  -- `cleanup`
  abbrev pub finish : ℕ → RunStepRes → State s → Step
  finish seed res t = (res, seed, set_world (free_args s s.arity 0 t.trial.args t.world) t)

  -- The end of the step for an answer of the post hook.
  unfoldable pub after_post : ℕ → TrialPostRes → State s → Step
  after_post seed pres t = elim (is_post_error pres) [
    | true ↦ finish seed RunStepRes.trial_error t
    | false ↦ let r = s.random t.world in finish r.0 RunStepRes.ok (set_world r.1 t)
  ]

  unfoldable pub after_trial_run : ℕ → Bool × TrialPostRes × State s → Step
  after_trial_run seed (false, pres, t) = finish seed RunStepRes.trial_error t
  after_trial_run seed (true, pres, t) = after_post seed pres t

  unfoldable pub after_trial_pre : Fuel → ℕ → TrialPreRes → State s → Outcome Step
  after_trial_pre fuel seed TrialPreRes.halt t = done (finish seed RunStepRes.halt t)
  after_trial_pre fuel seed TrialPreRes.error t = done (finish seed RunStepRes.trial_error t)
  after_trial_pre fuel seed TrialPreRes.continue t =
      trial_run s fuel t >>= λ r. done (after_trial_run seed r)

  -- The `switch` on how the arguments were generated.
  unfoldable pub after_gen : Fuel → ℕ → ℕ → AllGenRes → State s → Outcome Step
  after_gen fuel seed failures AllGenRes.skip t =
      let p =
        step_post (instances s.arity 0 t.trial.args) failures TrialRes.skip (count_skip s t) in
      done (after_post seed p.0 p.1)
  after_gen fuel seed failures AllGenRes.dup t =
      let p = step_post (instances s.arity 0 t.trial.args) failures TrialRes.dup (count_dup s t) in
      done (after_post seed p.0 p.1)
  after_gen fuel seed failures AllGenRes.error t =
      let p = step_post (instances s.arity 0 t.trial.args) failures TrialRes.error t in
      done (finish seed RunStepRes.gen_error p.1)
  after_gen fuel seed failures AllGenRes.ok t =
      let r = trial_pre_hook t in after_trial_pre fuel seed r.0 r.1

  unfoldable pub after_gen_pre : Fuel → ℕ → GenArgsPreRes → State s → Outcome Step
  after_gen_pre fuel seed GenArgsPreRes.halt t = done (RunStepRes.halt, seed, t)
  after_gen_pre fuel seed GenArgsPreRes.error t = done (RunStepRes.gen_error, seed, t)
  after_gen_pre fuel seed GenArgsPreRes.continue t =
      let g = gen_all_args (set_world (s.set_seed t.trial.seed t.world) t) in
      after_gen fuel seed (g.1).counters.fail g.0 g.1

  abbrev pub no_args : ℕ → ArgInfo I P
  no_args i = record { instance_of = s.null; bit_pool = none }

  abbrev pub new_trial : ℕ → ℕ → State s → State s
  new_trial trial seed t = record t {
    trial = record {
      trial = trial;
      seed = seed;
      shrink_count = 0;
      successful_shrinks = 0;
      failed_shrinks = 0;
      args = no_args;
    };
  }

  -- `run_step`, at the seed that the trial before has left.
  unfoldable pub run_step : Fuel → ℕ → ℕ → State s → Outcome Step
  run_step fuel trial seed₀ t =
      let seed = trial_seed trial seed₀ in
      let r = init_arg_info s.arity 0 t.world in
      elim (r.0) [
        | false ↦ done (RunStepRes.gen_error, seed, set_world r.1 t)
        | true ↦
            let p = gen_args_pre_hook (new_trial trial seed (set_world r.1 t)) in
            after_gen_pre fuel seed p.0 p.1
      ]

  -- The loop over the trials, with the number left: whether it ends without an error.
  unfoldable pub trials_from : Fuel → ℕ → ℕ → ℕ → State s → Outcome (Bool × State s)
  trials_from fuel zero trial seed t = done (true, t)
  trials_from fuel (suc left) trial seed t = run_step fuel trial seed t >>= λ r.
      let t' = new_trial 0 0 r.2 in
      elim (r.0) [
        | RunStepRes.ok ↦ trials_from fuel left (trial + 1) r.1 t'
        | RunStepRes.halt ↦ done (true, t')
        | RunStepRes.gen_error ↦ done (false, t')
        | RunStepRes.trial_error ↦ done (false, t')
      ]

  -- The result of a run that was not broken off.
  unfoldable pub verdict : State s → RunRes
  verdict t =
      if ltb 0 t.counters.fail
      then RunRes.fail
      else (if ltb 0 t.counters.pass then RunRes.pass else RunRes.skip)

  unfoldable pub run_pre_hook : State s → Bool × State s
  run_pre_hook t = elim (s.hooks.run_pre) [
    | none ↦ (true, t)
    | some hook ↦
        let r = hook t.world in
        (elim (r.0) [ RunPreRes.continue ↦ true | RunPreRes.error ↦ false ], set_world r.1 t)
  ]

  unfoldable pub run_post_hook : State s → Bool × State s
  run_post_hook t = elim (s.hooks.run_post) [
    | none ↦ (true, t)
    | some hook ↦
        let r = hook t.counters t.world in
        (elim (r.0) [ RunPostRes.continue ↦ true | RunPostRes.error ↦ false ], set_world r.1 t)
  ]

  -- The end of `theft_run_trials`, by whether the loop was broken off.
  unfoldable pub conclude : Bool × State s → RunRes × State s
  conclude (false, t) = (RunRes.error, t)
  conclude (true, t) =
      let p = run_post_hook t in
      elim (p.0) [ true ↦ (verdict p.1, p.1) | false ↦ (RunRes.error, p.1) ]

  unfoldable pub run_trials : Fuel → State s → Outcome (RunRes × State s)
  run_trials fuel t =
      let p = run_pre_hook t in
      elim (p.0) [
        | false ↦ done (RunRes.error, p.1)
        | true ↦ trials_from fuel s.trial_count 0 s.run_seed p.1 >>= λ r. done (conclude r)
      ]
