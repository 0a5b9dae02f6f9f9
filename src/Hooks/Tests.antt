-- ===== src/Hooks/Tests.antt =====
-- src/theft_aux.c: a property that always fails, with `theft_hook_first_fail_halt`.
use theft.Base.{ℕ, ◌*◌, ◌≤◌, ◌≡◌, refl, true, false, none, some, [], ◌∷◌}
use theft.Types.{
  TrialRes, AllocRes, ShrinkRes, TrialPostRes, RunRes, Outcome, done, aborted, no_fuel,
}
use theft.Theft.{Setup, TypeInfo, Autoshrink, Hooks}
use theft.Shrink.{State, shrink, shrink_from}
use theft.Trial.{
  Fuel, free_args, trial_run, mark_if, after_trial, after_shrink, report_on_failure,
  show_counterexample, repeat_loop,
}
use theft.Run.{
  run_trials, run_pre_hook, trials_from, run_step, trial_seed, init_arg_info, gen_args_pre_hook,
  after_gen_pre, gen_all_args, gen_args, alloc_arg, after_gen, trial_pre_hook, after_trial_pre,
  after_trial_run, after_post, run_post_hook, conclude, verdict,
}
use theft.Hooks.{first_fail_halt}
use theft.Hooks.FirstFail.{run_trials-OneFailure}

abbrev number_info : TypeInfo ℕ Unit ℕ
number_info = record {
  alloc = λ w. (AllocRes.ok, w, w);
  free = none;
  hash = none;
  shrink = none;
  autoshrink = false;
}

abbrev no_autoshrink : Autoshrink ℕ Unit ℕ
no_autoshrink = record {
  alloc_env = λ i w. (true, w);
  free_env = λ i p w. w;
  alloc = λ i w. (AllocRes.error, 0, none, w);
  hash = λ i x p w. 0;
  shrink = λ i p tactic w. (ShrinkRes.error, 0, none, w);
  free_bit_pool = λ p w. w;
  update_model = λ i res adjustment w. w;
}

abbrev hooks : Hooks ℕ ℕ
hooks = record {
  run_pre = none;
  run_post = none;
  gen_args_pre = none;
  trial_pre = some first_fail_halt;
  trial_post = λ info w. (TrialPostRes.continue, w);
  counterexample = none;
  shrink_pre = none;
  shrink_post = none;
  shrink_trial_post = none;
}

abbrev setup : Setup ℕ Unit ℕ
setup = record {
  null = 0;
  is_null = λ x. false;
  arity = 1;
  type_info = λ i. number_info;
  trial_count = 3;
  run_seed = 1;
  always_seeds = 4 ∷ 8 ∷ [];
  hooks = hooks;
  call = λ xs w. (TrialRes.fail, w);
  autoshrink = no_autoshrink;
  set_seed = λ seed w. seed;
  random = λ w. (w * 3, w);
  malloc = λ w size. true;
}

abbrev start : State setup
start = record {
  bloom = none;
  counters = record { pass = 0; fail = 0; skip = 0; dup = 0 };
  trial = record {
    trial = 0;
    seed = 1;
    shrink_count = 0;
    successful_shrinks = 0;
    failed_shrinks = 0;
    args = λ i. record { instance_of = 7; bit_pool = none };
  };
  world = 0;
}

abbrev fuel : Fuel
fuel = record { calls = 2; rounds = 9; repeats = 2 }

abbrev state_or : {R : Type 0} → State setup → Outcome (R × State setup) → State setup
state_or t (done r) = r.1
state_or t aborted = t
state_or t no_fuel = t

abbrev ended : State setup
ended = state_or start (run_trials setup fuel start)

-- Of three trials one is run, and counted.
run_start : run_trials setup fuel start ≡ done (RunRes.fail, ended)
unfolding run_trials run_pre_hook trials_from run_step trial_seed init_arg_info gen_args_pre_hook
    after_gen_pre gen_all_args gen_args alloc_arg after_gen trial_pre_hook after_trial_pre
    after_trial_run after_post run_post_hook conclude verdict free_args trial_run mark_if
    after_trial after_shrink report_on_failure show_counterexample repeat_loop shrink shrink_from
    first_fail_halt
run_start = refl

run_trials-OneFailure_example : ended.counters.fail ≤ 1
run_trials-OneFailure_example =
    run_trials-OneFailure setup refl fuel start ended RunRes.fail refl run_start
