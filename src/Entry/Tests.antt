-- ===== src/Entry/Tests.antt =====
-- src/theft.c: a property of one number that fails from 5 on.
use theft.Base.{ℕ, zero, suc, ◌+◌, ◌*◌, ◌≡◌, refl, true, false, Option, none, some, List, [], ◌∷◌}
use theft.Base.{ltb, if◌then◌else◌}
use theft.Types.{TrialRes, AllocRes, ShrinkRes, TrialPostRes, RunRes, Outcome, done}
use theft.Theft.{Autoshrink, Hooks}
use theft.Init.{TypeConfig, RunConfig, accept, infer_arity, infer_from, check_args, run_init}
use theft.Worker.{System, ForkRes, PollRes, ReadRes, WaitRes, call_inner}
use theft.Trial.{
  Fuel, trial_run, free_args, mark_if, after_trial, after_shrink, report_on_failure,
  show_counterexample, repeat_loop,
}
use theft.Shrink.{shrink, shrink_from}
use theft.Run.{
  run_trials, run_pre_hook, trials_from, run_step, trial_seed, init_arg_info, gen_args_pre_hook,
  after_gen_pre, gen_all_args, gen_args, alloc_arg, after_gen, trial_pre_hook, after_trial_pre,
  after_trial_run, after_post, run_post_hook, conclude, verdict,
}
use theft.Entry.{Surroundings, InitMemory, GenerateRes, run, after_init, generate}
use theft.Entry.Failing.{FailsOnce, run-FailsOnce}

abbrev no_system : System ℕ
no_system = record {
  pipe = λ w. (none, w);
  fork = λ w. (ForkRes.failed, w);
  poll = λ fd timeout w. (PollRes.failed, w);
  read = λ fd w. (ReadRes.failed, w);
  write = λ fd res w. (false, w);
  close = λ fd w. w;
  kill = λ pid signal w. (false, w);
  waitpid = λ w. (WaitRes.no_children, w);
  nanosleep = λ ns w. (false, w);
}

abbrev no_autoshrink : Autoshrink ℕ Unit ℕ
no_autoshrink = record {
  alloc_env = λ i w. (false, w);
  free_env = λ i p w. w;
  alloc = λ i w. (AllocRes.error, 0, none, w);
  hash = λ i x p w. 0;
  shrink = λ i p tactic w. (ShrinkRes.error, 0, none, w);
  free_bit_pool = λ p w. w;
  update_model = λ i res adjustment w. w;
}

abbrev quiet : Hooks ℕ ℕ
quiet = record {
  run_pre = none;
  run_post = none;
  gen_args_pre = none;
  trial_pre = none;
  trial_post = λ info w. (TrialPostRes.continue, w);
  counterexample = none;
  shrink_pre = none;
  shrink_post = none;
  shrink_trial_post = none;
}

abbrev small : List ℕ → TrialRes
small [] = TrialRes.error
small (x ∷ xs) = if ltb x 5 then TrialRes.pass else TrialRes.fail

abbrev world : Surroundings (List ℕ → TrialRes) ℕ Unit ℕ
world = record {
  null = 0;
  is_null = λ x. false;
  hooks = quiet;
  autoshrink = no_autoshrink;
  set_seed = λ seed w. seed;
  random = λ w. (w * 3, w);
  malloc = λ w size. true;
  os = no_system;
  apply = λ f args w. (f args, w);
}

-- An instance is the seed.
abbrev number : TypeConfig ℕ ℕ
number = record {
  alloc = some (λ w. (AllocRes.ok, w, w));
  free = some (λ x w. w + 1);
  hash = none;
  shrink = none;
  autoshrink = false;
}

abbrev by_arity : ℕ → Option (List ℕ → TrialRes)
by_arity (suc zero) = some small
by_arity _ = none

abbrev config : RunConfig (List ℕ → TrialRes) ℕ ℕ
config = record {
  props = by_arity;
  type_info = some number ∷ none ∷ [];
  trials = 2;
  seed = 7;
  always_seeds = none;
}

abbrev granted : InitMemory
granted = record { runner = true; rng = true; default_hook = false; hook = false }

abbrev fuel : Fuel
fuel = record { calls = 2; rounds = 9; repeats = 2 }

abbrev world_or : Outcome (RunRes × ℕ) → ℕ
world_or (done r) = r.1
world_or _ = 0

abbrev last : ℕ
last = world_or (run world fuel granted (some config) 0)

fails_at_seven : run world fuel granted (some config) 0 ≡ done (RunRes.fail, last)
unfolding run after_init run_init accept infer_arity infer_from check_args call_inner run_trials
    run_pre_hook trials_from run_step trial_seed init_arg_info gen_args_pre_hook after_gen_pre
    gen_all_args gen_args alloc_arg after_gen trial_pre_hook after_trial_pre after_trial_run
    after_post run_post_hook conclude verdict free_args trial_run mark_if after_trial after_shrink
    report_on_failure show_counterexample repeat_loop shrink shrink_from
fails_at_seven = refl

no_config : run world fuel granted none 0 ≡ done (RunRes.error_bad_args, 0)
unfolding run
no_config = refl

-- The instance is freed once it is shown.
generates :
    generate world granted small 7 (some number) (some (λ x w. w + x)) 0 ≡ (GenerateRes.ok, 15)
unfolding generate run_init accept infer_arity infer_from check_args
generates = refl

nothing_to_generate : generate world granted small 7 none none 0 ≡ (GenerateRes.error_bad_args, 0)
unfolding generate run_init accept infer_arity infer_from check_args
nothing_to_generate = refl

run-FailsOnce_example : FailsOnce world config
run-FailsOnce_example = run-FailsOnce world config fuel granted 0 last fails_at_seven
