-- ===== src/Run/Tests.antt =====
-- A small property of one number, run by the runner: it fails from 5 on, and its numbers are
-- shrunk by one.
use theft.Base.{ℕ, ◌+◌, ◌-◌, ◌*◌, ◌≤◌, ◌≡◌, ◌≢◌, refl, Bool, true, false, none, some, List, [], ◌∷◌}
use theft.Base.{ltb, ◌==◌, if◌then◌else◌}
use theft.Types.{
  TrialRes, AllocRes, ShrinkRes, ShrinkArgRes, TrialPostRes, RunRes, Outcome, done, aborted,
  no_fuel,
}
use theft.Theft.{Setup, TypeInfo, Autoshrink, Hooks}
use theft.Shrink.{
  State, shrink, shrink_from, attempt_to_shrink_arg, tactics_from, try_tactic, after_pre,
  shrink_pre_hook, shrink_step, shrink_post_hook, after_post, take_candidate, propose,
  try_new_candidate, try_candidate, call_loop, call_round, answer, shrink_trial_post_hook, judge,
  settle, count_shrink,
}
use theft.Shrink.Settled.{SettledArg}
use theft.Shrink.Termination.{shrink-ends}
use theft.Theft.{arg}
use theft.Base.{◌<◌, ◌&&◌, arith}
use theft.Shrink.Failing.{Fails, attempt_to_shrink_arg_lem, shrink-Fails}
use theft.Trial.{
  Fuel, free_args, trial_run, mark_if, after_trial, after_shrink, report_on_failure,
  show_counterexample, repeat_loop,
}
use theft.Trial.Counts.{bump, result_of, trial_run_counts}
use theft.Run
use theft.Run.{
  run_trials, run_pre_hook, trials_from, run_step, trial_seed, init_arg_info, gen_args_pre_hook,
  after_gen_pre, gen_all_args, gen_args, alloc_arg, after_gen, trial_pre_hook, after_trial_pre,
  after_trial_run, run_post_hook, conclude, verdict,
}
use theft.Run.Counts.{total, CanFail}
use theft.Run.Totals.{total-run_trials_le, total-run_trials, run_trials-CanFail}

abbrev is_small : List ℕ → TrialRes
is_small [] = TrialRes.skip
is_small (n ∷ more) = if ltb n 5 then TrialRes.pass else TrialRes.fail

abbrev shrink_by_one : ℕ → ℕ → ℕ → ShrinkRes × ℕ × ℕ
shrink_by_one x tactic w =
    (if tactic == 0 && ltb 0 x then ShrinkRes.ok else ShrinkRes.no_more_tactics, x - 1, w)

abbrev number_info : TypeInfo ℕ Unit ℕ
number_info = record {
  alloc = λ w. (AllocRes.ok, w, w);
  free = none;
  hash = none;
  shrink = some shrink_by_one;
  autoshrink = false;
}

abbrev no_autoshrink : Autoshrink ℕ Unit ℕ
no_autoshrink = record {
  alloc_env = λ i w. (true, w);
  free_env = λ i p w. w;
  alloc = λ i w. (AllocRes.error, 0, none, w);
  hash = λ i x p w. 0;
  shrink = λ i p tactic w. (ShrinkRes.error, 0, none, w);
  free_bit_pool = λ p w. w;
  update_model = λ i res adjustment w. w;
}

abbrev quiet : Hooks ℕ ℕ
quiet = record {
  run_pre = none;
  run_post = none;
  gen_args_pre = none;
  trial_pre = none;
  trial_post = λ info w. (TrialPostRes.continue, w);
  counterexample = none;
  shrink_pre = none;
  shrink_post = none;
  shrink_trial_post = none;
}

abbrev setup : Setup ℕ Unit ℕ
setup = record {
  null = 0;
  is_null = λ x. false;
  arity = 1;
  type_info = λ i. number_info;
  trial_count = 3;
  run_seed = 1;
  always_seeds = 4 ∷ 8 ∷ [];
  hooks = quiet;
  call = λ xs w. (is_small xs, w);
  autoshrink = no_autoshrink;
  set_seed = λ seed w. seed;
  random = λ w. (w * 3, w);
  malloc = λ w size. true;
}

abbrev at_seven : State setup
at_seven = record {
  bloom = none;
  counters = record { pass = 0; fail = 0; skip = 0; dup = 0 };
  trial = record {
    trial = 0;
    seed = 1;
    shrink_count = 0;
    successful_shrinks = 0;
    failed_shrinks = 0;
    args = λ i. record { instance_of = 7; bit_pool = none };
  };
  world = 0;
}

abbrev fuel : Fuel
fuel = record { calls = 2; rounds = 9; repeats = 2 }

abbrev state_or : {R : Type 0} → State setup → Outcome (R × State setup) → State setup
state_or t (done r) = r.1
state_or t aborted = t
state_or t no_fuel = t

abbrev after_attempt_at_seven : State setup
after_attempt_at_seven = state_or at_seven (attempt_to_shrink_arg setup 2 0 at_seven)

attempt_at_seven :
    attempt_to_shrink_arg setup 2 0 at_seven ≡ done (ShrinkArgRes.ok, after_attempt_at_seven)
unfolding attempt_to_shrink_arg tactics_from try_tactic after_pre shrink_pre_hook shrink_step
    shrink_post_hook after_post take_candidate propose try_new_candidate try_candidate call_loop
    call_round answer shrink_trial_post_hook judge settle count_shrink
attempt_at_seven = refl

attempt_to_shrink_arg_lem_example :
    SettledArg setup is_small
      (λ xs w. refl)
      at_seven.trial.args
      0
      (ShrinkArgRes.ok, after_attempt_at_seven)
attempt_to_shrink_arg_lem_example =
    attempt_to_shrink_arg_lem setup is_small (λ xs w. refl) 2 0 at_seven ShrinkArgRes.ok
      after_attempt_at_seven attempt_at_seven

abbrev after_shrink_at_seven : State setup
after_shrink_at_seven = state_or at_seven (shrink setup 2 9 at_seven)

shrink_at_seven : shrink setup 2 9 at_seven ≡ done (true, after_shrink_at_seven)
unfolding shrink shrink_from attempt_to_shrink_arg tactics_from try_tactic after_pre shrink_pre_hook
    shrink_step shrink_post_hook after_post take_candidate propose try_new_candidate try_candidate
    call_loop call_round answer shrink_trial_post_hook judge settle count_shrink
shrink_at_seven = refl

-- Seven is shrunk to five, in two successful attempts and two failed ones.
shrunk_to_five : (after_shrink_at_seven.trial.args 0).instance_of ≡ 5
unfolding shrink shrink_from attempt_to_shrink_arg tactics_from try_tactic after_pre shrink_pre_hook
    shrink_step shrink_post_hook after_post take_candidate propose try_new_candidate try_candidate
    call_loop call_round answer shrink_trial_post_hook judge settle count_shrink
shrunk_to_five = refl

shrink-Fails_example : Fails setup is_small (λ xs w. refl) after_shrink_at_seven.trial.args
shrink-Fails_example =
    shrink-Fails setup is_small (λ xs w. refl) 2 9 at_seven after_shrink_at_seven refl
      shrink_at_seven

proposes_smaller :
    (arg_i tactic : ℕ) (t : State setup)
    → (propose setup arg_i tactic t).0 ≡ ShrinkRes.ok
    → (propose setup arg_i tactic t).1.instance_of < (arg arg_i t).instance_of
unfolding propose
proposes_smaller arg_i tactic t e = ground arith

shrink-ends_example : shrink setup 2 30 at_seven ≢ no_fuel
shrink-ends_example =
    shrink-ends setup (λ x. x) refl proposes_smaller 2 30 at_seven (omega arith) (omega arith)

abbrev post_state_or : State setup → Outcome (Bool × TrialPostRes × State setup) → State setup
post_state_or t (done r) = r.2
post_state_or t aborted = t
post_state_or t no_fuel = t

abbrev after_trial_at_seven : State setup
after_trial_at_seven = post_state_or at_seven (trial_run setup fuel at_seven)

trial_at_seven :
    trial_run setup fuel at_seven ≡ done (true, TrialPostRes.continue, after_trial_at_seven)
unfolding trial_run mark_if after_trial after_shrink report_on_failure show_counterexample
    repeat_loop shrink shrink_from attempt_to_shrink_arg tactics_from try_tactic after_pre
    shrink_pre_hook shrink_step shrink_post_hook after_post take_candidate propose try_new_candidate
    try_candidate call_loop call_round answer shrink_trial_post_hook judge settle count_shrink
trial_at_seven = refl

trial_run_counts_example :
    (after_trial_at_seven.counters ≡ bump (result_of setup at_seven) at_seven.counters)
    × (result_of setup at_seven ≢ TrialRes.error)
    × (result_of setup at_seven ≢ TrialRes.dup)
trial_run_counts_example =
    trial_run_counts setup fuel at_seven after_trial_at_seven TrialPostRes.continue trial_at_seven

abbrev after_run : State setup
after_run = state_or at_seven (run_trials setup fuel at_seven)

run_at_seven : run_trials setup fuel at_seven ≡ done (RunRes.fail, after_run)
unfolding run_trials run_pre_hook trials_from run_step trial_seed init_arg_info gen_args_pre_hook
    after_gen_pre gen_all_args gen_args alloc_arg after_gen trial_pre_hook after_trial_pre
    after_trial_run Run.after_post run_post_hook conclude verdict free_args trial_run mark_if
    after_trial after_shrink report_on_failure show_counterexample repeat_loop shrink shrink_from
    attempt_to_shrink_arg tactics_from try_tactic after_pre shrink_pre_hook shrink_step
    shrink_post_hook after_post take_candidate propose try_new_candidate try_candidate call_loop
    call_round answer shrink_trial_post_hook judge settle count_shrink
run_at_seven = refl

total-run_trials_le_example : total after_run.counters ≤ total at_seven.counters + setup.trial_count
total-run_trials_le_example =
    total-run_trials_le setup fuel at_seven after_run RunRes.fail run_at_seven

total-run_trials_example : total after_run.counters ≡ total at_seven.counters + setup.trial_count
total-run_trials_example =
    total-run_trials setup fuel at_seven after_run RunRes.fail (refl, refl) (λ e. cc) run_at_seven

run_trials-CanFail_example : CanFail setup
run_trials-CanFail_example = run_trials-CanFail setup fuel at_seven after_run refl run_at_seven
