-- ===== src/Trial.antt =====
-- src/theft_trial.c: one trial on arguments that were generated.
pub mod Counts
use theft.Base.{ℕ, zero, suc, ◌+◌, Bool, true, false, not, ◌&&◌, Option, none, some, List, [], ◌∷◌}
use theft.Base.{replicate, if◌then◌else◌}
use theft.Types.{TrialRes, TrialPostRes, CounterexampleRes, Outcome, done, aborted, no_fuel, ◌>>=◌}
use theft.Theft.{
  Setup, Theft, TrialPostInfo, CounterexampleInfo, ArgInfo, arg, set_world, instances,
  free_instance,
}
use theft.Call.{mark_called}
use theft.Shrink.{State, shrink}

-- The fuels: of a call loop, of the rounds of shrinking, and of the repeat loop.
pub record Fuel : Type 0 where
  pub calls : ℕ
  pub rounds : ℕ
  pub repeats : ℕ

abbrev pub is_repeat_once : TrialPostRes → Bool
is_repeat_once TrialPostRes.repeat_once = true
is_repeat_once _ = false

abbrev pub wants_repeat : TrialPostRes → Bool
wants_repeat TrialPostRes.repeat = true
wants_repeat TrialPostRes.repeat_once = true
wants_repeat _ = false

abbrev pub is_post_error : TrialPostRes → Bool
is_post_error TrialPostRes.error = true
is_post_error _ = false

module _ {I P W : Type 0} (s : Setup I P W) where
  -- `hook_info` of `theft_trial_run`, whose `failures` is not set.
  abbrev pub post_info : State s → List I → TrialRes → Bool → TrialPostInfo I
  post_info t args res repeated = record {
    trial_id = t.trial.trial;
    trial_seed = t.trial.seed;
    failures = 0;
    args = args;
    result = res;
    repeated = repeated;
  }

  abbrev pub run_trial_post : State s → List I → TrialRes → Bool → TrialPostRes × State s
  run_trial_post t args res repeated =
      let r = s.hooks.trial_post (post_info t args res repeated) t.world in (r.0, set_world r.1 t)

  abbrev pub call_args : List I → State s → TrialRes × State s
  call_args args t = let r = s.call args t.world in (r.0, set_world r.1 t)

  -- After a call that the hook asked for: whether the loop goes on, and the answer to return or
  -- to go on with. On PASS a warning is printed.
  unfoldable pub after_rerun : List I → TrialRes → State s → Bool × TrialPostRes × State s
  after_rerun args TrialRes.fail t =
      let p = run_trial_post t args TrialRes.fail true in (not (is_repeat_once p.0), p.0, p.1)
  after_rerun args TrialRes.pass t = (false, TrialPostRes.error, t)
  after_rerun args TrialRes.error t = (false, TrialPostRes.error, t)
  after_rerun args TrialRes.skip t = (false, TrialPostRes.continue, t)
  after_rerun args TrialRes.dup t = (false, TrialPostRes.continue, t)

  unfoldable pub rerun : List I → State s → Bool × TrialPostRes × State s
  rerun args t = let r = call_args args t in after_rerun args r.0 r.1

  -- The `while` loop of `report_on_failure`, at the hook's last answer.
  unfoldable pub repeat_loop :
      ℕ → List I → TrialPostRes → State s → Outcome (TrialPostRes × State s)
  repeat_loop zero args res t = no_fuel
  repeat_loop (suc fuel) args res t = elim (wants_repeat res) [
    | false ↦ done (res, t)
    | true ↦
        let r = rerun args t in
        elim (r.0) [ true ↦ repeat_loop fuel args r.1 r.2 | false ↦ done (r.1, r.2) ]
  ]

  -- The counterexample hook, and whether it said CONTINUE.
  unfoldable pub show_counterexample : List I → State s → Bool × State s
  show_counterexample args t = elim (s.hooks.counterexample) [
    | none ↦ (true, t)
    | some hook ↦
        let info : CounterexampleInfo I = record {
          trial_id = t.trial.trial;
          trial_seed = t.trial.seed;
          args = args;
        } in
        let r = hook info t.world in
        (
          elim (r.0) [ CounterexampleRes.continue ↦ true | CounterexampleRes.error ↦ false ],
          set_world r.1 t,
        )
  ]

  unfoldable pub report_on_failure : ℕ → State s → Outcome (TrialPostRes × State s)
  report_on_failure fuel t =
      let args = instances s.arity 0 t.trial.args in
      let shown = show_counterexample args t in
      elim (shown.0) [
        | false ↦ done (TrialPostRes.error, shown.1)
        | true ↦
            let p = run_trial_post shown.1 args TrialRes.fail false in repeat_loop fuel args p.0 p.1
      ]

  abbrev pub count_pass : State s → State s
  count_pass t = record t { counters = record (t.counters) { pass = t.counters.pass + 1 } }

  abbrev pub count_fail : State s → State s
  count_fail t = record t { counters = record (t.counters) { fail = t.counters.fail + 1 } }

  abbrev pub count_skip : State s → State s
  count_skip t = record t { counters = record (t.counters) { skip = t.counters.skip + 1 } }

  abbrev pub count_dup : State s → State s
  count_dup t = record t { counters = record (t.counters) { dup = t.counters.dup + 1 } }

  -- What `theft_trial_run` returns, what it stores through `tpres`, and the state.
  abbrev pub TrialRun : Type 0
  TrialRun = Outcome (Bool × TrialPostRes × State s)

  -- The end of the function, for the results that break out of the `switch`.
  abbrev pub post_checked : TrialPostRes × State s → TrialRun
  post_checked p = done (not (is_post_error p.0), p.0, p.1)

  -- The branch of a failure, by what `theft_shrink` returned; it may have lost the arguments.
  unfoldable pub after_shrink : Fuel → Bool × State s → TrialRun
  after_shrink fuel (false, t) =
      let p = run_trial_post t (replicate s.arity s.null) TrialRes.error false in
      done (false, p.0, p.1)
  after_shrink fuel (true, t) = report_on_failure fuel.repeats (count_fail t) >>= post_checked

  -- The `switch` on the result of the call.
  unfoldable pub after_trial : Fuel → List I → TrialRes → State s → TrialRun
  after_trial fuel args TrialRes.pass t =
      post_checked (run_trial_post (count_pass t) args TrialRes.pass false)
  after_trial fuel args TrialRes.fail t = shrink s fuel.calls fuel.rounds t >>= after_shrink fuel
  after_trial fuel args TrialRes.skip t =
      post_checked (run_trial_post (count_skip t) args TrialRes.skip false)
  after_trial fuel args TrialRes.dup t =
      let p = run_trial_post t args TrialRes.dup false in done (false, p.0, p.1)
  after_trial fuel args TrialRes.error t =
      let p = run_trial_post t args TrialRes.error false in done (false, p.0, p.1)

  unfoldable pub mark_if : State s → Outcome (State s)
  mark_if t = elim (t.bloom) [ none ↦ done t | some b ↦ mark_called s b t ]

  unfoldable pub trial_run : Fuel → State s → TrialRun
  trial_run fuel t = mark_if t >>= λ t'.
      let args = instances s.arity 0 t'.trial.args in
      let r = call_args args t' in after_trial fuel args r.0 r.1

  -- `theft_trial_free_args`, from index `i` on.
  unfoldable pub free_args : ℕ → ℕ → (ℕ → ArgInfo I P) → W → W
  free_args zero i args w = w
  free_args (suc left) i args w =
      let a = args i in
      let ti = s.type_info i in
      let w₁ = if ti.autoshrink then s.autoshrink.free_env i a.bit_pool w else w in
      let w₂ = if s.is_null a.instance_of then w₁ else free_instance ti a.instance_of w₁ in
      free_args left (i + 1) args w₂
