-- ===== src/Trial/Counts.antt =====
-- src/theft_trial.c, `theft_trial_run`: the counters before and after a trial.
use theft.Base.{ℕ, zero, suc, ◌+◌, ◌≡◌, ◌≢◌, refl, ap, ◌∙◌, Bool, true, false, List}
use theft.Base.{Bool-cases, Option-cases, ◌⊎◌, inl, inr}
use mathlib.Core.Path.{subst₂}
use theft.Types.{TrialRes, TrialPostRes, done, Ensures, Ensures-bind, Ensures-done}
use theft.Theft.{Setup, Counters, instances, set_world}
use theft.Bloom.{mark}
use theft.Call.{hash_buffer, mark_called}
use theft.Shrink.{State, shrink}
use theft.Shrink.Frame.{frame, shrink-frame}
use theft.Trial.{
  Fuel, rerun, after_rerun, repeat_loop, wants_repeat, show_counterexample, report_on_failure,
  post_checked, after_shrink, after_trial, mark_if, trial_run, count_fail,
}

-- The counters after a trial with this result; an error is not counted.
abbrev pub bump : TrialRes → Counters → Counters
bump TrialRes.pass c = record c { pass = c.pass + 1 }
bump TrialRes.fail c = record c { fail = c.fail + 1 }
bump TrialRes.skip c = record c { skip = c.skip + 1 }
bump TrialRes.dup c = record c { dup = c.dup + 1 }
bump TrialRes.error c = c

module _ {I P W : Type 0} (s : Setup I P W) where
  after_rerun-counters :
      (args : List I) (res : TrialRes) (t : State s)
      → (after_rerun s args res t).2.counters ≡ t.counters
  unfolding after_rerun
  after_rerun-counters args TrialRes.pass t = refl
  after_rerun-counters args _ t = refl

  rerun-counters : (args : List I) (t : State s) → (rerun s args t).2.counters ≡ t.counters
  unfolding rerun
  rerun-counters args t = after_rerun-counters args _ _

  repeat_loop-counters :
      (c : Counters) (fuel : ℕ) (args : List I) (res : TrialPostRes) (t : State s)
      → t.counters ≡ c
      → Ensures (λ r. r.1.counters ≡ c) (repeat_loop s fuel args res t)
  unfolding repeat_loop
  repeat_loop-counters c zero args res t e = tt
  repeat_loop-counters c (suc fuel) args res t e = elim (Bool-cases (wants_repeat res)) [
    | inr stop ↦ rw (stop, repeat_loop) e
    | inl again ↦ elim (Bool-cases ((rerun s args t).0)) [
      | inl more ↦
          rw (again, more, repeat_loop)
            (repeat_loop-counters c fuel args _ _ (rerun-counters args t ∙ e))
      | inr last ↦ rw (again, last, repeat_loop) (rerun-counters args t ∙ e)
    ]
  ]

  show-counters :
      (args : List I) (t : State s) → (show_counterexample s args t).1.counters ≡ t.counters
  unfolding show_counterexample
  show-counters args t = elim (Option-cases (s.hooks.counterexample)) [
    | inl e ↦ rw (e, show_counterexample) refl
    | inr (hook, e) ↦ rw (e, show_counterexample) refl
  ]

  report-counters :
      (c : Counters) (fuel : ℕ) (t : State s)
      → t.counters ≡ c
      → Ensures (λ r. r.1.counters ≡ c) (report_on_failure s fuel t)
  unfolding report_on_failure
  report-counters c fuel t e =
      let args : List I = instances s.arity 0 t.trial.args in
      elim (Bool-cases ((show_counterexample s args t).0)) [
        | inl go_on ↦
            rw (go_on, report_on_failure)
              (repeat_loop-counters c fuel args _ _ (show-counters args t ∙ e))
        | inr stop ↦ rw (stop, report_on_failure) (show-counters args t ∙ e)
      ]

  -- What `theft_trial_run` did to the counters, where the call gave `res`: on true they are those
  -- of before with `res` counted, and on false too, or they are unchanged.
  abbrev pub Counted : Counters → TrialRes → Bool × TrialPostRes × State s → Type 0
  Counted c res (true, pres, t) =
      (t.counters ≡ bump res c) × (res ≢ TrialRes.error) × (res ≢ TrialRes.dup)
  Counted c res (false, pres, t) = (t.counters ≡ bump res c) ⊎ (t.counters ≡ c)

  post_checked-Counted :
      (c : Counters) (res : TrialRes) (p : TrialPostRes × State s)
      → res ≢ TrialRes.error
      → res ≢ TrialRes.dup
      → p.1.counters ≡ bump res c
      → Ensures (Counted c res) (post_checked s p)
  post_checked-Counted c res (TrialPostRes.error, t) n m e = inl e
  post_checked-Counted c res (TrialPostRes.continue, t) n m e = (e, n, m)
  post_checked-Counted c res (TrialPostRes.repeat, t) n m e = (e, n, m)
  post_checked-Counted c res (TrialPostRes.repeat_once, t) n m e = (e, n, m)

  after_shrink-Counted :
      (c : Counters) (fuel : Fuel) (r : Bool × State s)
      → r.1.counters ≡ c
      → Ensures (Counted c TrialRes.fail) (after_shrink s fuel r)
  unfolding after_shrink
  after_shrink-Counted c fuel (false, t) e = inr e
  after_shrink-Counted c fuel (true, t) e =
      Ensures-bind (λ r. r.1.counters ≡ bump TrialRes.fail c) (Counted c TrialRes.fail)
        (report_on_failure s fuel.repeats (count_fail s t)) (post_checked s)
        (report-counters _ fuel.repeats (count_fail s t) (ap (bump TrialRes.fail) e))
        (λ p. post_checked-Counted c TrialRes.fail p (λ x. cc) (λ x. cc))

  after_trial-Counted :
      (fuel : Fuel) (args : List I) (res : TrialRes) (t : State s)
      → Ensures (Counted t.counters res) (after_trial s fuel args res t)
  unfolding after_trial
  after_trial-Counted fuel args TrialRes.pass t =
      post_checked-Counted _ TrialRes.pass _ (λ x. cc) (λ x. cc) refl
  after_trial-Counted fuel args TrialRes.skip t =
      post_checked-Counted _ TrialRes.skip _ (λ x. cc) (λ x. cc) refl
  after_trial-Counted fuel args TrialRes.dup t = inr refl
  after_trial-Counted fuel args TrialRes.error t = inr refl
  after_trial-Counted fuel args TrialRes.fail t =
      Ensures-bind (λ r. frame s r.1 ≡ frame s t) (Counted t.counters TrialRes.fail)
        (shrink s fuel.calls fuel.rounds t) (after_shrink s fuel)
        (shrink-frame s fuel.calls fuel.rounds t)
        (λ r e. after_shrink-Counted t.counters fuel r (ap (λ f. f.0) e))

  -- Marking in the bloom filter touches nothing else.
  abbrev SameButBloom : State s → State s → Type 0
  SameButBloom t t' = (t'.counters ≡ t.counters) × (t'.trial ≡ t.trial) × (t'.world ≡ t.world)

  mark_if-same : (t : State s) → Ensures (SameButBloom t) (mark_if s t)
  unfolding mark_if mark_called
  mark_if-same t = elim (Option-cases (t.bloom)) [
    | inl off ↦ rw (off, mark_if) (refl, refl, refl)
    | inr (b, on) ↦ elim (Option-cases (mark (s.malloc t.world) b (hash_buffer s s.arity 0 t))) [
      | inl e ↦ rw (on, e, mark_if, mark_called) tt
      | inr (r, e) ↦ rw (on, e, mark_if, mark_called) (refl, refl, refl)
    ]
  ]

  -- The result of the call that a trial makes first.
  abbrev pub result_of : State s → TrialRes
  result_of t = (s.call (instances s.arity 0 t.trial.args) t.world).0

  pub trial_run-Counted :
      (fuel : Fuel) (t : State s) → Ensures (Counted t.counters (result_of t)) (trial_run s fuel t)
  unfolding trial_run
  trial_run-Counted fuel t =
      Ensures-bind (SameButBloom t) (Counted t.counters (result_of t)) (mark_if s t) _
        (mark_if-same t)
        (λ t' e.
          subst₂
            (λ c res. Ensures (Counted c res) (
              after_trial s fuel (instances s.arity 0 t'.trial.args) (result_of t')
                (set_world (s.call (instances s.arity 0 t'.trial.args) t'.world).1 t')))
            e.0 (λ i. (s.call (instances s.arity 0 (e.1 i).args) (e.2 i)).0)
            (after_trial-Counted fuel _ (result_of t') _))

  -- Where theft_trial_run returns true, the property was called on the generated arguments, and
  -- the trial is counted once, under the result of that call, which is PASS, FAIL or SKIP;
  -- shrinking and repeated calls count no further.
  pub trial_run_counts :
      (fuel : Fuel) (t t' : State s) (pres : TrialPostRes)
      → trial_run s fuel t ≡ done (true, pres, t')
      → (t'.counters ≡ bump (result_of t) t.counters)
        × (result_of t ≢ TrialRes.error)
        × (result_of t ≢ TrialRes.dup)
  trial_run_counts fuel t t' pres e =
      Ensures-done (Counted t.counters (result_of t)) (trial_run s fuel t) (true, pres, t')
        (trial_run-Counted fuel t) e
