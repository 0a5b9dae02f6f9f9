-- ===== src/Shrink/Args.antt =====
-- src/theft_shrink.c: the arguments of the trial across the calls that do not assign to them.
use theft.Base.{ℕ, ◌≡◌, refl, arith}
use theft.Base.{List, Option-cases, inl, inr}
use theft.Types.{TrialRes, ShrinkRes, Ensures}
use theft.Theft.{Setup, ArgInfo}
use theft.Bloom.{Bloom, mark}
use theft.Call.{hash_buffer, mark_called}
use theft.Shrink.{
  State, shrink_pre_hook, shrink_post_hook, shrink_trial_post_hook, count_shrink, propose,
  post_state,
}

module _ {I P W : Type 0} (s : Setup I P W) where
  abbrev Args : Type 0
  Args = ℕ → ArgInfo I P

  pub count_shrink-args :
      (arg_i : ℕ) (res : TrialRes) (t : State s)
      → (count_shrink s arg_i res t).trial.args ≡ t.trial.args
  unfolding count_shrink
  count_shrink-args arg_i TrialRes.fail t = refl
  count_shrink-args arg_i _ t = refl

  pub trial_post-args :
      (arg_i : ℕ) (args : List I) (tactic : ℕ) (res : TrialRes) (t : State s)
      → (shrink_trial_post_hook s arg_i args tactic res t).1.trial.args ≡ t.trial.args
  unfolding shrink_trial_post_hook
  trial_post-args arg_i args tactic res t = ground arith

  pub pre-args :
      (arg_i : ℕ) (x : I) (tactic : ℕ) (t : State s)
      → (shrink_pre_hook s arg_i x tactic t).1.trial.args ≡ t.trial.args
  unfolding shrink_pre_hook
  pre-args arg_i x tactic t = ground arith

  pub post-args :
      (arg_i : ℕ) (x : I) (tactic : ℕ) (sres : ShrinkRes) (t : State s)
      → Ensures (λ r. r.1.trial.args ≡ t.trial.args) (shrink_post_hook s arg_i x tactic sres t)
  unfolding shrink_post_hook
  post-args arg_i x tactic sres t = elim (Option-cases (s.hooks.shrink_post)) [
    | inl e ↦ rw (e, shrink_post_hook) refl
    | inr (hook, e) ↦ elim (Option-cases (post_state s sres)) [
      | inl e' ↦ rw (e, e', shrink_post_hook) tt
      | inr (st, e') ↦ rw (e, e', shrink_post_hook) refl
    ]
  ]

  pub propose-args :
      (arg_i tactic : ℕ) (t : State s) → (propose s arg_i tactic t).2.trial.args ≡ t.trial.args
  unfolding propose
  propose-args arg_i tactic t = refl

  pub mark_called-args :
      (b : Bloom) (t : State s) → Ensures (λ t'. t'.trial.args ≡ t.trial.args) (mark_called s b t)
  unfolding mark_called
  mark_called-args b t =
      elim (Option-cases (mark (s.malloc t.world) b (hash_buffer s s.arity 0 t))) [
        | inl e ↦ rw (e, mark_called) tt
        | inr (r, e) ↦ rw (e, mark_called) refl
      ]
