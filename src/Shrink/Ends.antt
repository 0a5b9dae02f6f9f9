-- ===== src/Shrink/Ends.antt =====
-- src/theft_shrink.c, `attempt_to_shrink_arg`: that it ends, for candidates that are smaller.
use theft.Base.{ℕ, zero, suc, ◌+◌, ◌<◌, ◌≡◌, refl, ap, ◌∙◌, Bool, true, false}
use theft.Base.{Option, none, some, Bool-cases, Option-cases, inl, inr}
use mathlib.Core.Path.{subst}
use theft.Types.{
  TrialRes, ShrinkRes, ShrinkArgRes, ShrinkPreRes, ShrinkPostRes, Outcome, done, Returns,
  Returns-bind,
}
use theft.Theft.{Setup, ArgInfo, arg, set_arg, update, instances}
use theft.Bloom.{Bloom, mark}
use theft.Call.{hash_buffer, check_called, mark_called}
use theft.Shrink.{
  Round, next_tactic, returns, State, shrink_post_hook, shrink_trial_post_hook, answer, call_round,
  call_loop, settle, judge, try_candidate, try_new_candidate, propose, take_candidate, after_post,
  after_pre, shown, shrink_step, try_tactic, tactics_from, attempt_to_shrink_arg, post_state,
}
use theft.Shrink.Args.{pre-args, propose-args, trial_post-args, count_shrink-args}
use theft.Theft.Update.{update_back}

module _ {I P W : Type 0} (s : Setup I P W) (size : I → ℕ)
    (quiet : s.hooks.shrink_trial_post ≡ none)
    (smaller : (arg_i tactic : ℕ) (t : State s)
      → (propose s arg_i tactic t).0 ≡ ShrinkRes.ok
      → size (propose s arg_i tactic t).1.instance_of < size (arg arg_i t).instance_of) where
  -- How an attempt leaves the arguments: with a smaller one in place of the one that was tried,
  -- or as they were, or in any state after an error.
  abbrev pub LowerArg : (ℕ → ArgInfo I P) → ℕ → ShrinkArgRes × State s → Type 0
  LowerArg args arg_i (ShrinkArgRes.ok, t) =
      (a : ArgInfo I P) × (t.trial.args ≡ update args arg_i a)
      × (size a.instance_of < size (args arg_i).instance_of)
  LowerArg args arg_i (ShrinkArgRes.dead_end, t) = t.trial.args ≡ args
  LowerArg args arg_i (ShrinkArgRes.halt, t) = t.trial.args ≡ args
  LowerArg args arg_i (ShrinkArgRes.error, t) = Unit

  abbrev Lower : (ℕ → ArgInfo I P) → ℕ → Round × State s → Type 0
  Lower args arg_i (next_tactic, t) = t.trial.args ≡ args
  Lower args arg_i (returns res, t) = LowerArg args arg_i (res, t)

  round_args :
      (repeated : Bool) (arg_i tactic : ℕ) (t : State s)
      → (call_round s repeated arg_i tactic t).1.trial.args ≡ t.trial.args
  unfolding call_round
  round_args true arg_i tactic t = trial_post-args s _ _ _ _ _
  round_args false arg_i tactic t = trial_post-args s _ _ _ _ _ ∙ count_shrink-args s _ _ _

  decided :
      (arg_i tactic : ℕ) (t : State s)
      → (call_round s false arg_i tactic t).0
        ≡ some (some (s.call (instances s.arity 0 t.trial.args) t.world).0)
  unfolding call_round shrink_trial_post_hook answer
  decided arg_i tactic t = rw quiet refl

  call_loop-Returns :
      (fuel arg_i tactic : ℕ) (t : State s)
      → Returns (λ r. r.1.trial.args ≡ t.trial.args) (call_loop s (suc fuel) false arg_i tactic t)
  unfolding call_loop
  call_loop-Returns fuel arg_i tactic t =
      rw (decided arg_i tactic t, call_loop) (round_args false arg_i tactic t)

  settle-Lower :
      (args : ℕ → ArgInfo I P) (arg_i : ℕ) (a : ArgInfo I P) (res : TrialRes) (t : State s)
      → t.trial.args ≡ update args arg_i a
      → size a.instance_of < size (args arg_i).instance_of
      → Lower args arg_i (settle s arg_i (args arg_i) a res t)
  unfolding settle
  settle-Lower args arg_i a TrialRes.pass t e lt =
      ap (λ x. update x arg_i (args arg_i)) e ∙ update_back args arg_i a
  settle-Lower args arg_i a TrialRes.skip t e lt =
      ap (λ x. update x arg_i (args arg_i)) e ∙ update_back args arg_i a
  settle-Lower args arg_i a TrialRes.fail t e lt = (a, e, lt)
  settle-Lower args arg_i a TrialRes.dup t e lt = tt
  settle-Lower args arg_i a TrialRes.error t e lt = tt

  judge-Lower :
      (args : ℕ → ArgInfo I P) (arg_i : ℕ) (a : ArgInfo I P) (r : Option TrialRes × State s)
      → r.1.trial.args ≡ update args arg_i a
      → size a.instance_of < size (args arg_i).instance_of
      → Lower args arg_i (judge s arg_i (args arg_i) a r.0 r.1)
  unfolding judge
  judge-Lower args arg_i a (none, t) e lt = tt
  judge-Lower args arg_i a (some res, t) e lt = settle-Lower args arg_i a res _ e lt

  module _ (args : ℕ → ArgInfo I P) (fuel arg_i tactic : ℕ) (a : ArgInfo I P) where
    try_candidate-Returns :
        (t : State s)
        → t.trial.args ≡ update args arg_i a
        → size a.instance_of < size (args arg_i).instance_of
        → Returns (Lower args arg_i) (try_candidate s (suc fuel) arg_i tactic (args arg_i) a t)
    unfolding try_candidate
    try_candidate-Returns t e lt =
        Returns-bind (λ r. r.1.trial.args ≡ t.trial.args) (Lower args arg_i)
          (call_loop s (suc fuel) false arg_i tactic t) _ (call_loop-Returns fuel arg_i tactic t)
          (λ r e'. judge-Lower args arg_i a r (e' ∙ e) lt)

    mark_called-Returns :
        (b : Bloom) (t : State s) → Returns (λ t'. t'.trial.args ≡ t.trial.args) (mark_called s b t)
    unfolding mark_called
    mark_called-Returns b t =
        elim (Option-cases (mark (s.malloc t.world) b (hash_buffer s s.arity 0 t))) [
          | inl e ↦ rw (e, mark_called) tt
          | inr (r, e) ↦ rw (e, mark_called) refl
        ]

    try_new_candidate-Returns :
        (t : State s)
        → t.trial.args ≡ update args arg_i a
        → size a.instance_of < size (args arg_i).instance_of
        → Returns (Lower args arg_i) (try_new_candidate s (suc fuel) arg_i tactic (args arg_i) a t)
    unfolding try_new_candidate
    try_new_candidate-Returns t e lt = elim (Option-cases (t.bloom)) [
      | inl off ↦ rw (off, try_new_candidate) (try_candidate-Returns t e lt)
      | inr (b, on) ↦ elim (Bool-cases (check_called s b t)) [
        | inl known ↦
            rw (on, known, try_new_candidate)
              (ap (λ x. update x arg_i (args arg_i)) e ∙ update_back args arg_i a)
        | inr new ↦
            rw (on, new, try_new_candidate)
              (Returns-bind (λ t'. t'.trial.args ≡ t.trial.args) (Lower args arg_i)
                (mark_called s b t) _ (mark_called-Returns b t)
                (λ t' e'. try_candidate-Returns t' (e' ∙ e) lt))
      ]
    ]

    take_candidate-Returns :
        (sres : ShrinkRes) (t : State s)
        → t.trial.args ≡ args
        → (sres ≡ ShrinkRes.ok → size a.instance_of < size (args arg_i).instance_of)
        → Returns
            (Lower args arg_i)
            (take_candidate s (suc fuel) arg_i tactic (args arg_i) a sres t)
    unfolding take_candidate
    take_candidate-Returns ShrinkRes.ok t e lt =
        try_new_candidate-Returns (set_arg arg_i a t) (ap (λ x. update x arg_i a) e) (lt refl)
    take_candidate-Returns ShrinkRes.dead_end t e lt = e
    take_candidate-Returns ShrinkRes.no_more_tactics t e lt = e
    take_candidate-Returns ShrinkRes.error t e lt = tt

    after_post-Returns :
        (sres : ShrinkRes) (post : ShrinkPostRes) (t : State s)
        → t.trial.args ≡ args
        → (sres ≡ ShrinkRes.ok → size a.instance_of < size (args arg_i).instance_of)
        → Returns
            (Lower args arg_i)
            (after_post s (suc fuel) arg_i tactic (args arg_i) a sres post t)
    unfolding after_post
    after_post-Returns sres ShrinkPostRes.continue t e lt = take_candidate-Returns sres t e lt
    after_post-Returns sres ShrinkPostRes.error t e lt = tt

  post-Returns :
      (arg_i : ℕ) (x : I) (tactic : ℕ) (sres : ShrinkRes) (t : State s)
      → Returns (λ r. r.1.trial.args ≡ t.trial.args) (shrink_post_hook s arg_i x tactic sres t)
  unfolding shrink_post_hook
  post-Returns arg_i x tactic sres t = elim (Option-cases (s.hooks.shrink_post)) [
    | inl e ↦ rw (e, shrink_post_hook) refl
    | inr (hook, e) ↦ elim (Option-cases (post_state s sres)) [
      | inl e' ↦ rw (e, e', shrink_post_hook) tt
      | inr (st, e') ↦ rw (e, e', shrink_post_hook) refl
    ]
  ]

  shrink_step-Returns :
      (fuel arg_i tactic : ℕ) (t : State s)
      → Returns (Lower t.trial.args arg_i) (shrink_step s (suc fuel) arg_i tactic t)
  unfolding shrink_step
  shrink_step-Returns fuel arg_i tactic t =
      let p : ShrinkRes × ArgInfo I P × State s = propose s arg_i tactic t in
      let x : I = shown s p.0 (p.1).instance_of (arg arg_i t).instance_of in
      Returns-bind (λ r. r.1.trial.args ≡ p.2.trial.args) (Lower t.trial.args arg_i)
        (shrink_post_hook s arg_i x tactic p.0 p.2) _ (post-Returns arg_i x tactic p.0 p.2)
        (λ r e.
          after_post-Returns t.trial.args fuel arg_i tactic p.1 p.0 r.0 r.1
            (e ∙ propose-args s arg_i tactic t) (smaller arg_i tactic t))

  after_pre-Returns :
      (args : ℕ → ArgInfo I P) (fuel arg_i tactic : ℕ) (pre : ShrinkPreRes) (t : State s)
      → t.trial.args ≡ args
      → Returns (Lower args arg_i) (after_pre s (suc fuel) arg_i tactic pre t)
  unfolding after_pre
  after_pre-Returns args fuel arg_i tactic ShrinkPreRes.halt t e = e
  after_pre-Returns args fuel arg_i tactic ShrinkPreRes.error t e = tt
  after_pre-Returns args fuel arg_i tactic ShrinkPreRes.continue t e =
      subst (λ x. Returns (Lower x arg_i) (shrink_step s (suc fuel) arg_i tactic t)) e
        (shrink_step-Returns fuel arg_i tactic t)

  next_round :
      (args : ℕ → ArgInfo I P) (arg_i : ℕ) (later : State s → Outcome (ShrinkArgRes × State s))
      (r : Round × State s)
      → ((t : State s) → Returns (LowerArg t.trial.args arg_i) (later t))
      → Lower args arg_i r
      → Returns
          (LowerArg args arg_i)
          (elim (r.0) [ next_tactic ↦ later r.1 | returns res ↦ done (res, r.1) ])
  next_round args arg_i later (next_tactic, t) ih e =
      subst (λ x. Returns (LowerArg x arg_i) (later t)) e (ih t)
  next_round args arg_i later (returns res, t) ih e = e

  tactics_from-Returns :
      (fuel left tactic arg_i : ℕ) (t : State s)
      → Returns (LowerArg t.trial.args arg_i) (tactics_from s (suc fuel) left tactic arg_i t)
  unfolding tactics_from try_tactic
  tactics_from-Returns fuel zero tactic arg_i t = refl
  tactics_from-Returns fuel (suc left) tactic arg_i t =
      Returns-bind (Lower t.trial.args arg_i) (LowerArg t.trial.args arg_i)
        (try_tactic s (suc fuel) arg_i tactic t) _
        (after_pre-Returns t.trial.args fuel arg_i tactic _ _ (pre-args s arg_i _ tactic t))
        (λ r.
          next_round t.trial.args arg_i (tactics_from s (suc fuel) left (tactic + 1) arg_i) r
            (tactics_from-Returns fuel left (tactic + 1) arg_i))

  -- The attempt at one argument ends.
  pub attempt-Returns :
      (fuel arg_i : ℕ) (t : State s)
      → Returns (LowerArg t.trial.args arg_i) (attempt_to_shrink_arg s (suc fuel) arg_i t)
  unfolding attempt_to_shrink_arg
  attempt-Returns fuel arg_i t = tactics_from-Returns fuel _ 0 arg_i t
