-- ===== src/Shrink/Settled.antt =====
-- src/theft_shrink.c, `attempt_to_shrink_arg`: the arguments that an attempt leaves in place.
use theft.Base.{ℕ, zero, suc, ◌+◌, ◌≡◌, ◌≢◌, refl, sym, ap, ◌∙◌, Bool, true, false}
use theft.Base.{Option, none, some, List, Bool-cases, Option-cases, inl, inr}
use mathlib.Core.Path.{subst}
use theft.Types.{
  TrialRes, ShrinkRes, ShrinkArgRes, ShrinkPreRes, ShrinkPostRes, ShrinkTrialPostRes, Outcome, done,
  Ensures, Ensures-bind,
}
use theft.Theft.{Setup, ArgInfo, arg, set_arg, update, instances}
use theft.Theft.Update.{update-others, update_back}
use theft.Call.{check_called, mark_called}
use theft.Shrink.{
  Round, next_tactic, returns, State, shrink_post_hook, answer, call_round, call_loop, settle,
  judge, try_candidate, try_new_candidate, propose, take_candidate, after_post, after_pre, shown,
  shrink_step, try_tactic, tactics_from, attempt_to_shrink_arg,
}
use theft.Shrink.Args.{
  count_shrink-args, trial_post-args, pre-args, post-args, propose-args, mark_called-args,
}

module _ {I P W : Type 0} (s : Setup I P W) (property : List I → TrialRes)
    (deterministic : (xs : List I) (w : W) → (s.call xs w).0 ≡ property xs) where
  -- The calls leave the arguments in place, and their result is that of the property.
  abbrev Called : (ℕ → ArgInfo I P) → Option TrialRes × State s → Type 0
  Called args r =
      (r.1.trial.args ≡ args)
      × ((res : TrialRes) → r.0 ≡ some res → property (instances s.arity 0 args) ≡ res)

  answer-eq :
      (stpres : ShrinkTrialPostRes) (repeated : Bool) (res res' : TrialRes)
      → answer s stpres repeated res ≡ some (some res')
      → res ≡ res'
  unfolding answer
  answer-eq ShrinkTrialPostRes.repeat repeated res res' e = cc
  answer-eq ShrinkTrialPostRes.repeat_once true res res' e = cc
  answer-eq ShrinkTrialPostRes.repeat_once false res res' e = cc
  answer-eq ShrinkTrialPostRes.continue repeated res res' e = cc
  answer-eq ShrinkTrialPostRes.error repeated res res' e = cc

  pub call_round-args :
      (repeated : Bool) (arg_i tactic : ℕ) (t : State s)
      → (call_round s repeated arg_i tactic t).1.trial.args ≡ t.trial.args
  unfolding call_round
  call_round-args true arg_i tactic t = trial_post-args s _ _ _ _ _
  call_round-args false arg_i tactic t = trial_post-args s _ _ _ _ _ ∙ count_shrink-args s _ _ _

  call_round-result :
      (repeated : Bool) (arg_i tactic : ℕ) (t : State s) (res : TrialRes)
      → (call_round s repeated arg_i tactic t).0 ≡ some (some res)
      → property (instances s.arity 0 t.trial.args) ≡ res
  unfolding call_round
  call_round-result repeated arg_i tactic t res e =
      sym (deterministic (instances s.arity 0 t.trial.args) t.world) ∙ answer-eq _ repeated _ res e

  call_loop-Called :
      (fuel : ℕ) (repeated : Bool) (arg_i tactic : ℕ) (t : State s)
      → Ensures (Called t.trial.args) (call_loop s fuel repeated arg_i tactic t)
  unfolding call_loop
  call_loop-Called zero repeated arg_i tactic t = tt
  call_loop-Called (suc fuel) repeated arg_i tactic t =
      elim (Option-cases ((call_round s repeated arg_i tactic t).0)) [
        | inl again ↦
            rw (again, call_loop)
              (subst
                (λ args.
                  Ensures (Called args)
                    (call_loop s fuel true arg_i tactic (call_round s repeated arg_i tactic t).1))
                (call_round-args repeated arg_i tactic t)
                (call_loop-Called fuel true arg_i tactic (call_round s repeated arg_i tactic t).1))
        | inr (r, decided) ↦
            rw (decided, call_loop)
              (
                call_round-args repeated arg_i tactic t,
                λ res e. call_round-result repeated arg_i tactic t res (decided ∙ ap some e),
              )
      ]

  abbrev pub Others : (ℕ → ArgInfo I P) → ℕ → State s → Type 0
  Others args arg_i t' = (j : ℕ) → arg_i ≢ j → t'.trial.args j ≡ args j

  -- How an attempt leaves the arguments `args`: committed to a candidate with which the property
  -- fails, or as they were; after an error the other arguments are still those of before.
  abbrev pub SettledArg : (ℕ → ArgInfo I P) → ℕ → ShrinkArgRes × State s → Type 0
  SettledArg args arg_i (ShrinkArgRes.ok, t') =
      (property (instances s.arity 0 t'.trial.args) ≡ TrialRes.fail) × Others args arg_i t'
  SettledArg args arg_i (ShrinkArgRes.dead_end, t') = t'.trial.args ≡ args
  SettledArg args arg_i (ShrinkArgRes.halt, t') = t'.trial.args ≡ args
  SettledArg args arg_i (ShrinkArgRes.error, t') = Others args arg_i t'

  abbrev Settled : (ℕ → ArgInfo I P) → ℕ → Round × State s → Type 0
  Settled args arg_i (next_tactic, t') = t'.trial.args ≡ args
  Settled args arg_i (returns res, t') = SettledArg args arg_i (res, t')

  -- The end of a tactic whose candidate `a` was put in the place of `args arg_i`.
  settle-Settled :
      (args : ℕ → ArgInfo I P) (arg_i : ℕ) (a : ArgInfo I P) (res : TrialRes) (t : State s)
      → t.trial.args ≡ update args arg_i a
      → property (instances s.arity 0 (update args arg_i a)) ≡ res
      → Settled args arg_i (settle s arg_i (args arg_i) a res t)
  unfolding settle
  settle-Settled args arg_i a TrialRes.pass t e h =
      ap (λ x. update x arg_i (args arg_i)) e ∙ update_back args arg_i a
  settle-Settled args arg_i a TrialRes.skip t e h =
      ap (λ x. update x arg_i (args arg_i)) e ∙ update_back args arg_i a
  settle-Settled args arg_i a TrialRes.fail t e h =
      (rw e h, λ j ne. rw e (update-others args arg_i j a ne))
  settle-Settled args arg_i a TrialRes.dup t e h = λ j ne. rw e (update-others args arg_i j a ne)
  settle-Settled args arg_i a TrialRes.error t e h = λ j ne. rw e (update-others args arg_i j a ne)

  judge-Settled :
      (args : ℕ → ArgInfo I P) (arg_i : ℕ) (a : ArgInfo I P) (r : Option TrialRes × State s)
      → Called (update args arg_i a) r
      → Settled args arg_i (judge s arg_i (args arg_i) a r.0 r.1)
  unfolding judge
  judge-Settled args arg_i a (none, t) (e, h) = λ j ne. rw e (update-others args arg_i j a ne)
  judge-Settled args arg_i a (some res, t) (e, h) = settle-Settled args arg_i a res _ e (h res refl)

  try_candidate-Settled :
      (args : ℕ → ArgInfo I P) (fuel arg_i tactic : ℕ) (a : ArgInfo I P) (t : State s)
      → t.trial.args ≡ update args arg_i a
      → Ensures (Settled args arg_i) (try_candidate s fuel arg_i tactic (args arg_i) a t)
  unfolding try_candidate
  try_candidate-Settled args fuel arg_i tactic a t e =
      Ensures-bind (Called t.trial.args) (Settled args arg_i)
        (call_loop s fuel false arg_i tactic t) _ (call_loop-Called fuel false arg_i tactic t)
        (λ r c. judge-Settled args arg_i a r (subst (λ x. Called x r) e c))

  try_new_candidate-Settled :
      (args : ℕ → ArgInfo I P) (fuel arg_i tactic : ℕ) (a : ArgInfo I P) (t : State s)
      → t.trial.args ≡ update args arg_i a
      → Ensures (Settled args arg_i) (try_new_candidate s fuel arg_i tactic (args arg_i) a t)
  unfolding try_new_candidate
  try_new_candidate-Settled args fuel arg_i tactic a t e = elim (Option-cases (t.bloom)) [
    | inl off ↦ rw (off, try_new_candidate) (try_candidate-Settled args fuel arg_i tactic a t e)
    | inr (b, on) ↦ elim (Bool-cases (check_called s b t)) [
      | inl known ↦
          rw (on, known, try_new_candidate)
            (ap (λ x. update x arg_i (args arg_i)) e ∙ update_back args arg_i a)
      | inr new ↦
          rw (on, new, try_new_candidate)
            (Ensures-bind (λ t'. t'.trial.args ≡ t.trial.args) (Settled args arg_i)
              (mark_called s b t) _ (mark_called-args s b t)
              (λ t' e'. try_candidate-Settled args fuel arg_i tactic a t' (e' ∙ e)))
    ]
  ]

  take_candidate-Settled :
      (args : ℕ → ArgInfo I P) (fuel arg_i tactic : ℕ) (a : ArgInfo I P) (sres : ShrinkRes)
      (t : State s)
      → t.trial.args ≡ args
      → Ensures (Settled args arg_i) (take_candidate s fuel arg_i tactic (args arg_i) a sres t)
  unfolding take_candidate
  take_candidate-Settled args fuel arg_i tactic a ShrinkRes.ok t e =
      try_new_candidate-Settled args fuel arg_i tactic a (set_arg arg_i a t)
        (ap (λ x. update x arg_i a) e)
  take_candidate-Settled args fuel arg_i tactic a ShrinkRes.dead_end t e = e
  take_candidate-Settled args fuel arg_i tactic a ShrinkRes.no_more_tactics t e = e
  take_candidate-Settled args fuel arg_i tactic a ShrinkRes.error t e = λ j ne. rw e refl

  after_post-Settled :
      (args : ℕ → ArgInfo I P) (fuel arg_i tactic : ℕ) (a : ArgInfo I P) (sres : ShrinkRes)
      (post : ShrinkPostRes) (t : State s)
      → t.trial.args ≡ args
      → Ensures (Settled args arg_i) (after_post s fuel arg_i tactic (args arg_i) a sres post t)
  unfolding after_post
  after_post-Settled args fuel arg_i tactic a sres ShrinkPostRes.continue t e =
      take_candidate-Settled args fuel arg_i tactic a sres t e
  after_post-Settled args fuel arg_i tactic a sres ShrinkPostRes.error t e = λ j ne. rw e refl

  shrink_step-Settled :
      (fuel arg_i tactic : ℕ) (t : State s)
      → Ensures (Settled t.trial.args arg_i) (shrink_step s fuel arg_i tactic t)
  unfolding shrink_step
  shrink_step-Settled fuel arg_i tactic t =
      let p : ShrinkRes × ArgInfo I P × State s = propose s arg_i tactic t in
      let x : I = shown s p.0 (p.1).instance_of (arg arg_i t).instance_of in
      Ensures-bind (λ r. r.1.trial.args ≡ p.2.trial.args) (Settled t.trial.args arg_i)
        (shrink_post_hook s arg_i x tactic p.0 p.2) _ (post-args s arg_i x tactic p.0 p.2)
        (λ r e.
          after_post-Settled t.trial.args fuel arg_i tactic p.1 p.0 r.0 r.1
            (e ∙ propose-args s arg_i tactic t))

  after_pre-Settled :
      (args : ℕ → ArgInfo I P) (fuel arg_i tactic : ℕ) (pre : ShrinkPreRes) (t : State s)
      → t.trial.args ≡ args
      → Ensures (Settled args arg_i) (after_pre s fuel arg_i tactic pre t)
  unfolding after_pre
  after_pre-Settled args fuel arg_i tactic ShrinkPreRes.halt t e = e
  after_pre-Settled args fuel arg_i tactic ShrinkPreRes.error t e = λ j ne. rw e refl
  after_pre-Settled args fuel arg_i tactic ShrinkPreRes.continue t e =
      subst (λ x. Ensures (Settled x arg_i) (shrink_step s fuel arg_i tactic t)) e
        (shrink_step-Settled fuel arg_i tactic t)

  try_tactic-Settled :
      (fuel arg_i tactic : ℕ) (t : State s)
      → Ensures (Settled t.trial.args arg_i) (try_tactic s fuel arg_i tactic t)
  unfolding try_tactic
  try_tactic-Settled fuel arg_i tactic t =
      after_pre-Settled t.trial.args fuel arg_i tactic _ _ (pre-args s arg_i _ tactic t)

  -- A round that goes on leaves the arguments for the rounds after it.
  next_round :
      (args : ℕ → ArgInfo I P) (arg_i : ℕ) (later : State s → Outcome (ShrinkArgRes × State s))
      (r : Round × State s)
      → ((t : State s) → Ensures (SettledArg t.trial.args arg_i) (later t))
      → Settled args arg_i r
      → Ensures
          (SettledArg args arg_i)
          (elim (r.0) [ next_tactic ↦ later r.1 | returns res ↦ done (res, r.1) ])
  next_round args arg_i later (next_tactic, t) ih e =
      subst (λ x. Ensures (SettledArg x arg_i) (later t)) e (ih t)
  next_round args arg_i later (returns res, t) ih e = e

  tactics_from-Settled :
      (fuel left tactic arg_i : ℕ) (t : State s)
      → Ensures (SettledArg t.trial.args arg_i) (tactics_from s fuel left tactic arg_i t)
  unfolding tactics_from
  tactics_from-Settled fuel zero tactic arg_i t = refl
  tactics_from-Settled fuel (suc left) tactic arg_i t =
      Ensures-bind (Settled t.trial.args arg_i) (SettledArg t.trial.args arg_i)
        (try_tactic s fuel arg_i tactic t) _ (try_tactic-Settled fuel arg_i tactic t)
        (λ r.
          next_round t.trial.args arg_i (tactics_from s fuel left (tactic + 1) arg_i) r
            (tactics_from-Settled fuel left (tactic + 1) arg_i))

  -- The attempt at one argument, where it ends.
  pub attempt-SettledArg :
      (fuel arg_i : ℕ) (t : State s)
      → Ensures (SettledArg t.trial.args arg_i) (attempt_to_shrink_arg s fuel arg_i t)
  unfolding attempt_to_shrink_arg
  attempt-SettledArg fuel arg_i t = tactics_from-Settled fuel _ 0 arg_i t
