-- ===== src/Shrink/Frame.antt =====
-- src/theft_shrink.c: the counters of the run, and the trial's number and seed, across shrinking.
use theft.Base.{ℕ, zero, suc, ◌+◌, ◌≡◌, refl, ◌∙◌, Bool, true, false, Option, none, some, List}
use theft.Base.{Bool-cases, Option-cases, inl, inr}
use theft.Bloom.{Bloom, mark}
use theft.Types.{
  TrialRes, ShrinkRes, ShrinkArgRes, ShrinkPreRes, ShrinkPostRes, Outcome, done, Ensures,
  Ensures-bind,
}
use theft.Theft.{Setup, ArgInfo, Counters, arg, set_arg}
use theft.Call.{hash_buffer, check_called, mark_called}
use theft.Shrink.{
  Round, next_tactic, returns, State, shrink_pre_hook, shrink_post_hook, shrink_trial_post_hook,
  count_shrink, call_round, call_loop, settle, judge, try_candidate, try_new_candidate, propose,
  take_candidate, after_post, after_pre, shown, shrink_step, try_tactic, tactics_from,
  attempt_to_shrink_arg, shrink_from, shrink, can_shrink, post_state,
}

-- What the frame consists of.
abbrev pub Frame : Type 0
Frame = Counters × ℕ × ℕ

module _ {I P W : Type 0} (s : Setup I P W) where
  abbrev pub frame : State s → Frame
  frame t = (t.counters, t.trial.trial, t.trial.seed)

  abbrev Kept : {A : Type 0} → Frame → A × State s → Type 0
  Kept f r = frame r.1 ≡ f

  count_shrink-frame :
      (arg_i : ℕ) (res : TrialRes) (t : State s) → frame (count_shrink s arg_i res t) ≡ frame t
  unfolding count_shrink
  count_shrink-frame arg_i TrialRes.fail t = refl
  count_shrink-frame arg_i _ t = refl

  trial_post-frame :
      (arg_i : ℕ) (args : List I) (tactic : ℕ) (res : TrialRes) (t : State s)
      → frame (shrink_trial_post_hook s arg_i args tactic res t).1 ≡ frame t
  unfolding shrink_trial_post_hook
  trial_post-frame arg_i args tactic res t = elim (Option-cases (s.hooks.shrink_trial_post)) [
    | inl e ↦ rw (e, shrink_trial_post_hook) refl
    | inr (hook, e) ↦ rw (e, shrink_trial_post_hook) refl
  ]

  pre-frame :
      (arg_i : ℕ) (x : I) (tactic : ℕ) (t : State s)
      → frame (shrink_pre_hook s arg_i x tactic t).1 ≡ frame t
  unfolding shrink_pre_hook
  pre-frame arg_i x tactic t = elim (Option-cases (s.hooks.shrink_pre)) [
    | inl e ↦ rw (e, shrink_pre_hook) refl
    | inr (hook, e) ↦ rw (e, shrink_pre_hook) refl
  ]

  post-frame :
      (arg_i : ℕ) (x : I) (tactic : ℕ) (sres : ShrinkRes) (t : State s)
      → Ensures (Kept (frame t)) (shrink_post_hook s arg_i x tactic sres t)
  unfolding shrink_post_hook
  post-frame arg_i x tactic sres t = elim (Option-cases (s.hooks.shrink_post)) [
    | inl e ↦ rw (e, shrink_post_hook) refl
    | inr (hook, e) ↦ elim (Option-cases (post_state s sres)) [
      | inl e' ↦ rw (e, e', shrink_post_hook) tt
      | inr (st, e') ↦ rw (e, e', shrink_post_hook) refl
    ]
  ]

  pub mark_called-frame :
      (b : Bloom) (t : State s) → Ensures (λ t'. frame t' ≡ frame t) (mark_called s b t)
  unfolding mark_called
  mark_called-frame b t =
      elim (Option-cases (mark (s.malloc t.world) b (hash_buffer s s.arity 0 t))) [
        | inl e ↦ rw (e, mark_called) tt
        | inr (r, e) ↦ rw (e, mark_called) refl
      ]

  call_round-frame :
      (repeated : Bool) (arg_i tactic : ℕ) (t : State s)
      → frame (call_round s repeated arg_i tactic t).1 ≡ frame t
  unfolding call_round
  call_round-frame true arg_i tactic t = trial_post-frame _ _ _ _ _
  call_round-frame false arg_i tactic t = trial_post-frame _ _ _ _ _ ∙ count_shrink-frame _ _ _

  call_loop-frame :
      (f : Frame) (fuel : ℕ) (repeated : Bool) (arg_i tactic : ℕ) (t : State s)
      → frame t ≡ f
      → Ensures (Kept f) (call_loop s fuel repeated arg_i tactic t)
  unfolding call_loop
  call_loop-frame f zero repeated arg_i tactic t e = tt
  call_loop-frame f (suc fuel) repeated arg_i tactic t e =
      elim (Option-cases ((call_round s repeated arg_i tactic t).0)) [
        | inl again ↦
            rw (again, call_loop)
              (call_loop-frame f fuel true arg_i tactic _
                (call_round-frame repeated arg_i tactic t ∙ e))
        | inr (r, decided) ↦ rw (decided, call_loop) (call_round-frame repeated arg_i tactic t ∙ e)
      ]

  judge-frame :
      (f : Frame) (arg_i : ℕ) (current a : ArgInfo I P) (r : Option TrialRes × State s)
      → Kept f r
      → Kept f (judge s arg_i current a r.0 r.1)
  unfolding judge settle
  judge-frame f arg_i current a (none, t) e = e
  judge-frame f arg_i current a (some TrialRes.pass, t) e = e
  judge-frame f arg_i current a (some TrialRes.fail, t) e = e
  judge-frame f arg_i current a (some TrialRes.skip, t) e = e
  judge-frame f arg_i current a (some TrialRes.dup, t) e = e
  judge-frame f arg_i current a (some TrialRes.error, t) e = e

  try_candidate-frame :
      (f : Frame) (fuel arg_i tactic : ℕ) (current a : ArgInfo I P) (t : State s)
      → frame t ≡ f
      → Ensures (Kept f) (try_candidate s fuel arg_i tactic current a t)
  unfolding try_candidate
  try_candidate-frame f fuel arg_i tactic current a t e =
      Ensures-bind (Kept f) (Kept f) (call_loop s fuel false arg_i tactic t) _
        (call_loop-frame f fuel false arg_i tactic t e) (λ r k. judge-frame f arg_i current a r k)

  try_new_candidate-frame :
      (f : Frame) (fuel arg_i tactic : ℕ) (current a : ArgInfo I P) (t : State s)
      → frame t ≡ f
      → Ensures (Kept f) (try_new_candidate s fuel arg_i tactic current a t)
  unfolding try_new_candidate
  try_new_candidate-frame f fuel arg_i tactic current a t e = elim (Option-cases (t.bloom)) [
    | inl off ↦ rw (off, try_new_candidate) (try_candidate-frame f fuel arg_i tactic current a t e)
    | inr (b, on) ↦ elim (Bool-cases (check_called s b t)) [
      | inl known ↦ rw (on, known, try_new_candidate) e
      | inr new ↦
          rw (on, new, try_new_candidate)
            (Ensures-bind (λ t'. frame t' ≡ frame t) (Kept f) (mark_called s b t) _
              (mark_called-frame b t)
              (λ t' e'. try_candidate-frame f fuel arg_i tactic current a t' (e' ∙ e)))
    ]
  ]

  after_post-frame :
      (f : Frame) (fuel arg_i tactic : ℕ) (current a : ArgInfo I P) (sres : ShrinkRes)
      (post : ShrinkPostRes) (t : State s)
      → frame t ≡ f
      → Ensures (Kept f) (after_post s fuel arg_i tactic current a sres post t)
  unfolding after_post take_candidate
  after_post-frame f fuel arg_i tactic current a ShrinkRes.ok ShrinkPostRes.continue t e =
      try_new_candidate-frame f fuel arg_i tactic current a (set_arg arg_i a t) e
  after_post-frame f fuel arg_i tactic current a ShrinkRes.dead_end ShrinkPostRes.continue t e = e
  after_post-frame f fuel arg_i tactic current a ShrinkRes.no_more_tactics ShrinkPostRes.continue t
        e =
      e
  after_post-frame f fuel arg_i tactic current a ShrinkRes.error ShrinkPostRes.continue t e = e
  after_post-frame f fuel arg_i tactic current a sres ShrinkPostRes.error t e = e

  shrink_step-frame :
      (f : Frame) (fuel arg_i tactic : ℕ) (t : State s)
      → frame t ≡ f
      → Ensures (Kept f) (shrink_step s fuel arg_i tactic t)
  unfolding shrink_step propose
  shrink_step-frame f fuel arg_i tactic t e =
      let p : ShrinkRes × ArgInfo I P × State s = propose s arg_i tactic t in
      let x : I = shown s p.0 (p.1).instance_of (arg arg_i t).instance_of in
      Ensures-bind (Kept (frame p.2)) (Kept f) (shrink_post_hook s arg_i x tactic p.0 p.2) _
        (post-frame arg_i x tactic p.0 p.2)
        (λ r k. after_post-frame f fuel arg_i tactic _ p.1 p.0 r.0 r.1 (k ∙ e))

  try_tactic-frame :
      (f : Frame) (fuel arg_i tactic : ℕ) (t : State s)
      → frame t ≡ f
      → Ensures (Kept f) (try_tactic s fuel arg_i tactic t)
  unfolding try_tactic
  try_tactic-frame f fuel arg_i tactic t e =
      go (shrink_pre_hook s arg_i (arg arg_i t).instance_of tactic t)
        (pre-frame arg_i _ tactic t ∙ e)
    where
      go :
          (r : ShrinkPreRes × State s)
          → Kept f r
          → Ensures (Kept f) (after_pre s fuel arg_i tactic r.0 r.1)
      go (ShrinkPreRes.halt, t') k = unfold after_pre in k
      go (ShrinkPreRes.error, t') k = unfold after_pre in k
      go (ShrinkPreRes.continue, t') k =
          unfold after_pre in shrink_step-frame f fuel arg_i tactic t' k

  next_round :
      (f : Frame) (later : State s → Outcome (ShrinkArgRes × State s)) (r : Round × State s)
      → ((t : State s) → frame t ≡ f → Ensures (Kept f) (later t))
      → Kept f r
      → Ensures (Kept f) (elim (r.0) [ next_tactic ↦ later r.1 | returns res ↦ done (res, r.1) ])
  next_round f later (next_tactic, t) ih e = ih t e
  next_round f later (returns res, t) ih e = e

  tactics_from-frame :
      (f : Frame) (fuel left tactic arg_i : ℕ) (t : State s)
      → frame t ≡ f
      → Ensures (Kept f) (tactics_from s fuel left tactic arg_i t)
  unfolding tactics_from
  tactics_from-frame f fuel zero tactic arg_i t e = e
  tactics_from-frame f fuel (suc left) tactic arg_i t e =
      Ensures-bind (Kept f) (Kept f) (try_tactic s fuel arg_i tactic t) _
        (try_tactic-frame f fuel arg_i tactic t e)
        (λ r.
          next_round f (tactics_from s fuel left (tactic + 1) arg_i) r
            (tactics_from-frame f fuel left (tactic + 1) arg_i))

  after_attempt :
      (f : Frame) (again next : State s → Outcome (Bool × State s)) (r : ShrinkArgRes × State s)
      → ((t : State s) → frame t ≡ f → Ensures (Kept f) (again t))
      → ((t : State s) → frame t ≡ f → Ensures (Kept f) (next t))
      → Kept f r
      → Ensures (Kept f) (elim (r.0) [
        | ShrinkArgRes.ok ↦ again r.1
        | ShrinkArgRes.halt ↦ done (true, r.1)
        | ShrinkArgRes.dead_end ↦ next r.1
        | ShrinkArgRes.error ↦ done (false, r.1)
      ])
  after_attempt f again next (ShrinkArgRes.ok, t) ha hn e = ha t e
  after_attempt f again next (ShrinkArgRes.dead_end, t) ha hn e = hn t e
  after_attempt f again next (ShrinkArgRes.halt, t) ha hn e = e
  after_attempt f again next (ShrinkArgRes.error, t) ha hn e = e

  shrink_from-frame :
      (f : Frame) (calls rounds left arg_i : ℕ) (progress : Bool) (t : State s)
      → frame t ≡ f
      → Ensures (Kept f) (shrink_from s calls rounds left arg_i progress t)
  unfolding shrink_from attempt_to_shrink_arg
  shrink_from-frame f calls zero left arg_i progress t e = tt
  shrink_from-frame f calls (suc rounds) zero arg_i true t e =
      shrink_from-frame f calls rounds s.arity 0 false t e
  shrink_from-frame f calls (suc rounds) zero arg_i false t e = e
  shrink_from-frame f calls (suc rounds) (suc left) arg_i progress t e =
      elim (Bool-cases (can_shrink s arg_i)) [
        | inl can ↦
            rw (can, shrink_from)
              (Ensures-bind (Kept f) (Kept f) (attempt_to_shrink_arg s calls arg_i t) _
                (tactics_from-frame f calls _ 0 arg_i t e)
                (λ r.
                  after_attempt f (shrink_from s calls rounds (suc left) arg_i true)
                    (shrink_from s calls rounds left (arg_i + 1) progress) r
                    (shrink_from-frame f calls rounds (suc left) arg_i true)
                    (shrink_from-frame f calls rounds left (arg_i + 1) progress)))
        | inr cannot ↦
            rw (cannot, shrink_from)
              (shrink_from-frame f calls rounds left (arg_i + 1) progress t e)
      ]

  -- Shrinking changes no counter of the run, nor the number or the seed of the trial.
  pub shrink-frame :
      (calls rounds : ℕ) (t : State s) → Ensures (Kept (frame t)) (shrink s calls rounds t)
  unfolding shrink
  shrink-frame calls rounds t = shrink_from-frame (frame t) calls rounds s.arity 0 false t refl
