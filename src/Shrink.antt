-- ===== src/Shrink.antt =====
-- src/theft_shrink.c: greedy shrinking of the arguments of a failing trial.
-- A loop that ends only when a hook or a shrink callback lets it takes fuel; `no_fuel` is its end
-- without a result.
pub mod Args
pub mod Settled
pub mod Failing
pub mod Frame
pub mod Ends
pub mod Termination
use theft.Base.{
  ℕ, zero, suc, ◌+◌, ◌-◌, ◌^◌, Bool, true, false, not, Option, none, some, List, [], ◌∷◌,
}
use theft.Base.{ltb, if◌then◌else◌}
use theft.Bloom.{Bloom}
use theft.Types.{
  TrialRes, ShrinkRes, ShrinkArgRes, ShrinkPreRes, ShrinkPostRes, ShrinkPostState,
  ShrinkTrialPostRes, Outcome, done, aborted, no_fuel, ◌>>=◌,
}
use theft.Theft.{
  Setup, Theft, TypeInfo, ArgInfo, TrialInfo, ShrinkInfo, arg, set_arg, set_world, instances,
  free_instance,
}
use theft.Call.{check_called, mark_called}

-- `THEFT_MAX_TACTICS`
abbrev pub max_tactics : ℕ
max_tactics = 2 ^ 32 - 1

-- How one round of the loop over the tactics ends: `continue`, or `return`.
pub data Round : Type 0 where
  next_tactic : Round
  returns : ShrinkArgRes → Round

module _ {I P W : Type 0} (s : Setup I P W) where
  abbrev pub State : Type 0
  State = Theft I P W

  abbrev shrink_info : State → ℕ → ℕ → ShrinkInfo
  shrink_info t arg_i tactic = record {
    trial_id = t.trial.trial;
    trial_seed = t.trial.seed;
    shrink_count = t.trial.shrink_count;
    successful_shrinks = t.trial.successful_shrinks;
    failed_shrinks = t.trial.failed_shrinks;
    arg_index = arg_i;
    tactic = tactic;
  }

  unfoldable pub shrink_pre_hook : ℕ → I → ℕ → State → ShrinkPreRes × State
  shrink_pre_hook arg_i current tactic t = elim (s.hooks.shrink_pre) [
    | none ↦ (ShrinkPreRes.continue, t)
    | some hook ↦
        let (res, w) = hook t.counters.fail (shrink_info t arg_i tactic) current t.world in
        (res, set_world w t)
  ]

  abbrev post_state : ShrinkRes → Option ShrinkPostState
  post_state ShrinkRes.ok = some ShrinkPostState.shrunk
  post_state ShrinkRes.no_more_tactics = some ShrinkPostState.done_shrinking
  post_state ShrinkRes.dead_end = some ShrinkPostState.shrink_failed
  post_state ShrinkRes.error = none

  -- On THEFT_SHRINK_ERROR the code asserts false.
  unfoldable pub shrink_post_hook : ℕ → I → ℕ → ShrinkRes → State → Outcome (ShrinkPostRes × State)
  shrink_post_hook arg_i x tactic sres t = elim (s.hooks.shrink_post) [
    | none ↦ done (ShrinkPostRes.continue, t)
    | some hook ↦ elim (post_state sres) [
      | none ↦ aborted
      | some state ↦
          let (res, w) = hook (shrink_info t arg_i tactic) x state t.world in
          done (res, set_world w t)
    ]
  ]

  unfoldable pub shrink_trial_post_hook :
      ℕ → List I → ℕ → TrialRes → State → ShrinkTrialPostRes × State
  shrink_trial_post_hook arg_i args tactic result t = elim (s.hooks.shrink_trial_post) [
    | none ↦ (ShrinkTrialPostRes.continue, t)
    | some hook ↦
        let (res, w) = hook t.counters.fail (shrink_info t arg_i tactic) args result t.world in
        (res, set_world w t)
  ]

  abbrev free_value : ℕ → I → State → State
  free_value arg_i x t = set_world (free_instance (s.type_info arg_i) x t.world) t

  abbrev update_model : ℕ → TrialRes → ℕ → State → State
  update_model arg_i res adjustment t =
      set_world (s.autoshrink.update_model arg_i res adjustment t.world) t

  abbrev free_pool_if : Bool → Option P → State → State
  free_pool_if used p t =
      set_world (if used then s.autoshrink.free_bit_pool p t.world else t.world) t

  -- The counters after the first call with the candidate.
  unfoldable pub count_shrink : ℕ → TrialRes → State → State
  count_shrink arg_i TrialRes.fail t = update_model arg_i TrialRes.fail 3 (record t {
    trial = record (t.trial) { successful_shrinks = t.trial.successful_shrinks + 1 };
  })
  count_shrink arg_i res t = record t {
    trial = record (t.trial) { failed_shrinks = t.trial.failed_shrinks + 1 };
  }

  -- What the hook's answer asks for: `none` is another round, `some none` its ERROR.
  unfoldable pub answer : ShrinkTrialPostRes → Bool → TrialRes → Option (Option TrialRes)
  answer ShrinkTrialPostRes.repeat repeated res = none
  answer ShrinkTrialPostRes.repeat_once true res = some (some res)
  answer ShrinkTrialPostRes.repeat_once false res = none
  answer ShrinkTrialPostRes.continue repeated res = some (some res)
  answer ShrinkTrialPostRes.error repeated res = some none

  -- One round of the `for (;;)` around `theft_call`: the call, the counters and the hook.
  unfoldable pub call_round : Bool → ℕ → ℕ → State → Option (Option TrialRes) × State
  call_round repeated arg_i tactic t =
      let args = instances s.arity 0 t.trial.args in
      let (res, w) = s.call args t.world in
      let t₁ = if repeated then set_world w t else count_shrink arg_i res (set_world w t) in
      let (stpres, t₂) = shrink_trial_post_hook arg_i args tactic res t₁ in
      (answer stpres repeated res, t₂)

  -- The loop: the last result, or `none` where the hook said ERROR.
  unfoldable pub call_loop : ℕ → Bool → ℕ → ℕ → State → Outcome (Option TrialRes × State)
  call_loop zero repeated arg_i tactic t = no_fuel
  call_loop (suc fuel) repeated arg_i tactic t =
      let (decided, t') = call_round repeated arg_i tactic t in
      elim decided [ none ↦ call_loop fuel true arg_i tactic t' | some r ↦ done (r, t') ]

  -- The `switch (res)`: revert on PASS and SKIP, commit on FAIL.
  unfoldable pub settle : ℕ → ArgInfo I P → ArgInfo I P → TrialRes → State → Round × State
  settle arg_i current candidate res t =
      let use_autoshrink = (s.type_info arg_i).autoshrink in
      let reverted =
        free_value arg_i candidate.instance_of
          (free_pool_if use_autoshrink candidate.bit_pool (set_arg arg_i current t)) in
      elim res [
        | TrialRes.pass ↦ (next_tactic, reverted)
        | TrialRes.skip ↦ (next_tactic, reverted)
        | TrialRes.fail ↦ (
          returns ShrinkArgRes.ok,
          free_value arg_i current.instance_of (free_pool_if use_autoshrink current.bit_pool t),
        )
        | _ ↦ (
          returns ShrinkArgRes.error,
          free_pool_if use_autoshrink current.bit_pool (free_value arg_i current.instance_of t),
        )
      ]

  abbrev has_pool : ℕ → Option P → Bool
  has_pool arg_i none = false
  has_pool arg_i (some p) = (s.type_info arg_i).autoshrink

  -- What follows the calls with the candidate; `none` is the hook's ERROR.
  unfoldable pub judge : ℕ → ArgInfo I P → ArgInfo I P → Option TrialRes → State → Round × State
  judge arg_i current candidate none t = (
    returns ShrinkArgRes.error,
    free_pool_if (has_pool arg_i current.bit_pool) current.bit_pool
        (free_value arg_i current.instance_of t),
  )
  judge arg_i current candidate (some res) t =
      settle arg_i current candidate res (update_model arg_i res 8 t)

  -- The trial with the candidate in place.
  unfoldable pub try_candidate :
      ℕ → ℕ → ℕ → ArgInfo I P → ArgInfo I P → State → Outcome (Round × State)
  try_candidate fuel arg_i tactic current candidate t =
      call_loop fuel false arg_i tactic t >>= λ r. done (judge arg_i current candidate r.0 r.1)

  -- The candidate is skipped if the bloom filter knows it, and marked there if not.
  unfoldable pub try_new_candidate :
      ℕ → ℕ → ℕ → ArgInfo I P → ArgInfo I P → State → Outcome (Round × State)
  try_new_candidate fuel arg_i tactic current candidate t = elim (t.bloom) [
    | none ↦ try_candidate fuel arg_i tactic current candidate t
    | some b ↦
        if check_called s b t
        then (let freed = free_value arg_i candidate.instance_of t in
            done (
              next_tactic,
              set_arg arg_i current
                  (free_pool_if (s.type_info arg_i).autoshrink candidate.bit_pool freed),
            ))
        else mark_called s b t >>= try_candidate fuel arg_i tactic current candidate
  ]

  -- The shrink callback, or the autoshrinker; the call is counted.
  unfoldable pub propose : ℕ → ℕ → State → ShrinkRes × ArgInfo I P × State
  propose arg_i tactic t =
      let ti = s.type_info arg_i in
      let a = arg arg_i t in
      let by_callback : ShrinkRes × I × W = elim (ti.shrink) [
        | none ↦ (ShrinkRes.no_more_tactics, s.null, t.world)
        | some shrink ↦ shrink a.instance_of tactic t.world
      ] in
      let (sres, candidate, pool, w) : ShrinkRes × I × Option P × W =
        if ti.autoshrink
        then s.autoshrink.shrink arg_i a.bit_pool tactic t.world
        else (by_callback.0, by_callback.1, none, by_callback.2) in
      (
        sres,
        record { instance_of = candidate; bit_pool = pool },
        record t {
          trial = record (t.trial) { shrink_count = t.trial.shrink_count + 1 };
          world = w;
        },
      )

  -- The branches on the result of the shrink callback, once the post-shrink hook has agreed.
  unfoldable pub take_candidate :
      ℕ → ℕ → ℕ → ArgInfo I P → ArgInfo I P → ShrinkRes → State → Outcome (Round × State)
  take_candidate fuel arg_i tactic current candidate ShrinkRes.ok t =
      try_new_candidate fuel arg_i tactic current candidate (set_arg arg_i candidate t)
  take_candidate fuel arg_i tactic current candidate ShrinkRes.dead_end t = done (next_tactic, t)
  take_candidate fuel arg_i tactic current candidate ShrinkRes.no_more_tactics t =
      done (returns ShrinkArgRes.dead_end, t)
  take_candidate fuel arg_i tactic current candidate ShrinkRes.error t =
      done (returns ShrinkArgRes.error, t)

  abbrev pool_given : Option P → Bool
  pool_given none = false
  pool_given (some p) = true

  -- The branches on the result of the post-shrink hook; an error frees what was proposed.
  unfoldable pub after_post :
      ℕ
      → ℕ
      → ℕ
      → ArgInfo I P
      → ArgInfo I P
      → ShrinkRes
      → ShrinkPostRes
      → State
      → Outcome (Round × State)
  after_post fuel arg_i tactic current candidate sres ShrinkPostRes.continue t =
      take_candidate fuel arg_i tactic current candidate sres t
  after_post fuel arg_i tactic current candidate sres ShrinkPostRes.error t = done (
    returns ShrinkArgRes.error,
    free_pool_if (pool_given candidate.bit_pool) candidate.bit_pool
        (free_value arg_i candidate.instance_of t),
  )

  -- The instance that the post-shrink hook is shown.
  abbrev pub shown : ShrinkRes → I → I → I
  shown ShrinkRes.ok candidate current = candidate
  shown _ candidate current = current

  -- From the shrink callback on.
  unfoldable pub shrink_step : ℕ → ℕ → ℕ → State → Outcome (Round × State)
  shrink_step fuel arg_i tactic t =
      let current = arg arg_i t in
      let (sres, candidate, t₁) = propose arg_i tactic t in
      let x = shown sres candidate.instance_of current.instance_of in
      shrink_post_hook arg_i x tactic sres t₁ >>= λ r.
      after_post fuel arg_i tactic current candidate sres r.0 r.1

  -- The branches on the result of the pre-shrink hook.
  unfoldable pub after_pre : ℕ → ℕ → ℕ → ShrinkPreRes → State → Outcome (Round × State)
  after_pre fuel arg_i tactic ShrinkPreRes.halt t = done (returns ShrinkArgRes.halt, t)
  after_pre fuel arg_i tactic ShrinkPreRes.error t = done (returns ShrinkArgRes.error, t)
  after_pre fuel arg_i tactic ShrinkPreRes.continue t = shrink_step fuel arg_i tactic t

  -- One round of the loop over the tactics.
  unfoldable pub try_tactic : ℕ → ℕ → ℕ → State → Outcome (Round × State)
  try_tactic fuel arg_i tactic t =
      let r = shrink_pre_hook arg_i (arg arg_i t).instance_of tactic t in
      after_pre fuel arg_i tactic r.0 r.1

  -- The loop over the tactics, with the number that is left.
  unfoldable pub tactics_from : ℕ → ℕ → ℕ → ℕ → State → Outcome (ShrinkArgRes × State)
  tactics_from fuel zero tactic arg_i t = done (ShrinkArgRes.dead_end, t)
  tactics_from fuel (suc left) tactic arg_i t = try_tactic fuel arg_i tactic t >>= λ r. elim (r.0) [
    | next_tactic ↦ tactics_from fuel left (tactic + 1) arg_i r.1
    | returns res ↦ done (res, r.1)
  ]

  unfoldable pub attempt_to_shrink_arg : ℕ → ℕ → State → Outcome (ShrinkArgRes × State)
  attempt_to_shrink_arg fuel arg_i t = tactics_from fuel max_tactics 0 arg_i t

  abbrev pub can_shrink : ℕ → Bool
  can_shrink arg_i = elim ((s.type_info arg_i).shrink) [
    | none ↦ (s.type_info arg_i).autoshrink
    | some f ↦ true
  ]

  -- `theft_shrink`, at argument `arg_i` with `left` arguments of the pass to go. An argument
  -- that was shrunk is tried again (`greedy_continue`), and a pass with progress is followed by
  -- another. The first fuel is for each `call_loop`, the second for the rounds here.
  unfoldable pub shrink_from : ℕ → ℕ → ℕ → ℕ → Bool → State → Outcome (Bool × State)
  shrink_from calls zero left arg_i progress t = no_fuel
  shrink_from calls (suc rounds) zero arg_i progress t =
      let again = shrink_from calls rounds s.arity 0 false t in
      if progress then again else done (true, t)
  shrink_from calls (suc rounds) (suc left) arg_i progress t =
      let skipped = shrink_from calls rounds left (arg_i + 1) progress t in
      let attempted = attempt_to_shrink_arg calls arg_i t >>= λ r. elim (r.0) [
        | ShrinkArgRes.ok ↦ shrink_from calls rounds (suc left) arg_i true r.1
        | ShrinkArgRes.halt ↦ done (true, r.1)
        | ShrinkArgRes.dead_end ↦ shrink_from calls rounds left (arg_i + 1) progress r.1
        | ShrinkArgRes.error ↦ done (false, r.1)
      ] in
      if can_shrink arg_i then attempted else skipped

  unfoldable pub shrink : ℕ → ℕ → State → Outcome (Bool × State)
  shrink calls rounds t = shrink_from calls rounds s.arity 0 false t
