-- ===== src/Entry/Failing.antt =====
-- src/theft.c, `theft_run`: where a FAIL comes from.
use theft.Base.{
  ◌≡◌, refl, ap, ◌∙◌, Bool, true, false, ◌&&◌, some, List, Bool-cases, inl, inr, take, ltb,
}
use theft.Base.{if◌then◌else◌}
use theft.Types.{TrialRes, RunRes, done, bind-done}
use theft.Init.{RunConfig, Settings, InitRes, accept, run_init}
use theft.Worker.{call_inner}
use theft.Trial.{Fuel}
use theft.Run.{run_trials}
use theft.Run.Totals.{run_trials-CanFail}
use theft.Entry.{
  Surroundings, InitMemory, call_setup, setup_of, initial, init_runner, after_init, run,
}

module _ {F I P W : Type 0} (e : Surroundings F I P W) (cfg : RunConfig F I W) where
  -- The configuration is accepted, and its property function gives FAIL on some arguments.
  abbrev pub FailsOnce : Type 0
  FailsOnce =
      (s : Settings F I W) × (args : List I) × (w : W) × (accept cfg ≡ InitRes.ok s)
      × ((e.apply s.prop args w).0 ≡ TrialRes.fail)

  run_init-accepts :
      (a b c d : Bool) (s : Settings F I W)
      → run_init a b c d cfg ≡ InitRes.ok s
      → accept cfg ≡ InitRes.ok s
  unfolding run_init
  run_init-accepts a b c d s h = given (a && b) (c && (if d then false else true)) (accept cfg) h
    where
      given :
          (m n : Bool) (r : InitRes (Settings F I W))
          → (if m
              then elim r [
                | InitRes.ok t ↦ if n then InitRes.error_memory else InitRes.ok t
                | InitRes.error_memory ↦ InitRes.error_memory
                | InitRes.error_bad_args ↦ InitRes.error_bad_args
              ]
              else InitRes.error_memory)
            ≡ InitRes.ok s
          → r ≡ InitRes.ok s
      given true false (InitRes.ok t) h = h
      given true true (InitRes.ok t) h = cc
      given true n InitRes.error_memory h = cc
      given true n InitRes.error_bad_args h = cc
      given false n r h = cc

  call_inner-fail :
      (s : Settings F I W) (args : List I) (w : W)
      → (call_inner e.os (call_setup e s) args w).0 ≡ TrialRes.fail
      → (e.apply s.prop (take s.arity args) w).0 ≡ TrialRes.fail
  unfolding call_inner
  call_inner-fail s args w h = elim (Bool-cases (ltb 0 s.arity && ltb s.arity 8)) [
    | inl inside ↦ rw inside at h
    | inr outside ↦ absurd (cc (rw outside at h))
  ]

  after_init-fail :
      (fuel : Fuel) (r : InitRes (Settings F I W)) (w w' : W)
      → ((s : Settings F I W) → r ≡ InitRes.ok s → accept cfg ≡ InitRes.ok s)
      → after_init e fuel r w ≡ done (RunRes.fail, w')
      → FailsOnce
  unfolding after_init
  after_init-fail fuel (InitRes.ok s) w w' accepts h =
      let (r, ran, last) = bind-done (run_trials (setup_of e s) fuel (initial e s w)) _ h in
      let fails : r.0 ≡ RunRes.fail = cc last in
      let (args, v, f) =
        run_trials-CanFail (setup_of e s) fuel (initial e s w) r.1 refl
          (ran ∙ ap (λ (x : RunRes). done (x, r.1)) fails) in
      (s, take s.arity args, v, accepts s refl, call_inner-fail s args v f)
  after_init-fail fuel InitRes.error_memory w w' accepts h = cc
  after_init-fail fuel InitRes.error_bad_args w w' accepts h = cc

  -- theft_run, with the property called in its own process, reports FAIL for a configuration only
  -- if theft_run_init accepts it and there are arguments, and a state of the world, for which its
  -- property function of the accepted arity gives FAIL.
  pub run-FailsOnce :
      (fuel : Fuel) (memory : InitMemory) (w w' : W)
      → run e fuel memory (some cfg) w ≡ done (RunRes.fail, w')
      → FailsOnce
  unfolding run
  run-FailsOnce fuel memory w w' h =
      after_init-fail fuel (init_runner e memory cfg) w w'
        (run_init-accepts memory.runner memory.rng memory.default_hook memory.hook) h
