-- ===== src/Entry.antt =====
-- src/theft.c: `theft_run`, from a configuration to the result of its trials, with the property
-- called in this process; and `theft_generate`.
pub mod Failing
mod Tests
use theft.Base.{ℕ, zero, suc, Bool, true, false, Option, none, some, List, [], ◌∷◌}
use theft.Base.{if◌then◌else◌}
use theft.Types.{TrialRes, AllocRes, RunRes, Outcome, done, ◌>>=◌}
use theft.Bloom
use theft.Theft.{Setup, Theft, TypeInfo, Autoshrink, Hooks}
use theft.Init.{TypeConfig, RunConfig, Settings, InitRes, type_at, run_init}
use theft.Worker.{System, CallSetup, call_inner}
use theft.Trial.{Fuel}
use theft.Run.{run_trials}

-- What a run is surrounded by: the hooks, with the defaults for those that are not given, the
-- autoshrinker, the generator, the memory, and how a property function is called.
pub record Surroundings (F I P W : Type 0) : Type 0 where
  pub null : I
  pub is_null : I → Bool
  pub hooks : Hooks I W
  pub autoshrink : Autoshrink I P W
  pub set_seed : ℕ → W → W
  pub random : W → ℕ × W
  pub malloc : W → ℕ → Bool
  pub os : System W
  pub apply : F → List I → W → TrialRes × W

-- Whether `theft_run_init` is given its memory: for the runner, the generator and, where the
-- printing hook is the default, its state.
pub record InitMemory : Type 0 where
  pub runner : Bool
  pub rng : Bool
  pub default_hook : Bool
  pub hook : Bool

-- `enum theft_generate_res`
pub data GenerateRes : Type 0 where
  ok skip error_alloc error_memory error_bad_args : GenerateRes

-- The only property function of a configuration is that of one argument.
abbrev pub prop1 : {F : Type 0} → F → ℕ → Option F
prop1 f (suc zero) = some f
prop1 f _ = none

module _ {F I P W : Type 0} (e : Surroundings F I P W) where
  -- The callbacks of an argument; an accepted configuration has an alloc callback for each.
  abbrev pub type_info_of : Option (TypeConfig I W) → TypeInfo I P W
  type_info_of none = record {
    alloc = λ w. (AllocRes.error, e.null, w);
    free = none;
    hash = none;
    shrink = none;
    autoshrink = false;
  }
  type_info_of (some ti) = record {
    alloc = λ w. elim (ti.alloc) [ none ↦ (AllocRes.error, e.null, w) | some f ↦ f w ];
    free = ti.free;
    hash = ti.hash;
    shrink = ti.shrink;
    autoshrink = ti.autoshrink;
  }

  -- What `theft_call_inner` reads of the runner.
  abbrev pub call_setup : Settings F I W → CallSetup I W
  call_setup s = record {
    arity = s.arity;
    prop = e.apply s.prop;
    own_exit = λ args w. none;
    fork = record { enable = false; timeout = 0; signal = 0; exit_timeout = 0 };
    fork_post = none;
    total_trials = s.trial_count;
    failures = 0;
    run_seed = s.run_seed;
  }

  -- The runner that `theft_run_init` makes: the part that stays, and the part that changes.
  abbrev pub setup_of : Settings F I W → Setup I P W
  setup_of s = record {
    null = e.null;
    is_null = e.is_null;
    arity = s.arity;
    type_info = λ i. type_info_of (type_at s.type_info i);
    trial_count = s.trial_count;
    run_seed = s.run_seed;
    always_seeds = s.always_seeds;
    hooks = e.hooks;
    call = call_inner e.os (call_setup s);
    autoshrink = e.autoshrink;
    set_seed = e.set_seed;
    random = e.random;
    malloc = e.malloc;
  }

  abbrev pub initial : Settings F I W → W → Theft I P W
  initial s w = record {
    bloom = if s.all_hashable then Bloom.init (e.malloc w) none else none;
    counters = record { pass = 0; fail = 0; skip = 0; dup = 0 };
    trial = record {
      trial = 0;
      seed = 0;
      shrink_count = 0;
      successful_shrinks = 0;
      failed_shrinks = 0;
      args = λ i. record { instance_of = e.null; bit_pool = none };
    };
    world = e.set_seed s.run_seed w;
  }

  abbrev pub init_runner : InitMemory → RunConfig F I W → InitRes (Settings F I W)
  init_runner memory cfg = run_init memory.runner memory.rng memory.default_hook memory.hook cfg

  -- `theft_run` once `theft_run_init` has returned.
  unfoldable pub after_init : Fuel → InitRes (Settings F I W) → W → Outcome (RunRes × W)
  after_init fuel (InitRes.ok s) w =
      run_trials (setup_of s) fuel (initial s w) >>= λ r. done (r.0, (r.1).world)
  after_init fuel InitRes.error_memory w = done (RunRes.error_memory, w)
  after_init fuel InitRes.error_bad_args w = done (RunRes.error_bad_args, w)

  -- `theft_run`
  unfoldable pub run : Fuel → InitMemory → Option (RunConfig F I W) → W → Outcome (RunRes × W)
  run fuel memory none w = done (RunRes.error_bad_args, w)
  run fuel memory (some cfg) w = after_init fuel (init_runner memory cfg) w

  -- What becomes of an instance: it is printed, and freed, each if there is a callback for it.
  abbrev pub shown : TypeConfig I W → Option (I → W → W) → AllocRes × I × W → GenerateRes × W
  shown ti print (AllocRes.ok, x, w) =
      let printed : W = elim print [ none ↦ w | some f ↦ f x w ] in
      (GenerateRes.ok, elim (ti.free) [ none ↦ printed | some f ↦ f x printed ])
  shown ti print (AllocRes.skip, x, w) = (GenerateRes.skip, w)
  shown ti print (AllocRes.error, x, w) = (GenerateRes.error_alloc, w)

  -- `theft_generate`; `should_not_run` is its property function.
  unfoldable pub generate :
      InitMemory → F → ℕ → Option (TypeConfig I W) → Option (I → W → W) → W → GenerateRes × W
  generate memory should_not_run seed info print w =
      let cfg : RunConfig F I W = record {
        props = prop1 should_not_run;
        type_info = info ∷ [];
        trials = 0;
        seed = seed;
        always_seeds = none;
      } in
      elim (init_runner memory cfg) [
        | InitRes.error_memory ↦ (GenerateRes.error_memory, w)
        | InitRes.error_bad_args ↦ (GenerateRes.error_bad_args, w)
        | InitRes.ok s ↦ elim info [
          | none ↦ (GenerateRes.error_bad_args, w)
          | some ti ↦ shown ti print ((type_info_of (some ti)).alloc (e.set_seed s.run_seed w))
        ]
      ]
