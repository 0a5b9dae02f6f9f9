-- ===== src/Theft.antt =====
-- src/theft_types_internal.h and inc/theft_types.h: `struct theft`, in two parts. `Setup` is what
-- does not change during a run: the property, its arguments' callbacks and the hooks. `Theft` is
-- what does. `I` is the type of the pointers to instances, `P` that of the pointers to bit pools,
-- and `W` the state that callbacks, hooks, the PRNG and the memory share.
pub mod Update
use theft.Base.{ℕ, zero, suc, ◌+◌, Bool, Option, none, some, List, [], ◌∷◌}
use theft.Base.{◌==◌, if◌then◌else◌}
use theft.Bloom.{Bloom}
use theft.Types.{
  TrialRes, AllocRes, ShrinkRes, RunPreRes, RunPostRes, GenArgsPreRes, TrialPreRes, TrialPostRes,
  CounterexampleRes, ShrinkPreRes, ShrinkPostRes, ShrinkPostState, ShrinkTrialPostRes,
}

-- `struct theft_type_info`; a callback that may be NULL is an option.
pub record TypeInfo (I P W : Type 0) : Type 0 where
  pub alloc : W → AllocRes × I × W
  pub free : Option (I → W → W)
  pub hash : Option (I → W → ℕ)
  pub shrink : Option (I → ℕ → W → ShrinkRes × I × W)
  pub autoshrink : Bool

-- What src/theft_autoshrink.c offers to the runner, for the argument of an index.
pub record Autoshrink (I P W : Type 0) : Type 0 where
  pub alloc_env : ℕ → W → Bool × W
  pub free_env : ℕ → Option P → W → W
  pub alloc : ℕ → W → AllocRes × I × Option P × W
  pub hash : ℕ → I → Option P → W → ℕ
  pub shrink : ℕ → Option P → ℕ → W → ShrinkRes × I × Option P × W
  pub free_bit_pool : Option P → W → W
  pub update_model : ℕ → TrialRes → ℕ → W → W

-- `struct arg_info`: the instance, and the bit pool of its autoshrink environment.
pub record ArgInfo (I P : Type 0) : Type 0 where
  pub instance_of : I
  pub bit_pool : Option P

-- `struct trial_info`
pub record TrialInfo (I P : Type 0) : Type 0 where
  pub trial : ℕ
  pub seed : ℕ
  pub shrink_count : ℕ
  pub successful_shrinks : ℕ
  pub failed_shrinks : ℕ
  pub args : ℕ → ArgInfo I P

-- `struct counter_info`
pub record Counters : Type 0 where
  pub pass : ℕ
  pub fail : ℕ
  pub skip : ℕ
  pub dup : ℕ

pub record Theft (I P W : Type 0) : Type 0 where
  pub bloom : Option Bloom
  pub counters : Counters
  pub trial : TrialInfo I P
  pub world : W

-- `struct theft_hook_gen_args_pre_info`, `struct theft_hook_trial_pre_info`: the fields that vary.
pub record PreInfo : Type 0 where
  pub trial_id : ℕ
  pub trial_seed : ℕ
  pub failures : ℕ

-- `struct theft_hook_trial_post_info`
pub record TrialPostInfo (I : Type 0) : Type 0 where
  pub trial_id : ℕ
  pub trial_seed : ℕ
  pub failures : ℕ
  pub args : List I
  pub result : TrialRes
  pub repeated : Bool

-- `struct theft_hook_counterexample_info`
pub record CounterexampleInfo (I : Type 0) : Type 0 where
  pub trial_id : ℕ
  pub trial_seed : ℕ
  pub args : List I

-- What the three hooks of shrinking are told alike. Those before and after a trial are told the
-- number of failures too.
pub record ShrinkInfo : Type 0 where
  pub trial_id : ℕ
  pub trial_seed : ℕ
  pub shrink_count : ℕ
  pub successful_shrinks : ℕ
  pub failed_shrinks : ℕ
  pub arg_index : ℕ
  pub tactic : ℕ

-- `struct hook_info`
pub record Hooks (I W : Type 0) : Type 0 where
  pub run_pre : Option (W → RunPreRes × W)
  pub run_post : Option (Counters → W → RunPostRes × W)
  pub gen_args_pre : Option (PreInfo → W → GenArgsPreRes × W)
  pub trial_pre : Option (PreInfo → W → TrialPreRes × W)
  pub trial_post : TrialPostInfo I → W → TrialPostRes × W
  pub counterexample : Option (CounterexampleInfo I → W → CounterexampleRes × W)
  pub shrink_pre : Option (ℕ → ShrinkInfo → I → W → ShrinkPreRes × W)
  pub shrink_post : Option (ShrinkInfo → I → ShrinkPostState → W → ShrinkPostRes × W)
  pub shrink_trial_post : Option (ℕ → ShrinkInfo → List I → TrialRes → W → ShrinkTrialPostRes × W)

-- The rest of `struct theft`: property, arguments, seeds and hooks. `call` is `theft_call`,
-- `set_seed` and `random` are the PRNG, and `malloc` is the memory for the bloom filter.
pub record Setup (I P W : Type 0) : Type 0 where
  pub null : I
  pub is_null : I → Bool
  pub arity : ℕ
  pub type_info : ℕ → TypeInfo I P W
  pub trial_count : ℕ
  pub run_seed : ℕ
  pub always_seeds : List ℕ
  pub hooks : Hooks I W
  pub call : List I → W → TrialRes × W
  pub autoshrink : Autoshrink I P W
  pub set_seed : ℕ → W → W
  pub random : W → ℕ × W
  pub malloc : W → ℕ → Bool

module _ {I P : Type 0} where
  -- `t->trial.args[i] = a`
  abbrev pub update : (ℕ → ArgInfo I P) → ℕ → ArgInfo I P → ℕ → ArgInfo I P
  update args i a j = if i == j then a else args j

  -- The instances from index `i` on, as many as are left: `theft_trial_get_args`.
  abbrev pub instances : ℕ → ℕ → (ℕ → ArgInfo I P) → List I
  instances zero i args = []
  instances (suc left) i args = (args i).instance_of ∷ instances left (i + 1) args

module _ {I P W : Type 0} where
  abbrev pub arg : ℕ → Theft I P W → ArgInfo I P
  arg i t = t.trial.args i

  abbrev pub set_arg : ℕ → ArgInfo I P → Theft I P W → Theft I P W
  set_arg i a t = record t { trial = record (t.trial) { args = update t.trial.args i a } }

  abbrev pub set_world : W → Theft I P W → Theft I P W
  set_world w t = record t { world = w }

  -- A free callback that may be NULL.
  abbrev pub free_instance : TypeInfo I P W → I → W → W
  free_instance ti x w = elim (ti.free) [ none ↦ w | some f ↦ f x w ]
