-- ===== src/Init.antt =====
-- src/theft_run.c: what `theft_run_init` accepts, and the settings that it derives. A pointer of
-- the configuration that may be NULL is an option.
pub mod Accepted
mod Tests
use theft.Base.{ℕ, zero, suc, ◌+◌, ◌*◌, Bool, true, false, ◌&&◌, Option, none, some, List, [], ◌∷◌}
use theft.Base.{get_or, ◌==◌, if◌then◌else◌}
use theft.Types.{AllocRes, ShrinkRes}

abbrev pub max_arity : ℕ
max_arity = 7

abbrev pub default_seed : ℕ
default_seed = 0xa600d64b175eed

abbrev pub default_trials : ℕ
default_trials = 100

-- `struct theft_type_info`, as the user gives it.
pub record TypeConfig (I W : Type 0) : Type 0 where
  pub alloc : Option (W → AllocRes × I × W)
  pub free : Option (I → W → W)
  pub hash : Option (I → W → ℕ)
  pub shrink : Option (I → ℕ → W → ShrinkRes × I × W)
  pub autoshrink : Bool

-- `struct theft_run_config`: the property functions by arity, the type infos and the seeds. `F`
-- is the type of property functions.
pub record RunConfig (F I W : Type 0) : Type 0 where
  pub props : ℕ → Option F
  pub type_info : List (Option (TypeConfig I W))
  pub trials : ℕ
  pub seed : ℕ
  pub always_seeds : Option (List ℕ)

-- `enum theft_run_init_res`
pub data InitRes (A : Type 0) : Type 0 where
  ok : A → InitRes A
  error_memory error_bad_args : InitRes A

-- What is kept of the configuration in `struct theft`, and whether a bloom filter is wanted.
pub record Settings (F I W : Type 0) : Type 0 where
  pub arity : ℕ
  pub prop : F
  pub type_info : List (Option (TypeConfig I W))
  pub trial_count : ℕ
  pub run_seed : ℕ
  pub always_seeds : List ℕ
  pub all_hashable : Bool

abbrev pub is_given : {A : Type 0} → Option A → Bool
is_given none = false
is_given (some x) = true

module _ {I W : Type 0} where
  -- `cfg->type_info[i]`
  abbrev pub type_at : List (Option (TypeConfig I W)) → ℕ → Option (TypeConfig I W)
  type_at infos i = get_or infos i none

  -- `infer_arity`, from index `i` on.
  unfoldable pub infer_from : ℕ → ℕ → List (Option (TypeConfig I W)) → ℕ
  infer_from zero i infos = i
  infer_from (suc left) i infos =
      let later = infer_from left (i + 1) infos in if is_given (type_at infos i) then later else i

  unfoldable pub infer_arity : List (Option (TypeConfig I W)) → ℕ
  infer_arity infos = infer_from max_arity 0 infos

  -- The checks of one argument: whether it is accepted, and whether it can be hashed.
  abbrev pub is_accepted : TypeConfig I W → Bool
  is_accepted ti =
      if is_given ti.alloc
      then (if ti.autoshrink && is_given ti.shrink then false else true)
      else false

  abbrev pub is_hashable : TypeConfig I W → Bool
  is_hashable ti = if is_given ti.hash then true else ti.autoshrink

  -- `check_all_args` from index `i` on: none where an argument is refused, and else whether all
  -- can be hashed. An index with no type info is not reached, as it ends the arity.
  unfoldable pub check_args : ℕ → ℕ → Bool → List (Option (TypeConfig I W)) → Option Bool
  check_args zero i all_hashable infos = some all_hashable
  check_args (suc left) i all_hashable infos = elim (type_at infos i) [
    | none ↦ none
    | some ti ↦
        let later = check_args left (i + 1) (all_hashable && is_hashable ti) infos in
        if is_accepted ti then later else none
  ]

module _ {F I W : Type 0} where
  -- What is copied from the configuration, with its defaults.
  abbrev pub settings : RunConfig F I W → ℕ → F → Bool → Settings F I W
  settings cfg arity prop all_hashable = record {
    arity = arity;
    prop = prop;
    type_info = cfg.type_info;
    trial_count = if cfg.trials == 0 then default_trials else cfg.trials;
    run_seed = if cfg.seed == 0 then default_seed else cfg.seed;
    always_seeds = elim (cfg.always_seeds) [ none ↦ [] | some seeds ↦ seeds ];
    all_hashable = all_hashable;
  }

  -- `theft_run_init` once it has memory for the runner and the generator.
  unfoldable pub accept : RunConfig F I W → InitRes (Settings F I W)
  accept cfg =
      let arity = infer_arity cfg.type_info in
      if arity == 0 then error_bad_args else elim (check_args arity 0 true cfg.type_info) [
        | none ↦ error_bad_args
        | some all_hashable ↦ elim (cfg.props arity) [
          | none ↦ error_bad_args
          | some prop ↦ ok (settings cfg arity prop all_hashable)
        ]
      ]

  -- Its memory: for the runner, for the generator, and for the state of the printing hook, which
  -- is asked for where that hook is the default.
  unfoldable pub run_init : Bool → Bool → Bool → Bool → RunConfig F I W → InitRes (Settings F I W)
  run_init memory rng_memory default_hook hook_memory cfg =
      if memory && rng_memory
      then elim (accept cfg) [
        | ok settings ↦
            if default_hook && (if hook_memory then false else true)
            then error_memory
            else ok settings
        | error_memory ↦ error_memory
        | error_bad_args ↦ error_bad_args
      ]
      else error_memory
