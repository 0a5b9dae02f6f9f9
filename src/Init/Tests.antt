-- ===== src/Init/Tests.antt =====
-- A configuration of one argument.
use theft.Base.{ℕ, zero, suc, ◌≤◌, ◌≡◌, refl, arith, true, Option, none, some, [], ◌∷◌}
use theft.Types.{AllocRes}
use theft.Init.{
  TypeConfig, RunConfig, ok, error_bad_args, Settings, settings, accept, infer_arity, infer_from,
  check_args,
}
use theft.Init.Accepted.{Checked, accept-arity, accept-Checked}

abbrev number : TypeConfig ℕ ℕ
number = record {
  alloc = some (λ w. (AllocRes.ok, w, w));
  free = none;
  hash = some (λ x w. x);
  shrink = none;
  autoshrink = true;
}

abbrev by_arity : ℕ → Option ℕ
by_arity (suc zero) = some 42
by_arity _ = none

abbrev config : RunConfig ℕ ℕ ℕ
config = record {
  props = by_arity;
  type_info = some number ∷ none ∷ [];
  trials = 0;
  seed = 0;
  always_seeds = none;
}

abbrev accepted : Settings ℕ ℕ ℕ
accepted = settings config 1 42 true

accepts : accept config ≡ ok accepted
unfolding accept infer_arity infer_from check_args
accepts = refl

-- With a second argument there is no property function of the arity.
refuses_two : accept (record config { type_info = some number ∷ some number ∷ [] }) ≡ error_bad_args
unfolding accept infer_arity infer_from check_args
refuses_two = refl

accept-arity_example :
    (1 ≤ accepted.arity) × (accepted.arity ≤ 7) × (config.props accepted.arity ≡ some accepted.prop)
accept-arity_example = accept-arity config accepted accepts

accept-Checked_example : Checked config.type_info 0 accepted.all_hashable
accept-Checked_example = accept-Checked config accepted 0 accepts (omega arith)
