-- ===== src/Model/Tests.antt =====
-- The model after a trial that had dropped requests, tried to shift, and failed.
use theft.Base.{◌^◌, ◌≤◌, ◌≡◌, ◌↔◌, refl, arith, none}
use theft.Base.Bytes.{bit_set}
use theft.Types.{TrialRes}
use theft.Model.{
  Model, initial_weights, init_model, update_model, adjust, new_value, clamp, mutation_of,
  mutation_sum, bit_count,
}
use theft.Model.Draws.{bit_count_lem}
use theft.Model.Weights.{
  lowest, highest, IsModel, moved, is_fail, update_model-moved, update_model-IsModel,
  init_model-IsModel,
}

abbrev blank : Model
blank = record { cur_tried = 0; cur_set = 0; next_action = none; weights = λ w. 0 }

-- DROP was done, and SHIFT tried.
abbrev busy : Model
busy = record { cur_tried = 3; cur_set = 1; next_action = none; weights = initial_weights }

busy-IsModel : IsModel busy
unfolding init_model
busy-IsModel = init_model-IsModel blank refl

update_model-moved_example :
    (update_model TrialRes.fail 8 busy).weights 1
    ≡ moved
        (bit_set busy.cur_set 1)
        (bit_set busy.cur_tried 1)
        (is_fail TrialRes.fail)
        8
        (lowest 1)
        (highest 1)
        (busy.weights 1)
update_model-moved_example =
    update_model-moved busy 8 TrialRes.fail (omega arith) (omega arith) busy-IsModel
      (λ e. omega (arith, e)) 1 (omega arith)

drop_goes_up : (update_model TrialRes.fail 8 busy).weights 0 ≡ 0x88
unfolding update_model adjust new_value clamp
drop_goes_up = refl

shift_goes_down : (update_model TrialRes.fail 8 busy).weights 1 ≡ 0x38
unfolding update_model adjust new_value clamp
shift_goes_down = refl

update_model-IsModel_example : IsModel (update_model TrialRes.pass 8 busy)
update_model-IsModel_example =
    update_model-IsModel busy 8 TrialRes.pass (omega arith) (omega arith) busy-IsModel

bit_count_lem_example :
    (bit_count busy.weights ≤ 9)
    × (mutation_sum busy.weights ≤ 2 ^ bit_count busy.weights)
    × ((mutation_of busy.weights 7 ≡ none) ↔ (mutation_sum busy.weights ≤ 7))
bit_count_lem_example = bit_count_lem busy 7 busy-IsModel
