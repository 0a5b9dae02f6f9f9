-- ===== src/Model.antt =====
-- src/theft_autoshrink.c: the weights by which the autoshrinker chooses its next action.
pub mod Weights
pub mod Draws
mod Tests
use theft.Base.{
  ℕ, ◌+◌, ◌-◌, ◌*◌, ◌^◌, Bool, true, false, ◌&&◌, if◌then◌else◌, ltb, ◌==◌, bit_and, Option, none,
  some, zero, suc, List, [], ◌∷◌,
}
use theft.Base.Bytes.{bit_set}
use theft.Base.Words.{u8}
use theft.Types.{TrialRes, Outcome, done, aborted, no_fuel}

-- `enum autoshrink_action`, which `next_action` may hold, and `enum mutation`.
pub data Action : Type 0 where
  drop shift mask swap sub : Action

pub data Mutation : Type 0 where
  shift mask swap sub : Mutation

-- `enum autoshrink_weight`; the flag of a weight is the bit of its number.
abbrev pub weight_drop : ℕ
weight_drop = 0

abbrev pub weight_shift : ℕ
weight_shift = 1

abbrev pub weight_mask : ℕ
weight_mask = 2

abbrev pub weight_swap : ℕ
weight_swap = 3

abbrev pub weight_sub : ℕ
weight_sub = 4

abbrev pub two_evenly : ℕ
two_evenly = 0x80

abbrev pub four_evenly : ℕ
four_evenly = 0x40

abbrev pub model_min : ℕ
model_min = 0x08

abbrev pub model_max : ℕ
model_max = 0x80

abbrev pub drops_min : ℕ
drops_min = 0x10

abbrev pub drops_max : ℕ
drops_max = 0xA0

-- `struct autoshrink_model`. The two sets of actions are bit masks, and no next action is the
-- 0x00 of the source.
pub record Model : Type 0 where
  pub cur_tried : ℕ
  pub cur_set : ℕ
  pub next_action : Option Action
  pub weights : ℕ → ℕ

abbrev pub set_weight : ℕ → ℕ → (ℕ → ℕ) → ℕ → ℕ
set_weight w v weights j = if w == j then v else weights j

abbrev pub initial_weights : ℕ → ℕ
initial_weights = set_weight weight_drop two_evenly (
    set_weight weight_shift four_evenly (
      set_weight weight_mask four_evenly
        (set_weight weight_swap (four_evenly - 0x10) (set_weight weight_sub four_evenly (λ _. 0)))))

-- `init_model`; a test may have an action scheduled.
unfoldable pub init_model : Model → Model
init_model m = elim (m.next_action) [
  | some a ↦ m
  | none ↦ record { cur_tried = 0; cur_set = 0; next_action = none; weights = initial_weights }
]

-- An `int8_t`, as its bit pattern, that is greater than 0.
abbrev pub is_positive : ℕ → Bool
is_positive adjustment = ltb 0 adjustment && ltb adjustment 128

-- `nv` of `adjust`, before the clamp; 0 asks for no change.
unfoldable pub new_value : Model → ℕ → ℕ → ℕ
new_value m w adjustment =
    if bit_set m.cur_set w
    then u8 (m.weights w + adjustment)
    else (if bit_set m.cur_tried w && is_positive adjustment
        then u8 (m.weights w + 256 - adjustment)
        else 0)

unfoldable pub clamp : ℕ → ℕ → ℕ → ℕ
clamp lo hi nv = if ltb hi nv then hi else (if ltb nv lo then lo else nv)

unfoldable pub adjust : ℕ → ℕ → ℕ → ℕ → Model → Model
adjust w lo hi adjustment m =
    let nv = new_value m w adjustment in
    if nv == 0 then m else record m { weights = set_weight w (clamp lo hi nv) m.weights }

-- `uint8_t adj = (res == THEFT_TRIAL_FAIL ? adjustment : -adjustment)`
abbrev pub signed_adjustment : TrialRes → ℕ → ℕ
signed_adjustment TrialRes.fail adjustment = adjustment
signed_adjustment _ adjustment = u8 (256 - adjustment)

-- `theft_autoshrink_update_model`, for a type with autoshrinking.
unfoldable pub update_model : TrialRes → ℕ → Model → Model
update_model res adjustment m =
    let adj = signed_adjustment res adjustment in
    if m.cur_set == 0
    then m
    else adjust weight_sub model_min model_max adj (
        adjust weight_swap model_min model_max adj (
          adjust weight_mask model_min model_max adj (
            adjust weight_shift model_min model_max adj
              (adjust weight_drop drops_min drops_max adj m))))

-- `theft_autoshrink_model_set_next`
unfoldable pub set_next : Action → Model → Model
set_next action m = record m { next_action = some action }

-- `should_drop`, at the number of requests and, if no action is scheduled, eight random bits.
unfoldable pub should_drop : Model → ℕ → ℕ → Bool
should_drop m request_count bits = elim (m.next_action) [
  | none ↦
      let weight = m.weights weight_drop in
      ltb bits (if ltb (8 * request_count) weight then u8 (8 * request_count) else weight)
  | some Action.drop ↦ true
  | some _ ↦ false
]

-- The limit that `get_weighted_mutation` draws below.
abbrev pub mutation_sum : (ℕ → ℕ) → ℕ
mutation_sum weights =
    weights weight_shift + weights weight_mask + weights weight_swap + weights weight_sub

-- Its loop for the number of bits to draw; 16 rounds are enough, since the limit is below 2 ^ 16.
unfoldable pub bit_count_from : ℕ → ℕ → ℕ → ℕ
bit_count_from zero bits sum = bits
bit_count_from (suc fuel) bits sum =
    let more = bit_count_from fuel (bits + 1) sum in if ltb (2 ^ bits) sum then more else bits

unfoldable pub bit_count : (ℕ → ℕ) → ℕ
unfolding bit_count_from
bit_count weights = bit_count_from 16 7 (mutation_sum weights)

-- `get_weighted_mutation`: what one draw of its loop names. `none` draws again.
unfoldable pub mutation_of : (ℕ → ℕ) → ℕ → Option Mutation
mutation_of weights bits =
    let shift = weights weight_shift in
    let mask = shift + weights weight_mask in
    let swap = mask + weights weight_swap in
    let sub = swap + weights weight_sub in
    if ltb bits shift
    then some Mutation.shift
    else (if ltb bits mask
        then some Mutation.mask
        else (if ltb bits swap
            then some Mutation.swap
            else (if ltb bits sub then some Mutation.sub else none)))
