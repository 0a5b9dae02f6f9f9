-- ===== src/Model/Weights.antt =====
-- src/theft_autoshrink.c: the ranges of the weights, and how they move.
use theft.Base.{
  ℕ, ◌∙◌, ◌+◌, ◌-◌, ◌≤◌, ◌<◌, ◌≡◌, ◌≢◌, refl, arith, Bool, true, false, ◌&&◌, min, max,
}
use theft.Base.{none, zero, suc, Bool-cases, inl, inr, ◌==◌, ==_iff, if◌then◌else◌}
use theft.Base.Bytes.{bit_set}
use theft.Types.{TrialRes}
use theft.Model.{
  Model, init_model, new_value, clamp, adjust, update_model, signed_adjustment, weight_drop,
  model_min, model_max, drops_min, drops_max,
}

-- The range of each weight.
abbrev pub lowest : ℕ → ℕ
lowest w = if w == weight_drop then drops_min else model_min

abbrev pub highest : ℕ → ℕ
highest w = if w == weight_drop then drops_max else model_max

-- Every weight lies in its range.
abbrev pub IsModel : Model → Type 0
IsModel m = (w : ℕ) → w < 5 → (lowest w ≤ m.weights w) × (m.weights w ≤ highest w)

-- Where a weight is to go: up if the action was done and the property still fails, down if the
-- property no longer fails or if the action was tried and changed nothing, within its range.
abbrev pub moved : Bool → Bool → Bool → ℕ → ℕ → ℕ → ℕ → ℕ
moved done_it tried_it fails adjustment lo hi v =
    if done_it
    then (if fails then min (v + adjustment) hi else max (v - adjustment) lo)
    else (if tried_it && fails then max (v - adjustment) lo else v)

abbrev pub is_fail : TrialRes → Bool
is_fail TrialRes.fail = true
is_fail _ = false

adjusted-moved :
    (m : Model) (w lo hi adjustment : ℕ) (res : TrialRes)
    → 8 ≤ lo
    → hi ≤ 160
    → 0 < adjustment
    → adjustment ≤ 8
    → lo ≤ m.weights w
    → m.weights w ≤ hi
    → (adjust w lo hi (signed_adjustment res adjustment) m).weights w
      ≡ moved
          (bit_set m.cur_set w)
          (bit_set m.cur_tried w)
          (is_fail res)
          adjustment
          lo
          hi
          (m.weights w)
unfolding adjust new_value clamp
adjusted-moved m w lo hi adjustment TrialRes.fail p₁ p₂ p₃ p₄ p₅ p₆ = ground (arith, ==_iff w w)
adjusted-moved m w lo hi adjustment _ p₁ p₂ p₃ p₄ p₅ p₆ = ground (arith, ==_iff w w)

-- What `adjust` at one weight leaves alone.
record Untouched (m m' : Model) (w : ℕ) : Type 0 where
  weight : m'.weights w ≡ m.weights w
  done_set : m'.cur_set ≡ m.cur_set
  tried_set : m'.cur_tried ≡ m.cur_tried

Untouched-refl : (m : Model) (w : ℕ) → Untouched m m w
Untouched-refl m w = record { weight = refl; done_set = refl; tried_set = refl }

adjust-sets :
    (m : Model) (w lo hi a : ℕ)
    → ((adjust w lo hi a m).cur_set ≡ m.cur_set) × ((adjust w lo hi a m).cur_tried ≡ m.cur_tried)
unfolding adjust
adjust-sets m w lo hi a = ground arith

adjust-Untouched :
    (m m' : Model) (v w lo hi a : ℕ)
    → (v == w) ≡ false
    → Untouched m m' w
    → Untouched m (adjust v lo hi a m') w
adjust-Untouched m m' v w lo hi a ne u = record {
  weight = other ∙ u.weight;
  done_set = (adjust-sets m' v lo hi a).0 ∙ u.done_set;
  tried_set = (adjust-sets m' v lo hi a).1 ∙ u.tried_set;
}
  where
    other : (adjust v lo hi a m').weights w ≡ m'.weights w
    other = unfold adjust in ground arith

module _ (m : Model) (adjustment : ℕ) (res : TrialRes) (positive : 0 < adjustment)
    (small : adjustment ≤ 8) where
  -- The weight `w` after its own `adjust`, those before it having left it alone.
  adjusted_here :
      (m' : Model) (w : ℕ)
      → 8 ≤ lowest w
      → highest w ≤ 160
      → lowest w ≤ m.weights w
      → m.weights w ≤ highest w
      → Untouched m m' w
      → (adjust w (lowest w) (highest w) (signed_adjustment res adjustment) m').weights w
        ≡ moved
            (bit_set m.cur_set w)
            (bit_set m.cur_tried w)
            (is_fail res)
            adjustment
            (lowest w)
            (highest w)
            (m.weights w)
  adjusted_here m' w p₁ p₂ p₃ p₄ u =
      adjusted-moved m' w (lowest w) (highest w) adjustment res p₁ p₂ positive small
        (rw (u.weight) p₃) (rw (u.weight) p₄)
      ∙ rw (u.weight, u.done_set, u.tried_set) refl

  abbrev after_drop : Model
  after_drop = adjust 0 16 160 (signed_adjustment res adjustment) m

  abbrev after_shift : Model
  after_shift = adjust 1 8 128 (signed_adjustment res adjustment) after_drop

  abbrev after_mask : Model
  after_mask = adjust 2 8 128 (signed_adjustment res adjustment) after_shift

  abbrev after_swap : Model
  after_swap = adjust 3 8 128 (signed_adjustment res adjustment) after_mask

  abbrev after_sub : Model
  after_sub = adjust 4 8 128 (signed_adjustment res adjustment) after_swap

  -- A later adjustment of another weight.
  later :
      (m' : Model) (v w lo hi a : ℕ) (x : ℕ)
      → (v == w) ≡ false
      → m'.weights w ≡ x
      → (adjust v lo hi a m').weights w ≡ x
  later m' v w lo hi a x ne e =
      (adjust-Untouched m' m' v w lo hi a ne (Untouched-refl m' w)).weight ∙ e

  abbrev Moved : ℕ → ℕ → Type 0
  Moved w v =
      v
      ≡ moved (bit_set m.cur_set w) (bit_set m.cur_tried w) (is_fail res) adjustment (lowest w)
          (highest w) (m.weights w)

  abbrev a : ℕ
  a = signed_adjustment res adjustment

  all-Moved : IsModel m → (w : ℕ) → w < 5 → Moved w (after_sub.weights w)
  all-Moved valid zero h = later after_swap 4 0 8 128 a _ refl (
      later after_mask 3 0 8 128 a _ refl (
        later after_shift 2 0 8 128 a _ refl (
          later after_drop 1 0 8 128 a _ refl (
            adjusted_here m 0 (omega arith) (omega arith) (valid 0 h).0 (valid 0 h).1
              (Untouched-refl m 0)))))
  all-Moved valid (suc zero) h = later after_swap 4 1 8 128 a _ refl (
      later after_mask 3 1 8 128 a _ refl (
        later after_shift 2 1 8 128 a _ refl (
          adjusted_here after_drop 1 (omega arith) (omega arith) (valid 1 h).0 (valid 1 h).1
            (adjust-Untouched m m 0 1 16 160 a refl (Untouched-refl m 1)))))
  all-Moved valid (suc (suc zero)) h = later after_swap 4 2 8 128 a _ refl (
      later after_mask 3 2 8 128 a _ refl (
        adjusted_here after_shift 2 (omega arith) (omega arith) (valid 2 h).0 (valid 2 h).1 (
          adjust-Untouched m after_drop 1 2 8 128 a refl
            (adjust-Untouched m m 0 2 16 160 a refl (Untouched-refl m 2)))))
  all-Moved valid (suc (suc (suc zero))) h = later after_swap 4 3 8 128 a _ refl (
      adjusted_here after_mask 3 (omega arith) (omega arith) (valid 3 h).0 (valid 3 h).1 (
        adjust-Untouched m after_shift 2 3 8 128 a refl (
          adjust-Untouched m after_drop 1 3 8 128 a refl
            (adjust-Untouched m m 0 3 16 160 a refl (Untouched-refl m 3)))))
  all-Moved valid (suc (suc (suc (suc zero)))) h =
      adjusted_here after_swap 4 (omega arith) (omega arith) (valid 4 h).0 (valid 4 h).1 (
        adjust-Untouched m after_mask 3 4 8 128 a refl (
          adjust-Untouched m after_shift 2 4 8 128 a refl (
            adjust-Untouched m after_drop 1 4 8 128 a refl
              (adjust-Untouched m m 0 4 16 160 a refl (Untouched-refl m 4)))))
  all-Moved valid (suc (suc (suc (suc (suc w))))) h = absurd (omega arith)

  -- theft_autoshrink_update_model, on a valid model with a change to learn from, moves each weight
  -- by the adjustment (of at most 8) and within its range: up where its action was done and the
  -- trial failed; down where it was done and the trial did not fail, or where it was tried,
  -- changed nothing and the trial failed; and else not at all.
  pub update_model-moved :
      IsModel m
      → m.cur_set ≢ 0
      → (w : ℕ) → w < 5
      → (update_model res adjustment m).weights w
        ≡ moved
            (bit_set m.cur_set w)
            (bit_set m.cur_tried w)
            (is_fail res)
            adjustment
            (lowest w)
            (highest w)
            (m.weights w)
  unfolding update_model
  update_model-moved valid changed w h = elim (Bool-cases (m.cur_set == 0)) [
    | inl none' ↦ absurd (changed ((==_iff m.cur_set 0).0 none'))
    | inr some' ↦ rw (some', update_model) (all-Moved valid w h)
  ]

  -- theft_autoshrink_update_model with an adjustment from 1 to 8 keeps every weight of a valid
  -- model in its range.
  pub update_model-IsModel : IsModel m → IsModel (update_model res adjustment m)
  unfolding update_model
  update_model-IsModel valid w h = elim (Bool-cases (m.cur_set == 0)) [
    | inl none' ↦ rw (none', update_model) (valid w h)
    | inr some' ↦ ground (arith, all-Moved valid w h, valid w h)
  ]

-- `init_model` gives a valid model, unless a test has scheduled an action.
pub init_model-IsModel : (m : Model) → m.next_action ≡ none → IsModel (init_model m)
unfolding init_model
init_model-IsModel m e zero h = rw (e, init_model) (omega arith, omega arith)
init_model-IsModel m e (suc zero) h = rw (e, init_model) (omega arith, omega arith)
init_model-IsModel m e (suc (suc zero)) h = rw (e, init_model) (omega arith, omega arith)
init_model-IsModel m e (suc (suc (suc zero))) h = rw (e, init_model) (omega arith, omega arith)
init_model-IsModel m e (suc (suc (suc (suc zero)))) h =
    rw (e, init_model) (omega arith, omega arith)
init_model-IsModel m e (suc (suc (suc (suc (suc w))))) h = absurd (omega arith)
