-- ===== src/Types.antt =====
-- inc/theft_types.h, src/theft_shrink_internal.h, src/theft_run_internal.h: the result types that
-- the callbacks, the hooks and the parts of the runner speak in.

use theft.Base.{◌≡◌, ◌≢◌, refl, Bool, true, false, if◌then◌else◌}

-- `enum theft_trial_res`
pub data TrialRes : Type 0 where
  pass fail skip dup error : TrialRes

-- `enum theft_run_res`
pub data RunRes : Type 0 where
  pass fail skip error error_memory error_bad_args : RunRes

-- `enum theft_alloc_res`
pub data AllocRes : Type 0 where
  ok skip error : AllocRes

-- `enum theft_shrink_res`
pub data ShrinkRes : Type 0 where
  ok dead_end no_more_tactics error : ShrinkRes

-- `enum shrink_res`
pub data ShrinkArgRes : Type 0 where
  ok dead_end halt error : ShrinkArgRes

-- `enum run_step_res`
pub data RunStepRes : Type 0 where
  ok halt gen_error trial_error : RunStepRes

-- `enum all_gen_res`
pub data AllGenRes : Type 0 where
  ok skip dup error : AllGenRes

-- The results of the hooks.
pub data RunPreRes : Type 0 where
  error continue : RunPreRes

pub data RunPostRes : Type 0 where
  error continue : RunPostRes

pub data GenArgsPreRes : Type 0 where
  error continue halt : GenArgsPreRes

pub data TrialPreRes : Type 0 where
  error continue halt : TrialPreRes

pub data TrialPostRes : Type 0 where
  error continue repeat repeat_once : TrialPostRes

pub data CounterexampleRes : Type 0 where
  continue error : CounterexampleRes

pub data ShrinkPreRes : Type 0 where
  error continue halt : ShrinkPreRes

pub data ShrinkPostRes : Type 0 where
  error continue : ShrinkPostRes

-- `enum theft_shrink_post_state`
pub data ShrinkPostState : Type 0 where
  shrink_failed shrunk done_shrinking : ShrinkPostState

pub data ShrinkTrialPostRes : Type 0 where
  error continue repeat repeat_once : ShrinkTrialPostRes

-- What ends in no result: a failed assertion, or a loop that used up the rounds it was given.
pub data Outcome (A : Type 0) : Type 0 where
  done : A → Outcome A
  aborted no_fuel : Outcome A

infixl 5 ◌>>=◌
abbrev pub ◌>>=◌ : {A B : Type 0} → Outcome A → (A → Outcome B) → Outcome B
done a >>= f = f a
aborted >>= f = aborted
no_fuel >>= f = no_fuel

-- What holds of the result, where there is one.
abbrev pub Ensures : {A : Type 0} → (A → Type 0) → Outcome A → Type 0
Ensures Q (done a) = Q a
Ensures Q aborted = Unit
Ensures Q no_fuel = Unit

pub Ensures-bind :
    {A B : Type 0} (Q : A → Type 0) (R : B → Type 0) (m : Outcome A) (f : A → Outcome B)
    → Ensures Q m
    → ((a : A) → Q a → Ensures R (f a))
    → Ensures R (m >>= f)
Ensures-bind Q R (done a) f h k = k a h
Ensures-bind Q R aborted f h k = tt
Ensures-bind Q R no_fuel f h k = tt

pub Ensures-any : {A : Type 0} (m : Outcome A) → Ensures (λ r. Unit) m
Ensures-any (done a) = tt
Ensures-any aborted = tt
Ensures-any no_fuel = tt

pub Ensures-if :
    {A : Type 0} (Q : A → Type 0) (b : Bool) (m n : Outcome A)
    → Ensures Q m
    → Ensures Q n
    → Ensures Q (if b then m else n)
Ensures-if Q true m n h k = h
Ensures-if Q false m n h k = k

pub Ensures-done :
    {A : Type 0} (Q : A → Type 0) (m : Outcome A) (a : A) → Ensures Q m → m ≡ done a → Q a
Ensures-done Q m a h e = rw e at h

pub Ensures-weaken :
    {A : Type 0} (Q R : A → Type 0) (m : Outcome A)
    → ((a : A) → Q a → R a)
    → Ensures Q m
    → Ensures R m
Ensures-weaken Q R (done a) f h = f a h
Ensures-weaken Q R aborted f h = tt
Ensures-weaken Q R no_fuel f h = tt

-- The code ends: not for want of fuel, and where it returns, with what is said of the result.
abbrev pub Returns : {A : Type 0} → (A → Type 0) → Outcome A → Type 0
Returns Q (done a) = Q a
Returns Q aborted = Unit
Returns Q no_fuel = ⊥

pub Returns-bind :
    {A B : Type 0} (Q : A → Type 0) (R : B → Type 0) (m : Outcome A) (f : A → Outcome B)
    → Returns Q m
    → ((a : A) → Q a → Returns R (f a))
    → Returns R (m >>= f)
Returns-bind Q R (done a) f h k = k a h
Returns-bind Q R aborted f h k = tt
Returns-bind Q R no_fuel f h k = absurd h

pub Returns-ne : {A : Type 0} (Q : A → Type 0) (m : Outcome A) → Returns Q m → m ≢ no_fuel
Returns-ne Q (done a) h e = cc
Returns-ne Q aborted h e = cc
Returns-ne Q no_fuel h e = h

-- The code returns, with what is said of the result.
abbrev pub Finishes : {A : Type 0} → (A → Type 0) → Outcome A → Type 0
Finishes Q (done a) = Q a
Finishes Q aborted = ⊥
Finishes Q no_fuel = ⊥

pub Finishes-bind :
    {A B : Type 0} (Q : A → Type 0) (R : B → Type 0) (m : Outcome A) (f : A → Outcome B)
    → Finishes Q m
    → ((a : A) → Q a → Finishes R (f a))
    → Finishes R (m >>= f)
Finishes-bind Q R (done a) f h k = k a h
Finishes-bind Q R aborted f h k = absurd h
Finishes-bind Q R no_fuel f h k = absurd h

pub Finishes-done :
    {A : Type 0} (Q : A → Type 0) (m : Outcome A) → Finishes Q m → (a : A) × (m ≡ done a) × Q a
Finishes-done Q (done a) h = (a, refl, h)
Finishes-done Q aborted h = absurd h
Finishes-done Q no_fuel h = absurd h

pub Finishes-weaken :
    {A : Type 0} (Q R : A → Type 0) (m : Outcome A)
    → ((a : A) → Q a → R a)
    → Finishes Q m
    → Finishes R m
Finishes-weaken Q R (done a) f h = f a h
Finishes-weaken Q R aborted f h = h
Finishes-weaken Q R no_fuel f h = h

-- The code fails no assertion, with what is said of the result where it returns.
abbrev pub Survives : {A : Type 0} → (A → Type 0) → Outcome A → Type 0
Survives Q (done a) = Q a
Survives Q aborted = ⊥
Survives Q no_fuel = Unit

pub Survives-bind :
    {A B : Type 0} (Q : A → Type 0) (R : B → Type 0) (m : Outcome A) (f : A → Outcome B)
    → Survives Q m
    → ((a : A) → Q a → Survives R (f a))
    → Survives R (m >>= f)
Survives-bind Q R (done a) f h k = k a h
Survives-bind Q R aborted f h k = absurd h
Survives-bind Q R no_fuel f h k = tt

pub Survives-weaken :
    {A : Type 0} (Q R : A → Type 0) (m : Outcome A)
    → ((a : A) → Q a → R a)
    → Survives Q m
    → Survives R m
Survives-weaken Q R (done a) f h = f a h
Survives-weaken Q R aborted f h = h
Survives-weaken Q R no_fuel f h = tt

pub Survives-of_Finishes :
    {A : Type 0} (Q : A → Type 0) (m : Outcome A) → Finishes Q m → Survives Q m
Survives-of_Finishes Q (done a) h = h
Survives-of_Finishes Q aborted h = h
Survives-of_Finishes Q no_fuel h = tt

pub Survives-if :
    {A : Type 0} (Q : A → Type 0) (b : Bool) (m n : Outcome A)
    → Survives Q m
    → Survives Q n
    → Survives Q (if b then m else n)
Survives-if Q true m n h k = h
Survives-if Q false m n h k = k

-- What is known of every result holds of that of code that fails no assertion.
pub Survives-with :
    {A : Type 0} (P Q : A → Type 0) (m : Outcome A)
    → Survives P m
    → ((a : A) → m ≡ done a → Q a)
    → Survives Q m
Survives-with P Q (done a) h k = k a refl
Survives-with P Q aborted h k = h
Survives-with P Q no_fuel h k = tt

pub Survives-ne : {A : Type 0} (Q : A → Type 0) (m : Outcome A) → Survives Q m → m ≢ aborted
Survives-ne Q (done a) h e = cc
Survives-ne Q aborted h e = h
Survives-ne Q no_fuel h e = cc

pub Finishes-at :
    {A : Type 0} (Q : A → Type 0) (m : Outcome A) {a : A} → Finishes Q m → m ≡ done a → Q a
Finishes-at Q m h e = rw e at h

-- What a result of a bind shows of its parts.
pub bind-done :
    {A B : Type 0} (m : Outcome A) (f : A → Outcome B) {b : B}
    → (m >>= f) ≡ done b
    → (a : A) × (m ≡ done a) × (f a ≡ done b)
bind-done (done a) f e = (a, refl, e)
bind-done aborted f e = absurd cc
bind-done no_fuel f e = absurd cc
