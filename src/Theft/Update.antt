-- ===== src/Theft/Update.antt =====
-- src/theft_types_internal.h: `t->trial.args` after an assignment to one element.
use theft.Base.{ℕ, ◌≡◌, ◌≢◌, refl, ap, arith, ◌==◌, ==_iff, Bool-cases, inl, inr}
use mathlib.Core.Path.{fun_ext}
use theft.Theft.{ArgInfo, update}

module _ {I P : Type 0} where
  pub update-others :
      (args : ℕ → ArgInfo I P) (i j : ℕ) (a : ArgInfo I P) → i ≢ j → update args i a j ≡ args j
  update-others args i j a ne = ground arith

  pub update_back :
      (args : ℕ → ArgInfo I P) (i : ℕ) (a : ArgInfo I P)
      → update (update args i a) i (args i) ≡ args
  update_back args i a = fun_ext λ j. elim (Bool-cases (i == j)) [
    | inl e ↦ rw e (ap args ((==_iff i j).0 e))
    | inr e ↦ rw e refl
  ]
