-- ===== src/Init/Accepted.antt =====
-- src/theft_run.c: what holds of a configuration that `theft_run_init` accepts.
use theft.Base.{
  ℕ, zero, suc, ◌+◌, ◌≤◌, ◌<◌, ◌≡◌, ◌≢◌, refl, arith, Bool, true, false, ◌&&◌, Option, none, some,
  List,
}
use theft.Base.{◌==◌, ==_iff, Bool-cases, Option-cases, inl, inr, ◌⊎◌, ℕ_discrete}
use mathlib.Core.Path.{subst}
use theft.Init.{
  TypeConfig, RunConfig, ok, Settings, settings, type_at, infer_from, infer_arity, is_accepted,
  is_hashable, check_args, accept,
}

module _ {I W : Type 0} (infos : List (Option (TypeConfig I W))) where
  -- An argument with a type info that passes the tests of the code.
  record Passed (i : ℕ) (all_hashable : Bool) : Type 0 where
    info : TypeConfig I W
    given : type_at infos i ≡ some info
    accepted : is_accepted info ≡ true
    hashable : (all_hashable && is_hashable info) ≡ all_hashable

  -- What an argument has: a type info with an alloc callback, no shrink callback beside
  -- autoshrinking, and a way to be hashed where all arguments are taken to be hashable.
  pub record Checked (i : ℕ) (all_hashable : Bool) : Type 0 where
    pub info : TypeConfig I W
    pub given : type_at infos i ≡ some info
    pub allocates : info.alloc ≢ none
    pub shrinks_one_way : info.autoshrink ≡ true → info.shrink ≡ none
    pub hashes : all_hashable ≡ true → (info.hash ≢ none) ⊎ (info.autoshrink ≡ true)

  is_accepted_lem :
      (ti : TypeConfig I W)
      → is_accepted ti ≡ true
      → (ti.alloc ≢ none) × (ti.autoshrink ≡ true → ti.shrink ≡ none)
  is_accepted_lem ti e = elim (Option-cases ti.alloc) [
    | inl missing ↦ absurd (cc (rw missing at e))
    | inr (f, found) ↦ (
      λ none'. cc,
      λ auto. elim (Option-cases ti.shrink) [
        | inl missing ↦ missing
        | inr (g, both) ↦ absurd (cc (rw (found, auto, both) at e))
      ],
    )
  ]

  is_hashable_lem :
      (ti : TypeConfig I W) → is_hashable ti ≡ true → (ti.hash ≢ none) ⊎ (ti.autoshrink ≡ true)
  is_hashable_lem ti e = elim (Option-cases ti.hash) [
    | inl missing ↦ inr (rw missing at e)
    | inr (f, found) ↦ inl (λ none'. cc)
  ]

  Passed-Checked : (i : ℕ) (all : Bool) → Passed i all → Checked i all
  Passed-Checked i all p = record {
    info = p.info;
    given = p.given;
    allocates = (is_accepted_lem p.info p.accepted).0;
    shrinks_one_way = (is_accepted_lem p.info p.accepted).1;
    hashes = λ wanted. is_hashable_lem p.info (rw wanted at p.hashable);
  }

  infer_from-le : (left i : ℕ) → infer_from left i infos ≤ i + left
  unfolding infer_from
  infer_from-le zero i = omega arith
  infer_from-le (suc left) i = ground (arith, infer_from-le left (i + 1))

  conjunct :
      (left i : ℕ) (so_far all : Bool)
      → check_args left i so_far infos ≡ some all
      → (all && so_far) ≡ all
  unfolding check_args
  conjunct zero i so_far all e = same so_far all e
    where
      same : (a b : Bool) → some a ≡ some b → (b && a) ≡ b
      same true true h = refl
      same false false h = refl
      same true false h = refl
      same false true h = cc
  conjunct (suc left) i so_far all e = elim (Option-cases (type_at infos i)) [
    | inl missing ↦ absurd (cc (rw (missing, check_args) at e))
    | inr (ti, found) ↦ elim (Bool-cases (is_accepted ti)) [
      | inr refused ↦ absurd (cc (rw (found, refused, check_args) at e))
      | inl fine ↦
          first all so_far (is_hashable ti) (
            conjunct left (i + 1) (so_far && is_hashable ti) all
              (rw (found, fine, check_args) at e))
    ]
  ]
    where
      first : (c a b : Bool) → (c && (a && b)) ≡ c → (c && a) ≡ c
      first c a b h = ground arith

  check_args-Passed :
      (left i : ℕ) (so_far all : Bool) (j : ℕ)
      → check_args left i so_far infos ≡ some all
      → i ≤ j
      → j < i + left
      → Passed j all
  unfolding check_args
  check_args-Passed zero i so_far all j e low high = absurd (omega arith)
  check_args-Passed (suc left) i so_far all j e low high = elim (Option-cases (type_at infos i)) [
    | inl missing ↦ absurd (cc (rw (missing, check_args) at e))
    | inr (ti, found) ↦ elim (Bool-cases (is_accepted ti)) [
      | inr refused ↦ absurd (cc (rw (found, refused, check_args) at e))
      | inl fine ↦
          let rest : check_args left (i + 1) (so_far && is_hashable ti) infos ≡ some all =
            rw (found, fine, check_args) at e in
          elim (ℕ_discrete i j) [
            | no later ↦
                check_args-Passed left (i + 1) (so_far && is_hashable ti) all j rest (omega arith)
                  (omega arith)
            | yes here ↦ record {
              info = ti;
              given = rw (← here) found;
              accepted = fine;
              hashable =
                  second all so_far (is_hashable ti)
                    (conjunct left (i + 1) (so_far && is_hashable ti) all rest);
            }
          ]
    ]
  ]
    where
      second : (c a b : Bool) → (c && (a && b)) ≡ c → (c && b) ≡ c
      second c a b h = ground arith

module _ {F I W : Type 0} (cfg : RunConfig F I W) where
  -- What the branches of `accept` had found where it accepts.
  record Found (s : Settings F I W) : Type 0 where
    arity_is : s.arity ≡ infer_arity cfg.type_info
    positive : s.arity ≢ 0
    args : check_args s.arity 0 true cfg.type_info ≡ some s.all_hashable
    property : cfg.props s.arity ≡ some s.prop

  accept-Found : (s : Settings F I W) → accept cfg ≡ ok s → Found s
  unfolding accept
  accept-Found s e = elim (Bool-cases (infer_arity cfg.type_info == 0)) [
    | inl nothing ↦ absurd (cc (rw (nothing, accept) at e))
    | inr some' ↦
        elim (Option-cases (check_args (infer_arity cfg.type_info) 0 true cfg.type_info)) [
          | inl refused ↦ absurd (cc (rw (some', refused, accept) at e))
          | inr (all_hashable, fine) ↦ elim (Option-cases (cfg.props (infer_arity cfg.type_info))) [
            | inl no_prop ↦ absurd (cc (rw (some', fine, no_prop, accept) at e))
            | inr (prop, given) ↦
                let same : settings cfg (infer_arity cfg.type_info) prop all_hashable ≡ s =
                  cc (rw (some', fine, given, accept) at e) in
                subst (λ x. Found x) same
                  (record {
                    arity_is = refl;
                    positive = λ z. absurd (cc ((==_iff _ 0).1 z));
                    args = fine;
                    property = given;
                  })
          ]
        ]
  ]

  -- A configuration that theft_run_init accepts has from one to seven arguments, and a property
  -- function of just as many.
  pub accept-arity :
      (s : Settings F I W)
      → accept cfg ≡ ok s
      → (1 ≤ s.arity) × (s.arity ≤ 7) × (cfg.props s.arity ≡ some s.prop)
  unfolding infer_arity
  accept-arity s e =
      let f = accept-Found s e in
      (omega (arith, f.positive), rw (f.arity_is) (infer_from-le cfg.type_info 7 0), f.property)

  -- Every argument of a configuration that theft_run_init accepts has a type info with an alloc
  -- callback, and not both a shrink callback and autoshrinking; and where a bloom filter is asked
  -- for, it has a hash callback or autoshrinking.
  pub accept-Checked :
      (s : Settings F I W) (i : ℕ)
      → accept cfg ≡ ok s
      → i < s.arity
      → Checked cfg.type_info i s.all_hashable
  accept-Checked s i e h = Passed-Checked cfg.type_info i s.all_hashable (
      check_args-Passed cfg.type_info s.arity 0 true s.all_hashable i (accept-Found s e).args
        (omega arith) (omega arith))
