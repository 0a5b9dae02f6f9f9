-- ===== src/Autoshrink/Indexed.antt =====
-- src/theft_autoshrink.c, `build_index`: a pool with its index.
use theft.Base.{
  ℕ, ◌≡◌, refl, subst, Bool, true, false, Option, none, some, List, Bool-cases, Option-cases, inl,
  inr, if◌then◌else◌,
}
use theft.Pool.{Pool}
use theft.Mutate.{build_index}
use theft.Fill.Supply.{IsPool}
use theft.Autoshrink.{is_some}
use theft.Autoshrink.Attempt.{indexed}

pub indexed-IsPool :
    (memory : Bool) (orig p : Pool) → IsPool orig → indexed memory orig ≡ some p → IsPool p
unfolding indexed
indexed-IsPool memory orig p v e = with_index memory orig.index e
  where
    renamed : (index : Option (List ℕ)) → IsPool (record orig { index = index })
    renamed index = record {
      buffer = record {
        bytes = v.buffer.bytes;
        size = v.buffer.size;
        aligned = v.buffer.aligned;
        filled = v.buffer.filled;
      };
      counted = v.counted;
      positive = v.positive;
      within = v.within;
      supplied = v.supplied;
      shrunk = v.shrunk;
      live = v.live;
    }

    with_index :
        (b : Bool) (index : Option (List ℕ))
        → elim index [
          | some i ↦ some orig
          | none ↦
              if b then some (record orig { index = some (build_index 0 orig.requests) }) else none
        ]
          ≡ some p
        → IsPool p
    with_index b (some i) e = let same : orig ≡ p = cc e in subst IsPool same v
    with_index true none e =
        let same : record orig { index = some (build_index 0 orig.requests) } ≡ p = cc e in
        subst IsPool same (renamed (some (build_index 0 orig.requests)))
    with_index false none e = cc

-- Where `build_index` succeeds there is an index.
pub indexed-index :
    (memory : Bool) (orig p : Pool) → indexed memory orig ≡ some p → is_some p.index ≡ true
unfolding indexed
indexed-index memory orig p e = elim (Option-cases orig.index) [
  | inr (index, there) ↦
      let same : orig ≡ p = cc (rw (there, indexed) at e) in rw (← same, there) refl
  | inl missing ↦ elim (Bool-cases memory) [
    | inr refused ↦ absurd (cc (rw (missing, refused, indexed) at e))
    | inl given ↦
        let same : record orig { index = some (build_index 0 orig.requests) } ≡ p =
          cc (rw (missing, given, indexed) at e) in
        rw (← same) refl
  ]
]
