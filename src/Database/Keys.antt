-- ===== src/Database/Keys.antt =====
-- Lists of rows with distinct keys, compared by their keys.
use agent_exec_platform.Common.{
  ◌+◌, ◌≤◌, ◌≡◌, refl, ap, true, false, some, List, [], ◌∷◌, Text, text_eq, text_eq_iff,
  text_eq_refl, length, All, is_some, if◌then◌else◌, arith, Bool-cases, inl, inr,
}
use mathlib.Core.Option.{some-injective}
use mathlib.Core.Path.{subst}
use agent_exec_platform.Database.Table.{by_key, Distinct}

module _ {Row : Type 0} (key : Row → Text) where
  remove : Text → List Row → List Row
  remove k [] = []
  remove k (r ∷ l) = if text_eq (key r) k then l else r ∷ remove k l

  length-remove :
      (k : Text) (l : List Row)
      → is_some (by_key key k l) ≡ true
      → length (remove k l) + 1 ≡ length l
  unfolding remove by_key
  length-remove k [] h = ground arith
  length-remove k (r ∷ l) h = ground (arith, length-remove k l)

  by_key-remove :
      (k : Text) (l : List Row) (j : Text)
      → text_eq k j ≡ false
      → by_key key j (remove k l) ≡ by_key key j l
  unfolding remove by_key
  by_key-remove k [] j h = refl
  by_key-remove k (r ∷ l) j h =
      ground
        (arith, by_key-remove k l j, text_eq_iff (key r) k, text_eq_iff (key r) j, text_eq_iff k j)

  -- Distinct rows whose keys all occur in a list are no more than it has.
  pub length_of_keys :
      (l m : List Row)
      → Distinct key l
      → ((k : Text) → is_some (by_key key k l) ≡ true → is_some (by_key key k m) ≡ true)
      → length l ≤ length m
  unfolding by_key
  length_of_keys [] m d sub = omega arith
  length_of_keys (r ∷ l) m d sub =
      let here : is_some (by_key key (key r) m) ≡ true =
        sub (key r) (ground (arith, text_eq_refl (key r))) in
      omega (
        arith,
        length-remove (key r) m here,
        length_of_keys l (remove (key r) m) d.1 (λ k h. ground (
          arith,
          sub k,
          text_eq_iff (key r) k,
          d.0,
          ap (λ q. by_key key q l) {x = key r} {y = k},
          by_key-remove (key r) m k,
        )),
      )

  pub All-by_key {κ} :
      (P : Row → Type κ) (l : List Row) (j : Text) (r : Row)
      → All P l
      → by_key key j l ≡ some r
      → P r
  unfolding by_key
  All-by_key P [] j r a h = ground arith
  All-by_key P (s ∷ l) j r a h = elim (Bool-cases (text_eq (key s) j)) [
    | inl e ↦ subst P (some-injective _ _ (rw e at h)) a.0
    | inr n ↦ All-by_key P l j r a.1 (rw n at h)
  ]

  -- What holds of every row that a key finds holds of every row, when the keys are distinct.
  pub All-found {κ} :
      (P : Row → Type κ) (l : List Row)
      → Distinct key l
      → ((j : Text) (r : Row) → by_key key j l ≡ some r → P r)
      → All P l
  unfolding by_key
  All-found P [] d f = tt
  All-found P (r ∷ l) (fresh, d) f = (
    f (key r) r (rw (text_eq_refl (key r)) refl),
    All-found P l d (λ j s e. f j s (elim (Bool-cases (text_eq (key r) j)) [
      | inl at ↦
          absurd (ground (arith, fresh, e, ap (λ k. by_key key k l) ((text_eq_iff (key r) j).0 at)))
      | inr away ↦ rw away e
    ])),
  )
