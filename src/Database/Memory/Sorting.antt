-- ===== src/Database/Memory/Sorting.antt =====
-- The rows of a table in the order of their age, and the oldest of them.
use agent_exec_platform.Common.{
  ℕ, zero, suc, ◌≤◌, ◌≡◌, refl, ap, ◌∙◌, none, some, List, [], ◌∷◌, Text, text_eq, text_eq_iff,
  length, take, All, if◌then◌else◌, leb, arith, Bool-cases, inl, inr,
}
use agent_exec_platform.Database.Table.{by_key, Distinct}

module _ {Row : Type 0} (key : Row → Text) where
  module _ (age : Row → ℕ) where
    unfoldable pub insert_by : Row → List Row → List Row
    insert_by r [] = r ∷ []
    insert_by r (s ∷ l) = if leb (age r) (age s) then r ∷ s ∷ l else s ∷ insert_by r l

    unfoldable pub sort_by : List Row → List Row
    unfolding insert_by
    sort_by [] = []
    sort_by (r ∷ l) = insert_by r (sort_by l)

    abbrev pub Sorted : List Row → Type 0
    Sorted [] = Unit
    Sorted (r ∷ l) = All (λ s. age r ≤ age s) l × Sorted l

    pub by_key-insert_by :
        (r : Row) (l : List Row) (j : Text)
        → by_key key (key r) l ≡ none
        → by_key key j (insert_by r l) ≡ (if text_eq (key r) j then some r else by_key key j l)
    unfolding by_key insert_by
    by_key-insert_by r [] j h = refl
    by_key-insert_by r (s ∷ l) j h = ground (
      arith,
      by_key-insert_by r l j,
      text_eq_iff (key r) j,
      text_eq_iff (key s) j,
      text_eq_iff (key s) (key r),
    )

    pub Distinct-insert_by :
        (r : Row) (l : List Row)
        → by_key key (key r) l ≡ none
        → Distinct key l
        → Distinct key (insert_by r l)
    unfolding insert_by by_key
    Distinct-insert_by r [] h d = (refl, tt)
    Distinct-insert_by r (s ∷ l) h d = ground (
      arith,
      Distinct-insert_by r l,
      by_key-insert_by r l (key s),
      text_eq_iff (key s) (key r),
      text_eq_iff (key r) (key s),
    )

    pub mutual_sort :
        (l : List Row)
        → Distinct key l
        → ((j : Text) → by_key key j (sort_by l) ≡ by_key key j l) × Distinct key (sort_by l)
    unfolding by_key sort_by
    mutual_sort [] d = ((λ j. refl), tt)
    mutual_sort (r ∷ l) d =
        let (same, dist) = mutual_sort l d.1 in
        let fresh : by_key key (key r) (sort_by l) ≡ none = same (key r) ∙ d.0 in
        (
          (λ j.
              by_key-insert_by r (sort_by l) j fresh
              ∙ ap (λ o. if text_eq (key r) j then some r else o) (same j)),
          Distinct-insert_by r (sort_by l) fresh dist,
        )

    pub All-insert_by :
        (n : ℕ) (r : Row) (l : List Row)
        → n ≤ age r
        → All (λ s. n ≤ age s) l
        → All (λ s. n ≤ age s) (insert_by r l)
    unfolding insert_by
    All-insert_by n r [] h a = (h, tt)
    All-insert_by n r (s ∷ l) h a = ground (arith, All-insert_by n r l)

    pub All-trans :
        (m n : ℕ) (l : List Row) → m ≤ n → All (λ s. n ≤ age s) l → All (λ s. m ≤ age s) l
    All-trans m n [] h a = tt
    All-trans m n (r ∷ l) h a = (omega arith, All-trans m n l h a.1)

    pub Sorted-insert_by : (r : Row) (l : List Row) → Sorted l → Sorted (insert_by r l)
    unfolding insert_by
    Sorted-insert_by r [] s = (tt, tt)
    Sorted-insert_by r (q ∷ l) s = elim (Bool-cases (leb (age r) (age q))) [
      | inl le ↦ rw le ((ground arith, All-trans (age r) (age q) l (ground arith) s.0), s)
      | inr gt ↦ rw gt (All-insert_by (age q) r l (ground arith) s.0, Sorted-insert_by r l s.1)
    ]

    pub Sorted-sort_by : (l : List Row) → Sorted (sort_by l)
    unfolding sort_by
    Sorted-sort_by [] = tt
    Sorted-sort_by (r ∷ l) = Sorted-insert_by r (sort_by l) (Sorted-sort_by l)

    pub by_key-All :
        (n : ℕ) (l : List Row) (j : Text) (r : Row)
        → All (λ s. n ≤ age s) l
        → by_key key j l ≡ some r
        → n ≤ age r
    unfolding by_key
    by_key-All n [] j r a h = ground arith
    by_key-All n (s ∷ l) j r a h = ground (arith, by_key-All n l j r)

    pub take_first :
        (n : ℕ) (l : List Row) (j : Text) (r : Row)
        → Sorted l
        → by_key key j l ≡ some r
        → by_key key j (take n l) ≡ none
        → All (λ s. age s ≤ age r) (take n l) × (n ≤ length (take n l))
    unfolding by_key take
    take_first zero l j r s h no_row = (tt, omega arith)
    take_first (suc n) [] j r s h no_row = ground arith
    take_first (suc n) (q ∷ l) j r s h no_row =
        ground (arith, take_first n l j r, by_key-All (age q) l j r)

  pub by_key-take :
      (n : ℕ) (l : List Row) (j : Text) (r : Row)
      → by_key key j (take n l) ≡ some r
      → by_key key j l ≡ some r
  unfolding by_key take
  by_key-take (suc n) (q ∷ l) j r h = ground (arith, by_key-take n l j r)
  by_key-take zero l j r h = ground arith
  by_key-take (suc n) [] j r h = h

  pub by_key-take-none :
      (n : ℕ) (l : List Row) (j : Text) → by_key key j l ≡ none → by_key key j (take n l) ≡ none
  unfolding by_key take
  by_key-take-none (suc n) (q ∷ l) j h = ground (arith, by_key-take-none n l j)
  by_key-take-none zero l j h = refl
  by_key-take-none (suc n) [] j h = refl

  pub Distinct-take : (n : ℕ) (l : List Row) → Distinct key l → Distinct key (take n l)
  unfolding take
  Distinct-take (suc n) (q ∷ l) d = (by_key-take-none n l (key q) d.0, Distinct-take n l d.1)
  Distinct-take zero l d = tt
  Distinct-take (suc n) [] d = tt
