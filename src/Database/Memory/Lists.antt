-- ===== src/Database/Memory/Lists.antt =====
-- Lists of rows, by the keys of their rows.
use agent_exec_platform.Common.{
  ◌≡◌, refl, Bool, true, none, some, List, [], ◌∷◌, map, Text, text_eq, text_eq_iff, filter,
  if◌then◌else◌, not, arith,
}
use agent_exec_platform.Database.Table.{by_key, Distinct, changed, updated, chosen}

module _ {Row : Type 0} (key : Row → Text) where
  pub by_key-map :
      (p : Row → Bool) (f : Row → Row) (j : Text) (l : List Row)
      → ((r : Row) → key (f r) ≡ key r)
      → by_key key j (map (λ r. if p r then f r else r) l) ≡ updated p f (by_key key j l)
  unfolding by_key
  by_key-map p f j [] fixes = refl
  by_key-map p f j (r ∷ l) fixes = ground (arith, by_key-map p f j l fixes, fixes r)

  pub by_key_key : (k : Text) (l : List Row) (r : Row) → by_key key k l ≡ some r → key r ≡ k
  unfolding by_key
  by_key_key k [] r h = ground arith
  by_key_key k (s ∷ l) r h = ground (arith, by_key_key k l r, text_eq_iff (key s) k)

  -- What a statement that filters and maps keeps of a row.
  pub by_key-filter :
      (p : Row → Bool) (j : Text) (l : List Row)
      → Distinct key l
      → by_key key j (filter p l) ≡ chosen p (by_key key j l)
  unfolding by_key filter
  by_key-filter p j [] d = refl
  by_key-filter p j (r ∷ l) d = ground (arith, by_key-filter p j l d.1, text_eq_iff (key r) j)

  pub by_key-map_all :
      (f : Row → Row) (j : Text) (l : List Row)
      → ((r : Row) → key (f r) ≡ key r)
      → by_key key j (map f l) ≡ updated (λ r. true) f (by_key key j l)
  unfolding by_key
  by_key-map_all f j [] fixes = refl
  by_key-map_all f j (r ∷ l) fixes = ground (arith, by_key-map_all f j l fixes, fixes r)

  pub Distinct-map :
      (f : Row → Row) (l : List Row)
      → ((r : Row) → key (f r) ≡ key r)
      → Distinct key l
      → Distinct key (map f l)
  Distinct-map f [] fixes d = tt
  Distinct-map f (r ∷ l) fixes d =
      (ground (arith, by_key-map_all f (key r) l fixes, fixes r), Distinct-map f l fixes d.1)

  pub Distinct-filter : (p : Row → Bool) (l : List Row) → Distinct key l → Distinct key (filter p l)
  unfolding filter
  Distinct-filter p [] d = tt
  Distinct-filter p (r ∷ l) d =
      ground (arith, by_key-filter p (key r) l d.1, Distinct-filter p l d.1)

  pub result_lem :
      (p : Row → Bool) (f : Row → Row) (j : Text) (l : List Row)
      → Distinct key l
      → ((r : Row) → key (f r) ≡ key r)
      → by_key key j (map f (filter p l)) ≡ changed p f (by_key key j l)
  result_lem p f j l d fixes =
      ground (arith, by_key-map_all f j (filter p l) fixes, by_key-filter p j l d)

  unfoldable pub without : Text → List Row → List Row
  without k = filter (λ r. not (text_eq (key r) k))

  pub by_key-without :
      (k : Text) (l : List Row) (j : Text)
      → by_key key j (without k l) ≡ (if text_eq k j then none else by_key key j l)
  unfolding by_key without filter
  by_key-without k [] j = ground arith
  by_key-without k (r ∷ l) j =
      ground
        (arith, by_key-without k l j, text_eq_iff (key r) k, text_eq_iff (key r) j, text_eq_iff k j)
