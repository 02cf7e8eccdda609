-- ===== src/Database/Memory.antt =====
-- A table in memory: a list of rows with distinct keys. It satisfies the laws of `Table`.
mod Lists
mod Sorting
use agent_exec_platform.Common.{
  ℕ, zero, suc, ◌≤◌, ◌≡◌, refl, sym, ap, ◌∙◌, Bool, true, false, Option, none, some, List, [], ◌∷◌,
  map, Text, text_eq, text_eq_iff, text_eq_refl, length, take, filter, All, if◌then◌else◌, leb,
  ◌&&◌, not, arith, Bool-cases, inl, inr, length-take-le,
}
use mathlib.Core.Option.{some-injective}
use mathlib.Core.Path.{subst, fun_ext}
use agent_exec_platform.Database.Table.{by_key, Distinct, changed, updated, chosen, Table}
use agent_exec_platform.Database.Memory.Lists.{
  by_key-map, by_key_key, by_key-filter, by_key-map_all, Distinct-map, Distinct-filter, result_lem,
  without, by_key-without,
}
use agent_exec_platform.Database.Memory.Sorting.{
  insert_by, sort_by, Sorted, by_key-insert_by, Distinct-insert_by, mutual_sort, All-insert_by,
  All-trans, Sorted-insert_by, Sorted-sort_by, by_key-All, take_first, by_key-take,
  by_key-take-none, Distinct-take,
}

module _ {Row : Type 0} (key : Row → Text) where
  -- The rows of a table, with distinct keys.
  abbrev pub Rows : Type 0
  Rows = (l : List Row) × Distinct key l

  abbrev pub no_rows : Rows
  no_rows = ([], tt)

  pub add :
      (r : Row) (l : List Row)
      → Distinct key l
      → (o : Option Row) → by_key key (key r) l ≡ o
      → Option Rows
  add r l d none e = some (r ∷ l, (e, d))
  add r l d (some s) e = none

  pub add_fresh :
      (r : Row) (l : List Row) (d : Distinct key l) (o : Option Row) (e : by_key key (key r) l ≡ o)
      → o ≡ none
      → (db' : Rows) × (add r l d o e ≡ some db')
  unfolding add
  add_fresh r l d none e h = ((r ∷ l, (e, d)), refl)
  add_fresh r l d (some s) e h = cc

  pub add_clash :
      (r s : Row) (l : List Row) (d : Distinct key l) (o : Option Row)
      (e : by_key key (key r) l ≡ o)
      → o ≡ some s
      → add r l d o e ≡ none
  unfolding add
  add_clash r s l d none e h = cc
  add_clash r s l d (some q) e h = refl

  pub find-add :
      (r : Row) (l : List Row) (d : Distinct key l) (o : Option Row) (e : by_key key (key r) l ≡ o)
      (db' : Rows) (k : Text)
      → add r l d o e ≡ some db'
      → by_key key k db'.0 ≡ (if text_eq (key r) k then some r else by_key key k l)
  unfolding add by_key
  find-add r l d none e db' k h =
      subst
        (λ (t : Rows). by_key key k t.0 ≡ (if text_eq (key r) k then some r else by_key key k l))
        (some-injective _ _ h) refl
  find-add r l d (some s) e db' k h = cc

  -- The assignments of an `UPDATE`; they change no key, and one that would is not made.
  pub keyed : (Row → Row) → Row → Row
  keyed f r = if text_eq (key (f r)) (key r) then f r else r

  pub keyed-key : (f : Row → Row) (r : Row) → key (keyed f r) ≡ key r
  unfolding keyed
  keyed-key f r = ground (arith, text_eq_iff (key (f r)) (key r))

  pub keyed_of_fixes : (f : Row → Row) → ((r : Row) → key (f r) ≡ key r) → keyed f ≡ f
  unfolding keyed
  keyed_of_fixes f fixes = fun_ext λ r. ground (arith, text_eq_iff (key (f r)) (key r), fixes r)

  pub branch-key :
      (p : Row → Bool) (f : Row → Row) (r : Row) → key (if p r then keyed f r else r) ≡ key r
  branch-key p f r = ground (arith, keyed-key f r)

  pub update_rows : (Row → Bool) → (Row → Row) → Rows → List Row × Rows
  unfolding keyed filter
  update_rows p f (l, d) = (
    map (keyed f) (filter p l),
    (
      map (λ r. if p r then keyed f r else r) l,
      Distinct-map key (λ r. if p r then keyed f r else r) l (branch-key p f) d,
    ),
  )

  abbrev pub with_key : Text → (Row → Bool) → Row → Bool
  with_key k p r = text_eq (key r) k && p r

  pub update_row : Text → (Row → Bool) → (Row → Row) → Rows → Option Row × Rows
  unfolding by_key update_rows
  update_row k p f db =
      (by_key key k (update_rows (with_key k p) f db).0, (update_rows (with_key k p) f db).1)

  pub update_rows_result :
      (p : Row → Bool) (f : Row → Row) (db : Rows) (j : Text)
      → by_key key j (update_rows p f db).0 ≡ changed p (keyed f) (by_key key j db.0)
  unfolding update_rows
  update_rows_result p f db j = result_lem key p (keyed f) j db.0 db.1 (keyed-key f)

  pub find-update_rows :
      (p : Row → Bool) (f : Row → Row) (db : Rows) (j : Text)
      → by_key key j (update_rows p f db).1.0 ≡ updated p (keyed f) (by_key key j db.0)
  unfolding update_rows
  find-update_rows p f db j = by_key-map key p (keyed f) j db.0 (keyed-key f)

  pub changed-with_key :
      (k : Text) (p : Row → Bool) (f : Row → Row) (o : Option Row)
      → ((r : Row) → o ≡ some r → key r ≡ k)
      → changed (with_key k p) f o ≡ changed p f o
  changed-with_key k p f none keyed_by = refl
  changed-with_key k p f (some r) keyed_by = rw (keyed_by r refl, text_eq_refl k) refl

  pub updated-with_key :
      (k : Text) (p : Row → Bool) (f : Row → Row) (j : Text) (o : Option Row)
      → ((r : Row) → o ≡ some r → key r ≡ j)
      → updated (with_key k p) f o ≡ (if text_eq k j then updated p f o else o)
  updated-with_key k p f j none keyed_by = ground arith
  updated-with_key k p f j (some r) keyed_by =
      ground (arith, keyed_by r refl, text_eq_iff (key r) k, text_eq_iff k j)

  pub delete_row : Text → Rows → Rows
  unfolding without
  delete_row k (l, d) = (without key k l, Distinct-filter key (λ r. not (text_eq (key r) k)) l d)

  pub insert_row : Row → Rows → Option Rows
  unfolding add
  insert_row r (l, d) = add r l d (by_key key (key r) l) refl

  pub oldest : (Text → Bool) → (Row → Bool) → (Row → ℕ) → ℕ → Rows → List Row
  unfolding sort_by
  oldest locked p age n (l, d) =
      take n (sort_by key age (filter (λ r. p r && not (locked (key r))) l))

  pub oldest_lem :
      (locked : Text → Bool) (p : Row → Bool) (age : Row → ℕ) (db : Rows) (j : Text)
      → by_key key j (sort_by key age (filter (λ r. p r && not (locked (key r))) db.0))
        ≡ chosen (λ r. p r && not (locked (key r))) (by_key key j db.0)
  oldest_lem locked p age (l, d) j =
      let q : Row → Bool = λ r. p r && not (locked (key r)) in
      (mutual_sort key age (filter q l) (Distinct-filter key q l d)).0 j ∙ by_key-filter key q j l d

  pub chosen_sound :
      (locked : Text → Bool) (p : Row → Bool) (j : Text) (o : Option Row) (r : Row)
      → ((s : Row) → o ≡ some s → key s ≡ j)
      → chosen (λ r. p r && not (locked (key r))) o ≡ some r
      → (o ≡ some r) × (p r ≡ true) × (locked j ≡ false)
  chosen_sound locked p j none r keyed_by h = ground arith
  chosen_sound locked p j (some s) r keyed_by h =
      let e : key s ≡ j = keyed_by s refl in ground (arith, e, ap locked e)

  pub chosen_complete :
      (locked : Text → Bool) (p : Row → Bool) (j : Text) (r : Row)
      → key r ≡ j
      → p r ≡ true
      → locked j ≡ false
      → chosen (λ r. p r && not (locked (key r))) (some r) ≡ some r
  chosen_complete locked p j r e h free = ground (arith, ap locked e)

  pub update_row_result :
      (k : Text) (p : Row → Bool) (f : Row → Row) (db : Rows)
      → ((r : Row) → key (f r) ≡ key r)
      → (update_row k p f db).0 ≡ changed p f (by_key key k db.0)
  unfolding update_row
  update_row_result k p f db fixes =
      update_rows_result (with_key k p) f db k
      ∙ ap (λ g. changed (with_key k p) g (by_key key k db.0)) (keyed_of_fixes f fixes)
      ∙ changed-with_key k p f (by_key key k db.0) (λ r e. by_key_key key k db.0 r e)

  pub find-update_row :
      (k : Text) (p : Row → Bool) (f : Row → Row) (db : Rows) (j : Text)
      → ((r : Row) → key (f r) ≡ key r)
      → by_key key j (update_row k p f db).1.0
        ≡ (if text_eq k j then updated p f (by_key key j db.0) else by_key key j db.0)
  unfolding update_row
  find-update_row k p f db j fixes =
      find-update_rows (with_key k p) f db j
      ∙ ap (λ g. updated (with_key k p) g (by_key key j db.0)) (keyed_of_fixes f fixes)
      ∙ updated-with_key k p f j (by_key key j db.0) (λ r e. by_key_key key j db.0 r e)

  pub update_rows-Distinct :
      (p : Row → Bool) (f : Row → Row) (db : Rows) → Distinct key (update_rows p f db).0
  unfolding update_rows
  update_rows-Distinct p f (l, d) =
      Distinct-map key (keyed f) (filter p l) (keyed-key f) (Distinct-filter key p l d)

  module _ (locked : Text → Bool) (p : Row → Bool) (age : Row → ℕ) (n : ℕ) where
    pub oldest_sound :
        (db : Rows) (j : Text) (r : Row)
        → by_key key j (oldest locked p age n db) ≡ some r
        → (by_key key j db.0 ≡ some r) × (p r ≡ true) × (locked j ≡ false)
    unfolding oldest
    oldest_sound db j r h =
        chosen_sound locked p j (by_key key j db.0) r (λ s e. by_key_key key j db.0 s e)
          (sym (oldest_lem locked p age db j) ∙ by_key-take key n _ j r h)

    pub oldest-Distinct : (db : Rows) → Distinct key (oldest locked p age n db)
    unfolding oldest
    oldest-Distinct (l, d) =
        Distinct-take key n _
          (mutual_sort key age _ (Distinct-filter key (λ r. p r && not (locked (key r))) l d)).1

    pub length-oldest : (db : Rows) → length (oldest locked p age n db) ≤ n
    unfolding oldest
    length-oldest (l, d) = length-take-le n _

    pub oldest_first :
        (db : Rows) (j : Text) (r : Row)
        → by_key key j db.0 ≡ some r
        → p r ≡ true
        → locked j ≡ false
        → by_key key j (oldest locked p age n db) ≡ none
        → All (λ s. age s ≤ age r) (oldest locked p age n db)
          × (n ≤ length (oldest locked p age n db))
    unfolding oldest
    oldest_first db j r h good free out =
        take_first key age n _ j r
          (Sorted-sort_by key age (filter (λ q. p q && not (locked (key q))) db.0))
          (oldest_lem locked p age db j
            ∙ ap (chosen (λ r. p r && not (locked (key r)))) h
            ∙ chosen_complete locked p j r (by_key_key key j db.0 r h) good free)
          out

-- The table in memory.
unfoldable pub memory : {Row : Type 0} (key : Row → Text) → Table Row key
unfolding by_key update_row update_rows delete_row insert_row oldest take filter
memory {Row} key = record {
  Db = Rows key;
  find = λ k db. by_key key k db.0;
  insert = insert_row key;
  update_one = update_row key;
  update_where = update_rows key;
  select = λ p db. filter p db.0;
  select_oldest = oldest key;
  delete = delete_row key;
  find_key = λ k db r h. by_key_key key k db.0 r h;
  insert_fresh = λ r db h. add_fresh key r db.0 db.1 (by_key key (key r) db.0) refl h;
  insert_clash = λ r s db h. add_clash key r s db.0 db.1 (by_key key (key r) db.0) refl h;
  find-insert = λ r db db' k h. find-add key r db.0 db.1 (by_key key (key r) db.0) refl db' k h;
  update_one_result = λ k p f db fixes. update_row_result key k p f db fixes;
  find-update_one = λ k p f db j fixes. find-update_row key k p f db j fixes;
  update_where_result = λ p f db j fixes.
      update_rows_result key p f db j
      ∙ ap (λ g. changed p g (by_key key j db.0)) (keyed_of_fixes key f fixes);
  update_where_distinct = λ p f db fixes. update_rows-Distinct key p f db;
  find-update_where = λ p f db j fixes.
      find-update_rows key p f db j
      ∙ ap (λ g. updated p g (by_key key j db.0)) (keyed_of_fixes key f fixes);
  by_key-select = λ p db j. by_key-filter key p j db.0 db.1;
  select_distinct = λ p db. Distinct-filter key p db.0 db.1;
  select_oldest_sound = oldest_sound key;
  select_oldest_distinct = oldest-Distinct key;
  length-select_oldest = length-oldest key;
  select_oldest_first = oldest_first key;
  find-delete = λ k db j. by_key-without key k db.0 j;
}
