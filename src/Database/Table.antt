-- ===== src/Database/Table.antt =====
-- One table with a text primary key. Every operation is one atomic statement.
use agent_exec_platform.Common.{
  ℕ, ◌≤◌, ◌≡◌, Bool, true, false, Option, none, some, List, [], ◌∷◌, Text, text_eq, length, All,
  if◌then◌else◌,
}

module _ {Row : Type 0} (key : Row → Text) where
  -- The row with a key, among the rows that a statement returned.
  unfoldable pub by_key : Text → List Row → Option Row
  by_key k [] = none
  by_key k (r ∷ rs) = if text_eq (key r) k then some r else by_key k rs

  -- No two rows have one key.
  abbrev pub Distinct : List Row → Type 0
  Distinct [] = Unit
  Distinct (r ∷ rs) = (by_key (key r) rs ≡ none) × Distinct rs

module _ {Row : Type 0} where
  -- What `UPDATE ... WHERE p ... RETURNING` returns of the row with a key.
  abbrev pub changed : (Row → Bool) → (Row → Row) → Option Row → Option Row
  changed p f none = none
  changed p f (some r) = if p r then some (f r) else none

  -- What it leaves in the table under that key.
  abbrev pub updated : (Row → Bool) → (Row → Row) → Option Row → Option Row
  updated p f none = none
  updated p f (some r) = some (if p r then f r else r)

  -- What `SELECT ... WHERE p` returns of the row with a key.
  abbrev pub chosen : (Row → Bool) → Option Row → Option Row
  chosen p none = none
  chosen p (some r) = if p r then some r else none

pub record Table (Row : Type 0) (key : Row → Text) : Type 1 where
  pub Db : Type 0
  -- session.get(Row, k)
  pub find : Text → Db → Option Row
  -- session.add(row) and the flush; `none` is an `IntegrityError`
  pub insert : Row → Db → Option Db
  -- update(Row).where(Row.id == k, p).values(f).returning(Row), scalar_one_or_none()
  pub update_one : Text → (Row → Bool) → (Row → Row) → Db → Option Row × Db
  -- update(Row).where(p).values(f).returning(Row), scalars().all()
  pub update_where : (Row → Bool) → (Row → Row) → Db → List Row × Db
  -- select(Row).where(p)
  pub select : (Row → Bool) → Db → List Row
  -- select(Row).where(p).order_by(age).limit(n), less the rows that others hold locked (with
  -- `FOR UPDATE SKIP LOCKED`; without it no row counts as locked)
  pub select_oldest : (Text → Bool) → (Row → Bool) → (Row → ℕ) → ℕ → Db → List Row
  -- session.delete(row)
  pub delete : Text → Db → Db
  pub find_key : (k : Text) (db : Db) (r : Row) → find k db ≡ some r → key r ≡ k
  pub insert_fresh :
      (r : Row) (db : Db) → find (key r) db ≡ none → (db' : Db) × (insert r db ≡ some db')
  pub insert_clash : (r s : Row) (db : Db) → find (key r) db ≡ some s → insert r db ≡ none
  pub find-insert :
      (r : Row) (db db' : Db) (k : Text)
      → insert r db ≡ some db'
      → find k db' ≡ (if text_eq (key r) k then some r else find k db)
  pub update_one_result :
      (k : Text) (p : Row → Bool) (f : Row → Row) (db : Db)
      → ((r : Row) → key (f r) ≡ key r)
      → (update_one k p f db).0 ≡ changed p f (find k db)
  pub find-update_one :
      (k : Text) (p : Row → Bool) (f : Row → Row) (db : Db) (j : Text)
      → ((r : Row) → key (f r) ≡ key r)
      → find j (update_one k p f db).1
        ≡ (if text_eq k j then updated p f (find j db) else find j db)
  pub update_where_result :
      (p : Row → Bool) (f : Row → Row) (db : Db) (j : Text)
      → ((r : Row) → key (f r) ≡ key r)
      → by_key key j (update_where p f db).0 ≡ changed p f (find j db)
  pub update_where_distinct :
      (p : Row → Bool) (f : Row → Row) (db : Db)
      → ((r : Row) → key (f r) ≡ key r)
      → Distinct key (update_where p f db).0
  pub find-update_where :
      (p : Row → Bool) (f : Row → Row) (db : Db) (j : Text)
      → ((r : Row) → key (f r) ≡ key r)
      → find j (update_where p f db).1 ≡ updated p f (find j db)
  pub by_key-select :
      (p : Row → Bool) (db : Db) (j : Text) → by_key key j (select p db) ≡ chosen p (find j db)
  pub select_distinct : (p : Row → Bool) (db : Db) → Distinct key (select p db)
  -- a row that is selected is an unlocked row of the table that satisfies the condition
  pub select_oldest_sound :
      (locked : Text → Bool) (p : Row → Bool) (age : Row → ℕ) (n : ℕ) (db : Db) (j : Text) (r : Row)
      → by_key key j (select_oldest locked p age n db) ≡ some r
      → (find j db ≡ some r) × (p r ≡ true) × (locked j ≡ false)
  pub select_oldest_distinct :
      (locked : Text → Bool) (p : Row → Bool) (age : Row → ℕ) (n : ℕ) (db : Db)
      → Distinct key (select_oldest locked p age n db)
  pub length-select_oldest :
      (locked : Text → Bool) (p : Row → Bool) (age : Row → ℕ) (n : ℕ) (db : Db)
      → length (select_oldest locked p age n db) ≤ n
  -- one that is left out is not older than any that is selected, and the limit was reached
  pub select_oldest_first :
      (locked : Text → Bool) (p : Row → Bool) (age : Row → ℕ) (n : ℕ) (db : Db) (j : Text) (r : Row)
      → find j db ≡ some r
      → p r ≡ true
      → locked j ≡ false
      → by_key key j (select_oldest locked p age n db) ≡ none
      → All (λ s. age s ≤ age r) (select_oldest locked p age n db)
        × (n ≤ length (select_oldest locked p age n db))
  pub find-delete :
      (k : Text) (db : Db) (j : Text)
      → find j (delete k db) ≡ (if text_eq k j then none else find j db)
