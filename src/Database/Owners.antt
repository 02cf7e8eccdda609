-- ===== src/Database/Owners.antt =====
-- Tables whose rows belong to tenants: what a statement leaves of who owns which key.
use agent_exec_platform.Common.{
  text_eq_refl, Bool, false, Option, none, some, Text, text_eq, ◌≡◌, refl, ap, ◌∙◌, Option-cases,
  Bool-cases, inl, inr, arith, text_eq_iff,
}
use agent_exec_platform.Database.Table.{Table, updated}

-- The owner of a row that may be there.
abbrev pub owner_of {ℓ} : {A : Type ℓ} → (A → Text) → Option A → Option Text
owner_of f none = none
owner_of f (some r) = some (f r)

module _ {Row : Type 0} (key tenant : Row → Text) (t : Table Row key) where
  open t use {Db}

  -- The tenant of the row with a key.
  abbrev pub owner : Db → Text → Option Text
  owner db k = owner_of tenant (t.find k db)

  -- A change that leaves every row its tenant.
  abbrev pub Preserves : Db → Db → Type 0
  Preserves db db' = (k tid : Text) → owner db k ≡ some tid → owner db' k ≡ some tid

  pub insert-Preserves : (r : Row) (db db' : Db) → t.insert r db ≡ some db' → Preserves db db'
  insert-Preserves r db db' e k tid h = elim (Option-cases (t.find k db)) [
    | inl n ↦ absurd (ground (arith, h, n))
    | inr (s, f) ↦ elim (Bool-cases (text_eq (key r) k)) [
      | inl at ↦ absurd (
          ground (
            arith,
            e,
            t.insert_clash r s db (ap (λ j. t.find j db) ((text_eq_iff (key r) k).0 at) ∙ f),
          ))
      | inr away ↦ ap (owner_of tenant) (t.find-insert r db db' k e ∙ rw away refl) ∙ h
    ]
  ]

  pub insert-owner :
      (r : Row) (db db' : Db) → t.insert r db ≡ some db' → owner db' (key r) ≡ some (tenant r)
  insert-owner r db db' e = ground (arith, t.find-insert r db db' (key r) e, text_eq_refl (key r))

  pub update_one-Preserves :
      (k : Text) (p : Row → Bool) (f : Row → Row) (db : Db)
      → ((r : Row) → key (f r) ≡ key r)
      → ((r : Row) → tenant (f r) ≡ tenant r)
      → Preserves db (t.update_one k p f db).1
  update_one-Preserves k p f db fixes owns j tid h =
      ap (owner_of tenant) (t.find-update_one k p f db j fixes) ∙ elim (Bool-cases (text_eq k j)) [
        | inl at ↦ rw at (same (t.find j db) ∙ h)
        | inr away ↦ rw away h
      ]
    where
      same : (o : Option Row) → owner_of tenant (updated p f o) ≡ owner_of tenant o
      same none = refl
      same (some r) = elim (Bool-cases (p r)) [
        | inl e ↦ rw e (ap some (owns r))
        | inr e ↦ rw e refl
      ]

  pub delete_keeps :
      (k j : Text) (db : Db) → text_eq k j ≡ false → owner (t.delete k db) j ≡ owner db j
  delete_keeps k j db away = ap (owner_of tenant) (t.find-delete k db j ∙ rw away refl)
