-- ===== src/JobSvc/Jobs/Operations.antt =====
-- The methods of `JobService` that write, in any order and with any arguments: what they make of a
-- table is, for each job, a history of events.
use mathlib.Core.Option.{some-injective}
use mathlib.Core.Path.{subst}
use agent_exec_platform.Common.{
  ℕ, ◌≡◌, refl, sym, ap, ◌∙◌, Bool, true, Option, none, some, List, [], ◌∷◌, ◌++◌, Text, text_eq,
  text_eq_iff, contains, map, if◌then◌else◌, arith, Option-cases, Bool-cases, inl, inr,
}
use agent_exec_platform.Database.Table.{Table, updated}
use agent_exec_platform.JobSvc.Models.{JobStatus, JobSpec, JobRow, job_id, Progress}
use agent_exec_platform.JobSvc.Jobs.Values.{progress_values, renew_values, is_running}
use agent_exec_platform.JobSvc.Jobs.Events.{
  Event, entered, retried, claimed, reaped, renewed, checkpointed, step, steps,
}
use agent_exec_platform.JobSvc.Jobs.Service.{
  Settings, or_default, new_row, create, enter, retry, claim_batch, reap_expired, renew_lease,
  save_progress,
}
use agent_exec_platform.JobSvc.Jobs.Guarded.{own, find-enter, find-retry}
use agent_exec_platform.JobSvc.Jobs.Batches.{find-claim_step, candidates}
use agent_exec_platform.JobSvc.Jobs.Reaping.{find-reap_expired}
use agent_exec_platform.JobSvc.Jobs.Invariant.{IsSound, new_row-IsSound, steps-IsSound}

-- A call of a method, with what the caller, the clock and the lock table give it.
pub data Operation : Type 0 where
  creates : Settings → Text → ℕ → Text → Text → JobSpec → Option ℕ → Option ℕ → Operation
  enters : Text → Text → JobStatus → ℕ → Operation
  retries : Text → Text → ℕ → Operation
  claims : (Text → Bool) → ℕ → Text → ℕ → Operation
  reaps : ℕ → ℕ → Operation
  renews : Text → ℕ → Operation
  saves : Text → Progress → ℕ → Operation

module _ (t : Table JobRow job_id) where
  open t use {Db}

  unfoldable pub perform : Operation → Db → Db
  unfolding create enter retry claim_batch reap_expired renew_lease save_progress
  perform (creates c id now tenant type spec a m) db = (create t c id now tenant type spec a m db).1
  perform (enters tenant id s now) db = (enter t tenant id s now db).1
  perform (retries tenant id now) db = (retry t tenant id now db).1
  perform (claims locked limit owner now) db = (claim_batch t locked limit owner now db).1
  perform (reaps lease now) db = (reap_expired t lease now db).1
  perform (renews id now) db = (renew_lease t id now db).1
  perform (saves id p now) db = (save_progress t id p now db).1

  unfoldable pub performs : List Operation → Db → Db
  unfolding perform
  performs [] db = db
  performs (o ∷ os) db = performs os (perform o db)

-- A row that `create` adds.
abbrev pub IsNew : JobRow → Type 0
IsNew r =
    (id : Text) × (now : ℕ) × (tenant : Text) × (type : Text) × (spec : JobSpec) × (a : ℕ) × (m : ℕ)
    × (r ≡ new_row id now tenant type spec a m)

-- A job whose row is a new row after some events.
abbrev pub HasHistory : JobRow → Type 0
HasHistory r = (born : JobRow) × IsNew born × (es : List Event) × (r ≡ steps es born)

-- The job with one key before and after an operation: it goes through events, or is created.
abbrev Evolves : Option JobRow → Option JobRow → Type 0
Evolves (some r) after = (es : List Event) × (after ≡ some (steps es r))
Evolves none after = (r : JobRow) → after ≡ some r → IsNew r

Evolves-updated :
    (p : JobRow → Bool) (e : Event) (o o' : Option JobRow)
    → o' ≡ updated p (step e) o
    → Evolves o o'
unfolding steps
Evolves-updated p e (some r) o' h = elim (Bool-cases (p r)) [
  | inl touched ↦ (e ∷ [], ground arith)
  | inr not_touched ↦ ([], ground arith)
]
Evolves-updated p e none o' h = λ r found. cc

Evolves-same : (o o' : Option JobRow) → o' ≡ o → Evolves o o'
unfolding steps
Evolves-same (some r) o' h = ([], h)
Evolves-same none o' h = λ r found. cc

module _ (t : Table JobRow job_id) where
  open t use {Db}

  abbrev inserted : Option Db → Db → Db
  inserted none db = db
  inserted (some db') db = db'

  create_lem :
      (c : Settings) (id : Text) (now : ℕ) (tenant type : Text) (spec : JobSpec) (a m : Option ℕ)
      (db : Db)
      → (create t c id now tenant type spec a m db).1
        ≡ inserted
            (t.insert
              (new_row id now tenant type spec
                (or_default a c.default_max_attempts)
                (or_default m c.default_max_retries))
              db)
            db
  unfolding create
  create_lem c id now tenant type spec a m db = ground arith

  find-renew :
      (id : Text) (now : ℕ) (db : Db) (j : Text)
      → t.find j (renew_lease t id now db).1
        ≡ updated (λ r. text_eq id j) (step (renewed now)) (t.find j db)
  unfolding renew_lease step
  find-renew id now db j =
      ground (arith, t.find-update_one id is_running (renew_values now) db j (λ r. refl))

  find-save :
      (id : Text) (p : Progress) (now : ℕ) (db : Db) (j : Text)
      → t.find j (save_progress t id p now db).1
        ≡ updated (λ r. text_eq id j) (step (checkpointed p now)) (t.find j db)
  unfolding save_progress step
  find-save id p now db j = ground (
    arith,
    t.find-update_one id (λ r. true) (progress_values p now) db j (λ r. refl),
    t.update_one_result id (λ r. true) (progress_values p now) db (λ r. refl),
    text_eq_iff id j,
    ap (λ k. t.find k db) {x = id} {y = j},
  )

  Evolves-insert :
      (r : JobRow) (db : Db) (o : Option Db) (j : Text)
      → IsNew r
      → t.insert r db ≡ o
      → Evolves (t.find j db) (t.find j (inserted o db))
  Evolves-insert r db none j new h = Evolves-same (t.find j db) (t.find j db) refl
  Evolves-insert r db (some db') j new h =
      let after = t.find-insert r db db' j h in
      elim (Option-cases (t.find j db)) [
        | inl gone ↦ rw gone (λ q e. elim (Bool-cases (text_eq (job_id r) j)) [
          | inl same ↦
              subst IsNew
                (some-injective _ _
                  (sym (after ∙ ap (λ b. if b then some r else t.find j db) same) ∙ e))
                new
          | inr other ↦ absurd (ground (arith, after, gone, e, other))
        ])
        | inr (s, there) ↦ rw there (elim (Bool-cases (text_eq (job_id r) j)) [
          | inl same ↦
              let clash =
                t.insert_clash r s db
                  (ap (λ k. t.find k db) ((text_eq_iff (job_id r) j).0 same) ∙ there) in
              absurd (ground (arith, clash, h))
          | inr other ↦ ([], unfold steps in ground (arith, after, there, other))
        ])
      ]

  Evolves-perform :
      (o : Operation) (db : Db) (j : Text) → Evolves (t.find j db) (t.find j (perform t o db))
  unfolding perform
  Evolves-perform (creates c id now tenant type spec a m) db j =
      subst (λ (x : Db). Evolves (t.find j db) (t.find j x))
        (sym (create_lem c id now tenant type spec a m db))
        (Evolves-insert
          (new_row id now tenant type spec (or_default a c.default_max_attempts)
            (or_default m c.default_max_retries))
          db
          (t.insert
            (new_row id now tenant type spec (or_default a c.default_max_attempts)
              (or_default m c.default_max_retries))
            db)
          j
          (
            id,
            now,
            tenant,
            type,
            spec,
            or_default a c.default_max_attempts,
            or_default m c.default_max_retries,
            refl,
          )
          refl)
  Evolves-perform (enters tenant id s now) db j =
      Evolves-updated (own tenant id j) (entered s now) _ _ (find-enter t tenant id now db s j)
  Evolves-perform (retries tenant id now) db j =
      Evolves-updated (own tenant id j) (retried now) _ _ (find-retry t tenant id now db j)
  Evolves-perform (claims locked limit owner now) db j =
      Evolves-updated (λ r. contains (map job_id (candidates t locked limit db)) r.id)
        (claimed owner now) _ _ (find-claim_step t locked limit owner now db j)
  Evolves-perform (reaps lease now) db j =
      Evolves-updated (λ r. true) (reaped lease now) _ _ (find-reap_expired t lease now db j)
  Evolves-perform (renews id now) db j =
      Evolves-updated (λ r. text_eq id j) (renewed now) _ _ (find-renew id now db j)
  Evolves-perform (saves id p now) db j =
      Evolves-updated (λ r. text_eq id j) (checkpointed p now) _ _ (find-save id p now db j)

  steps-append : (es fs : List Event) (r : JobRow) → steps (es ++ fs) r ≡ steps fs (steps es r)
  unfolding steps
  steps-append [] fs r = refl
  steps-append (e ∷ es) fs r = steps-append es fs (step e r)

  abbrev pub AllHaveHistory : Db → Type 0
  AllHaveHistory db = (j : Text) (r : JobRow) → t.find j db ≡ some r → HasHistory r

  perform-AllHaveHistory :
      (o : Operation) (db : Db) → AllHaveHistory db → AllHaveHistory (perform t o db)
  perform-AllHaveHistory o db h j r found = go (t.find j db) refl (Evolves-perform o db j)
    where
      go :
          (b : Option JobRow)
          → t.find j db ≡ b
          → Evolves b (t.find j (perform t o db))
          → HasHistory r
      go none e v = let new = v r found in (r, new, [], unfold steps in refl)
      go (some q) e (es, after) =
          let (born, new, before, same) = h j q e in
          (
            born,
            new,
            before ++ es,
            some-injective _ _ (sym found ∙ after)
                ∙ ap (steps es) same
                ∙ sym (steps-append before es born),
          )

  -- Whatever methods are called, in any order, by any callers and pods: each job of the table is a
  -- job that `create` made, after a history of permitted or refused events, and it is sound.
  pub performs-AllHaveHistory :
      (os : List Operation) (db : Db) → AllHaveHistory db → AllHaveHistory (performs t os db)
  unfolding performs
  performs-AllHaveHistory [] db h = h
  performs-AllHaveHistory (o ∷ os) db h =
      performs-AllHaveHistory os (perform t o db) (perform-AllHaveHistory o db h)

  new-IsSound : (r : JobRow) → IsNew r → IsSound r
  new-IsSound r (id, now, tenant, type, spec, a, m, e) =
      subst IsSound (sym e) (new_row-IsSound id now tenant type spec a m)

  pub performs-IsSound :
      (os : List Operation) (db : Db) (j : Text) (r : JobRow)
      → ((k : Text) → t.find k db ≡ none)
      → t.find j (performs t os db) ≡ some r
      → IsSound r × HasHistory r
  performs-IsSound os db j r empty found =
      let (born, new, es, same) =
        performs-AllHaveHistory os db (λ k q e. absurd (ground (arith, empty k, e))) j r found in
      (
        subst IsSound (sym same) (steps-IsSound es born (new-IsSound born new)),
        (born, new, es, same),
      )
