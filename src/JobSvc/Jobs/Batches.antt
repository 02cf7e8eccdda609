-- ===== src/JobSvc/Jobs/Batches.antt =====
-- services/job_svc/src/job_svc/services/jobs.py: `claim_batch`, on a table that other pods use too.
use agent_exec_platform.Common.{
  ℕ, ◌+◌, ◌≤◌, ◌≡◌, refl, sym, ap, ◌∙◌, Bool, true, false, none, some, List, [], ◌∷◌, map, Text,
  contains, length, All, is_some, arith, Option-cases, inl, inr,
}
use agent_exec_platform.Database.Table.{Table, Distinct, by_key, changed, updated}
use agent_exec_platform.Database.Keys.{length_of_keys, All-by_key}
use agent_exec_platform.JobSvc.Models.{queued, running, JobRow, job_id}
use agent_exec_platform.JobSvc.Jobs.Values.{claim_values, is_queued}
use agent_exec_platform.JobSvc.Jobs.Conditions.{is_queued_iff}
use agent_exec_platform.JobSvc.Jobs.Events.{claimed, step}
use agent_exec_platform.JobSvc.Jobs.Service.{claim_batch}

-- `id IN (SELECT id ...)` holds of the ids of the selected rows.
contains-ids :
    (l : List JobRow) (j : Text) → contains (map job_id l) j ≡ is_some (by_key job_id j l)
unfolding contains by_key
contains-ids [] j = refl
contains-ids (r ∷ l) j = ground (arith, contains-ids l j)

module _ (t : Table JobRow job_id) where
  open t use {Db}

  -- The rows that the subquery of `claim_batch` selects and locks.
  abbrev pub candidates : (Text → Bool) → ℕ → Db → List JobRow
  candidates locked limit db = t.select_oldest locked is_queued (λ r. r.created_at) limit db

  module _ (locked : Text → Bool) (limit : ℕ) (owner : Text) (now : ℕ) (db : Db) where
    claim-returned :
        (j : Text)
        → by_key job_id j (claim_batch t locked limit owner now db).0
          ≡ changed
              (λ r. contains (map job_id (candidates locked limit db)) r.id)
              (claim_values owner now)
              (t.find j db)
    unfolding claim_batch
    claim-returned j =
        t.update_where_result (λ r. contains (map job_id (candidates locked limit db)) r.id)
          (claim_values owner now) db j (λ r. refl)

    pub find-claim :
        (j : Text)
        → t.find j (claim_batch t locked limit owner now db).1
          ≡ updated
              (λ r. contains (map job_id (candidates locked limit db)) r.id)
              (claim_values owner now)
              (t.find j db)
    unfolding claim_batch
    find-claim j =
        t.find-update_where (λ r. contains (map job_id (candidates locked limit db)) r.id)
          (claim_values owner now) db j (λ r. refl)

    -- A job is claimed exactly if it is a candidate.
    pub claim-candidate :
        (j : Text) (r : JobRow)
        → t.find j db ≡ some r
        → contains (map job_id (candidates locked limit db)) r.id
          ≡ is_some (by_key job_id j (candidates locked limit db))
    claim-candidate j r h =
        contains-ids (candidates locked limit db) r.id
        ∙ ap (λ k. is_some (by_key job_id k (candidates locked limit db))) (t.find_key j db r h)

    pub claimed_row :
        (j : Text) (r' : JobRow)
        → by_key job_id j (claim_batch t locked limit owner now db).0 ≡ some r'
        → (r : JobRow) × (t.find j db ≡ some r)
          × (is_queued r ≡ true)
          × (locked j ≡ false)
          × (r' ≡ claim_values owner now r)
          × (t.find j (claim_batch t locked limit owner now db).1 ≡ some r')
    claimed_row j r' h = elim (Option-cases (t.find j db)) [
      | inl gone ↦ absurd (ground (arith, claim-returned j))
      | inr (r, found) ↦ elim (Option-cases (by_key job_id j (candidates locked limit db))) [
        | inl out ↦ absurd (ground (arith, claim-returned j, claim-candidate j r found))
        | inr (c, chosen) ↦
            let (same, waiting, free) =
              t.select_oldest_sound locked is_queued (λ q. q.created_at) limit db j c chosen in
            (
              c,
              same,
              waiting,
              free,
              ground (arith, claim-returned j, claim-candidate j r found),
              ground (arith, claim-returned j, find-claim j, claim-candidate j r found),
            )
      ]
    ]

    -- A row that a claim returns was queued and unlocked in the table. It is returned and stored as
    -- running, with one more attempt and the lease of the owner from now on.
    pub claim_batch_lem :
        (j : Text) (r' : JobRow)
        → by_key job_id j (claim_batch t locked limit owner now db).0 ≡ some r'
        → (r : JobRow) × (t.find j db ≡ some r)
          × (r.status ≡ queued)
          × (locked j ≡ false)
          × (r' ≡ record r {
            status = running;
            attempts = r.attempts + 1;
            locked_at = some now;
            locked_by = some owner;
            updated_at = now;
          })
          × (t.find j (claim_batch t locked limit owner now db).1 ≡ some r')
    unfolding claim_values
    claim_batch_lem j r' h =
        let (r, found, waiting, free, new, stored) = claimed_row j r' h in
        (r, found, (is_queued_iff r).0 waiting, free, new, stored)

    -- For every job of the table a claim is the event `claimed`, or nothing.
    pub find-claim_step :
        (j : Text)
        → t.find j (claim_batch t locked limit owner now db).1
          ≡ updated
              (λ r. contains (map job_id (candidates locked limit db)) r.id)
              (step (claimed owner now))
              (t.find j db)
    unfolding step
    find-claim_step j = elim (Option-cases (t.find j db)) [
      | inl gone ↦ ground (arith, find-claim j)
      | inr (r, found) ↦ elim (Option-cases (by_key job_id j (candidates locked limit db))) [
        | inl out ↦ ground (arith, find-claim j, claim-candidate j r found)
        | inr (c, chosen) ↦
            let (same, waiting, free) =
              t.select_oldest_sound locked is_queued (λ q. q.created_at) limit db j c chosen in
            ground (arith, find-claim j, claim-candidate j r found, same, waiting)
      ]
    ]

    pub claim_batch-kept :
        (j : Text)
        → by_key job_id j (claim_batch t locked limit owner now db).0 ≡ none
        → t.find j (claim_batch t locked limit owner now db).1 ≡ t.find j db
    claim_batch-kept j h = ground (arith, claim-returned j, find-claim j)

    -- The claimed rows are the candidates' rows.
    pub claimed_iff :
        (j : Text)
        → is_some (by_key job_id j (claim_batch t locked limit owner now db).0)
          ≡ is_some (by_key job_id j (candidates locked limit db))
    claimed_iff j = elim (Option-cases (by_key job_id j (candidates locked limit db))) [
      | inl out ↦ elim (Option-cases (t.find j db)) [
        | inl gone ↦ ground (arith, claim-returned j)
        | inr (r, found) ↦ ground (arith, claim-returned j, claim-candidate j r found)
      ]
      | inr (c, chosen) ↦
          let (found, _, _) =
            t.select_oldest_sound locked is_queued (λ q. q.created_at) limit db j c chosen in
          ground (arith, claim-returned j, claim-candidate j c found)
    ]

    pub claim_batch-Distinct : Distinct job_id (claim_batch t locked limit owner now db).0
    unfolding claim_batch
    claim_batch-Distinct =
        t.update_where_distinct (λ r. contains (map job_id (candidates locked limit db)) r.id)
          (claim_values owner now) db (λ r. refl)

    length-claimed :
        length (claim_batch t locked limit owner now db).0 ≡ length (candidates locked limit db)
    length-claimed = omega (
      arith,
      length_of_keys job_id (claim_batch t locked limit owner now db).0 (candidates locked limit db)
          claim_batch-Distinct (λ k h. sym (claimed_iff k) ∙ h),
      length_of_keys job_id (candidates locked limit db) (claim_batch t locked limit owner now db).0
          (t.select_oldest_distinct locked is_queued (λ q. q.created_at) limit db)
          (λ k h. claimed_iff k ∙ h),
    )

    -- The claim takes at most `limit` jobs.
    pub length-claim_batch : length (claim_batch t locked limit owner now db).0 ≤ limit
    length-claim_batch = omega (
      arith,
      length-claimed,
      t.length-select_oldest locked is_queued (λ q. q.created_at) limit db,
    )

    -- First come, first served: a queued job that nobody holds and that is left out finds the batch
    -- full, and every claimed job is at least as old.
    pub claim_batch-first :
        (j : Text) (r : JobRow)
        → t.find j db ≡ some r
        → is_queued r ≡ true
        → locked j ≡ false
        → by_key job_id j (claim_batch t locked limit owner now db).0 ≡ none
        → (length (claim_batch t locked limit owner now db).0 ≡ limit)
          × ((k : Text) (c : JobRow)
              → by_key job_id k (claim_batch t locked limit owner now db).0 ≡ some c
              → c.created_at ≤ r.created_at)
    unfolding claim_values
    claim_batch-first j r found waiting free out =
        let left_out : by_key job_id j (candidates locked limit db) ≡ none =
          ground (arith, claimed_iff j) in
        let (older, full) =
          t.select_oldest_first locked is_queued (λ q. q.created_at) limit db j r found waiting free
            left_out in
        (
          omega (arith, length-claimed, length-claim_batch),
          λ k c h. older_of_candidate k c (older_of_all k older) h,
        )
      where
        older_of_all :
            (k : Text)
            → All (λ c. c.created_at ≤ r.created_at) (candidates locked limit db)
            → (q : JobRow) → by_key job_id k (candidates locked limit db) ≡ some q
            → q.created_at ≤ r.created_at
        older_of_all k a q e =
            All-by_key job_id (λ c. c.created_at ≤ r.created_at) (candidates locked limit db) k q a
              e

        older_of_candidate :
            (k : Text) (c : JobRow)
            → ((q : JobRow)
                → by_key job_id k (candidates locked limit db) ≡ some q
                → q.created_at ≤ r.created_at)
            → by_key job_id k (claim_batch t locked limit owner now db).0 ≡ some c
            → c.created_at ≤ r.created_at
        older_of_candidate k c all h =
            elim (Option-cases (by_key job_id k (candidates locked limit db))) [
              | inl none_there ↦ absurd (ground (arith, claimed_iff k))
              | inr (q, chosen) ↦
                  let (there, _, _) =
                    t.select_oldest_sound locked is_queued (λ q. q.created_at) limit db k q
                      chosen in
                  let young = all q chosen in ground (arith, claim-returned k, there, young)
            ]

  module _ (limit limit' : ℕ) (owner owner' : Text) (now now' : ℕ) (db : Db) where
    -- Two pods that claim one after the other get disjoint batches, whatever else is locked.
    pub claim_batch-disjoint :
        (locked locked' : Text → Bool) (j : Text)
        → let (first, db') = claim_batch t locked limit owner now db in
          is_some (by_key job_id j first) ≡ true
          → by_key job_id j (claim_batch t locked' limit' owner' now' db').0 ≡ none
    unfolding claim_values is_queued
    claim_batch-disjoint locked locked' j h =
        let first = claim_batch t locked limit owner now db in
        elim (Option-cases (by_key job_id j first.0)) [
          | inl out ↦ absurd (ground arith)
          | inr (r, mine) ↦
              let (q, _, _, _, taken, there) = claimed_row locked limit owner now db j r mine in
              elim (Option-cases
                (by_key job_id j (claim_batch t locked' limit' owner' now' first.1).0)) [
                  | inl out ↦ out
                  | inr (r', theirs) ↦
                      let (q', there', waiting, _, _, _) =
                        claimed_row locked' limit' owner' now' first.1 j r' theirs in
                      absurd (ground (arith, there, there', waiting, taken))
                ]
        ]

    -- Two pods whose statements overlap do too: the second skips the rows that the first has locked.
    pub claim_batch-skip_locked :
        (locked' : Text → Bool) (j : Text)
        → is_some (by_key job_id j (claim_batch t (λ k. false) limit owner now db).0) ≡ true
        → (locked' j ≡ is_some (by_key job_id j (candidates (λ k. false) limit db)))
        → by_key job_id j (claim_batch t locked' limit' owner' now' db).0 ≡ none
    claim_batch-skip_locked locked' j h held =
        elim (Option-cases (by_key job_id j (claim_batch t locked' limit' owner' now' db).0)) [
          | inl out ↦ out
          | inr (r', theirs) ↦
              let (q', _, _, free, _, _) = claimed_row locked' limit' owner' now' db j r' theirs in
              absurd (ground (arith, free, held, claimed_iff (λ k. false) limit owner now db j))
        ]
