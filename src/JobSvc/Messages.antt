-- ===== src/JobSvc/Messages.antt =====
-- services/job_svc/src/job_svc/mappers.py and servicer.py: what the RPCs promise their callers.
use agent_exec_platform.Common.{
  ◌==◌, if◌then◌else◌, ℕ, ◌≤◌, ◌+◌, List, [], ◌∷◌, All, ◌≡◌, refl, ap, ◌∙◌, arith,
}
use agent_exec_platform.JobSvc.Models.{Progress, Step}
use agent_exec_platform.JobSvc.Runner.Execute.{or_empty}
use agent_exec_platform.JobSvc.Mappers.{
  JobStep, insert_step, sorted_steps, step_to_proto, progress_to_proto,
}

-- The steps are in the order of their index.
abbrev pub IsOrdered : List JobStep → Type 0
IsOrdered [] = Unit
IsOrdered (s ∷ ss) = All (λ u. s.index ≤ u.index) ss × IsOrdered ss

-- How many steps have an index.
abbrev pub count_index : ℕ → List JobStep → ℕ
count_index k [] = 0
count_index k (s ∷ ss) = (if s.index == k then 1 else 0) + count_index k ss

abbrev pub count_key : ℕ → List (ℕ × Step) → ℕ
count_key k [] = 0
count_key k (e ∷ es) = (if e.0 == k then 1 else 0) + count_key k es

All-le :
    (a b : ℕ) (ss : List JobStep) → a ≤ b → All (λ u. b ≤ u.index) ss → All (λ u. a ≤ u.index) ss
All-le a b [] h l = tt
All-le a b (s ∷ ss) h (x, l) = (omega arith, All-le a b ss h l)

insert_step-All :
    (a : ℕ) (s : JobStep) (ss : List JobStep)
    → a ≤ s.index
    → All (λ u. a ≤ u.index) ss
    → All (λ u. a ≤ u.index) (insert_step s ss)
unfolding insert_step
insert_step-All a s [] h l = (h, tt)
insert_step-All a s (u ∷ us) h (x, l) = ground (arith, insert_step-All a s us h l)

insert_step-IsOrdered :
    (s : JobStep) (ss : List JobStep) → IsOrdered ss → IsOrdered (insert_step s ss)
unfolding insert_step
insert_step-IsOrdered s [] o = (tt, tt)
insert_step-IsOrdered s (u ∷ us) (l, o) =
    ground
      (arith, insert_step-IsOrdered s us o, insert_step-All u.index s us, All-le s.index u.index us)

count-insert_step :
    (k : ℕ) (s : JobStep) (ss : List JobStep)
    → count_index k (insert_step s ss) ≡ (if s.index == k then 1 else 0) + count_index k ss
unfolding insert_step
count-insert_step k s [] = refl
count-insert_step k s (u ∷ us) = ground (arith, count-insert_step k s us)

sorted_steps-IsOrdered : (es : List (ℕ × Step)) → IsOrdered (sorted_steps es)
unfolding sorted_steps
sorted_steps-IsOrdered [] = tt
sorted_steps-IsOrdered (e ∷ es) =
    insert_step-IsOrdered (step_to_proto e) (sorted_steps es) (sorted_steps-IsOrdered es)

count-sorted_steps :
    (k : ℕ) (es : List (ℕ × Step)) → count_index k (sorted_steps es) ≡ count_key k es
unfolding sorted_steps
count-sorted_steps k [] = refl
count-sorted_steps k (e ∷ es) =
    count-insert_step k (step_to_proto e) (sorted_steps es)
    ∙ ap (λ n. (if e.0 == k then 1 else 0) + n) (count-sorted_steps k es)

-- The steps of the message come in the order of their index, and each index comes as often as the
-- stored progress has it.
pub progress_to_proto-IsOrdered :
    (p : Progress) (k : ℕ)
    → IsOrdered (progress_to_proto p).steps
      × (count_index k (progress_to_proto p).steps ≡ count_key k (or_empty p.steps))
unfolding progress_to_proto
progress_to_proto-IsOrdered p k =
    (sorted_steps-IsOrdered (or_empty p.steps), count-sorted_steps k (or_empty p.steps))
