-- ===== src/Aes/Changes.antt =====
-- services/agent_execution_service/src/agent_execution_service/services/tasks.py: equal
-- statuses, and the rows that a filter keeps.
use agent_exec_platform.Common.{
  Bool, true, none, some, List, [], ◌∷◌, Text, filter, ◌≡◌, refl, Bool-cases, inl, inr, arith,
}
use agent_exec_platform.Database.Table.{by_key, Distinct}
use agent_exec_platform.Aes.Models.{
  TaskStatus, pending, running, waiting_approval, completed, failed, TaskRow, task_id,
}
use agent_exec_platform.Aes.Tasks.{same_status}

pub same_status→eq : (a b : TaskStatus) → same_status a b ≡ true → a ≡ b
unfolding same_status
same_status→eq pending pending h = refl
same_status→eq running running h = refl
same_status→eq waiting_approval waiting_approval h = refl
same_status→eq completed completed h = refl
same_status→eq failed failed h = refl
same_status→eq _ _ h = ground arith

pub by_key-filter :
    (p : TaskRow → Bool) (j : Text) (rows : List TaskRow) (r : TaskRow)
    → by_key task_id j rows ≡ some r
    → p r ≡ true
    → by_key task_id j (filter p rows) ≡ some r
unfolding by_key filter
by_key-filter p j [] r h k = ground arith
by_key-filter p j (x ∷ rows) r h k = ground (arith, by_key-filter p j rows r)

pub by_key-filter-none :
    (p : TaskRow → Bool) (j : Text) (rows : List TaskRow)
    → by_key task_id j rows ≡ none
    → by_key task_id j (filter p rows) ≡ none
unfolding by_key filter
by_key-filter-none p j [] h = refl
by_key-filter-none p j (x ∷ rows) h = ground (arith, by_key-filter-none p j rows)

pub filter-Distinct :
    (p : TaskRow → Bool) (rows : List TaskRow)
    → Distinct task_id rows
    → Distinct task_id (filter p rows)
unfolding filter
filter-Distinct p [] d = tt
filter-Distinct p (x ∷ rows) (out, d) = elim (Bool-cases (p x)) [
  | inl e ↦ rw e (by_key-filter-none p x.id rows out, filter-Distinct p rows d)
  | inr e ↦ rw e (filter-Distinct p rows d)
]
