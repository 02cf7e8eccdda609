-- ===== src/Aes/Tests.antt =====
-- Runs of the task service against a fixed job_svc, and the uses of its theorems.
mod Edge
use agent_exec_platform.Common.{
  Text, Option, none, List, arith, ℕ, suc, true, false, [], ◌∷◌, codes, text_eq, some, ◌≡◌, refl,
  All, ◌↔◌, ◌≤◌, is_truthy,
}
use agent_exec_platform.Common.Outcome.{ok, raise}
use agent_exec_platform.Database.Table.{Distinct, Table, by_key}
use agent_exec_platform.Database.Memory.{memory}
use agent_exec_platform.Common.Grpc.{StatusCode}
use agent_exec_platform.JobSvc.Models.{JobStatus, JobRow, no_progress}
use agent_exec_platform.JobSvc.Jobs.Service.{Settings}
use agent_exec_platform.JobSvc.Samples.{jobs, job, holding as a_job_svc}
use agent_exec_platform.Aes.JobClient.{job_client}
use agent_exec_platform.Aes.Models.{
  running, completed, failed, app_error, TaskRow, task_id, JobRef, JobProgressRef, JobGateway,
}
use agent_exec_platform.Aes.Progress.{Floats, is_terminal, view_of, view_of-IsConsistent}
use agent_exec_platform.Aes.Tasks.{get, load}
use agent_exec_platform.Aes.Snapshots.{get-terminal}
use agent_exec_platform.Aes.Tools.{ToolRow, tool_id, create_tool}
use agent_exec_platform.Aes.Names.{
  IsUnique, ToolRequest, creating, apply_requests, apply_requests-IsUnique,
}
use agent_exec_platform.Aes.Tenancy.{
  create_task, get_tasks, approve_task, handle_all, handle_all-foreign,
}

abbrev pub tools : Table ToolRow tool_id
tools = memory tool_id

abbrev pub no_tools : tools.Db
unfolding memory
no_tools = ([], tt)

no_tools-IsUnique : IsUnique tools no_tools
unfolding memory by_key
no_tools-IsUnique j k r s f g same named = ground arith

abbrev two_creations : List (ToolRequest tools)
two_creations =
    creating (codes "1") 0 (codes "acme") (codes "read") none false
    ∷ creating (codes "2") 1 (codes "acme") (codes "read") none true
    ∷ []

-- The second tool of the name is refused.
second_is_refused : tools.find (codes "2") (apply_requests tools two_creations no_tools) ≡ none
unfolding create_tool memory text_eq
second_is_refused = refl

apply_requests-IsUnique_example : IsUnique tools (apply_requests tools two_creations no_tools)
apply_requests-IsUnique_example =
    apply_requests-IsUnique tools two_creations no_tools no_tools-IsUnique

abbrev pub tasks : Table TaskRow task_id
tasks = memory task_id

abbrev pub done_job : JobRef
done_job = record { id = codes "j"; status = some JobStatus.succeeded; result = codes "42" }

-- Every job is done; a call that mutates is counted.
abbrev pub done_jobs : JobGateway
done_jobs = record {
  State = ℕ;
  create_job = λ tenant input n. (ok done_job, suc n);
  get_job = λ tenant job n. (ok done_job, n);
  start_job = λ tenant job n. (ok done_job, suc n);
  retry_job = λ tenant job n. (raise app_error, suc n);
  get_job_progress = λ tenant job n. (raise app_error, n);
}

abbrev pub open_task : TaskRow
open_task = record {
  id = codes "t";
  tenant_id = codes "acme";
  input = codes "sum";
  job_id = codes "j";
  status = running;
  result = [];
  created_at = 0;
  updated_at = 0;
}

one_task : (r : TaskRow) → Distinct task_id (r ∷ [])
unfolding by_key
one_task r = (refl, tt)

abbrev holding : TaskRow → tasks.Db
unfolding memory
holding r = (r ∷ [], one_task r)

open_task_found : tasks.find (codes "t") (holding open_task) ≡ some open_task
unfolding memory by_key text_eq
open_task_found = refl

-- The gateway of the program itself, to a job_svc that has one job, which runs.
abbrev own_budgets : Settings
own_budgets = record { default_max_attempts = 3; default_max_retries = 1 }

abbrev no_ids : ℕ → Text
no_ids n = n ∷ []

abbrev never_fails : ℕ → Option StatusCode
never_fails n = none

abbrev live_job : JobRow
live_job = record (job (codes "j") JobStatus.waiting_approval none no_progress 1) {
  tenant_id = codes "acme";
}

abbrev client : JobGateway
client = job_client jobs own_budgets no_ids never_fails

abbrev live_ref : JobRef
live_ref = record { id = codes "j"; status = some JobStatus.waiting_approval; result = [] }

abbrev clock_at : ℕ → client.State
unfolding job_client
clock_at n = (a_job_svc live_job, n)

done_task_loaded :
    All
      (λ r. is_terminal r.status ≡ true)
      (load tasks done_jobs (codes "acme") [] (holding (record open_task { status = completed })))
unfolding load memory text_eq is_terminal
done_task_loaded = (refl, tt)

get-terminal_example :
    get tasks done_jobs (codes "acme") [] 5 (holding (record open_task { status = completed })) 0
    ≡ (
      load tasks done_jobs (codes "acme") [] (holding (record open_task { status = completed })),
      holding (record open_task { status = completed }),
      0,
    )
get-terminal_example =
    get-terminal tasks done_jobs (codes "acme") 5 []
      (holding (record open_task { status = completed })) 0 done_task_loaded

foreign_owner : text_eq open_task.tenant_id (codes "evil") ≡ false
unfolding text_eq
foreign_owner = refl

handle_all-foreign_example :
    tasks.find
      (codes "t")
      (handle_all tasks done_jobs
        (codes "evil")
        (approve_task (codes "t") 3 ∷ get_tasks [] 4 ∷ create_task (codes "u") 5 [] ∷ [])
        (holding open_task, 0)).0
    ≡ some open_task
handle_all-foreign_example =
    handle_all-foreign tasks done_jobs (codes "evil")
      (approve_task (codes "t") 3 ∷ get_tasks [] 4 ∷ create_task (codes "u") 5 [] ∷ [])
      (holding open_task, 0) (codes "t") open_task open_task_found foreign_owner

-- Percentages as pairs of the finished and the planned steps.
abbrev pub fractions : Floats
fractions = record {
  Number = ℕ × ℕ;
  zero_percent = (0, 1);
  hundred_percent = (1, 1);
  percent_of = λ done total. (done, total);
  digits = λ n. codes "n";
}

abbrev waiting_progress : JobProgressRef
waiting_progress = record {
  status = some JobStatus.waiting_approval;
  steps_total = 2;
  steps = [];
  error = codes "late";
  result = [];
}

view_of-IsConsistent_example :
    ((view_of fractions (codes "t") 7 waiting_progress).steps_completed
      ≤ (view_of fractions (codes "t") 7 waiting_progress).steps_total)
    × (((view_of fractions (codes "t") 7 waiting_progress).requires_approval ≡ true)
        ↔ (waiting_progress.status ≡ some JobStatus.waiting_approval))
    × (is_truthy (view_of fractions (codes "t") 7 waiting_progress).error ≡ true
        → (view_of fractions (codes "t") 7 waiting_progress).status ≡ failed)
view_of-IsConsistent_example = view_of-IsConsistent fractions (codes "t") 7 waiting_progress
