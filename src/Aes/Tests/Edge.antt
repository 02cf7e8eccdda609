-- ===== src/Aes/Tests/Edge.antt =====
-- Requests at the edge of the task service, changes of the catalog, and calls of job_svc's client, with
-- the uses of their theorems.
use agent_exec_platform.Common.{
  none, some, List, ℕ, zero, suc, true, false, [], ◌∷◌, codes, text_eq, contains, ◌≡◌, refl,
  is_blank, is_truthy, strip, Option,
}
use agent_exec_platform.Common.Outcome.{raise}
use agent_exec_platform.Common.Grpc.{StatusCode, code_failed_precondition, code_unavailable}
use agent_exec_platform.Database.Table.{Table, by_key}
use agent_exec_platform.Database.Memory.{memory}
use agent_exec_platform.JobSvc.Jobs.Service.{Settings, create, get, update, retry}
use agent_exec_platform.Aes.Models.{app_error}
use agent_exec_platform.JobSvc.Samples.{jobs, backlog}
use agent_exec_platform.Aes.Agents.{
  AgentRow, agent_id, AgentFields, Catalog, has_any, create_agent, add_tool,
}
use agent_exec_platform.Aes.Links.{IsLinked}
use agent_exec_platform.Aes.Requests.{
  CatalogRequest, creating_agent, creating_tool, serve_all, serve_all-IsLinked,
}
use agent_exec_platform.Aes.JobClient.{
  submitted_spec, create_job_ref, get_job_ref, start_job_ref, retry_job_ref,
}
use agent_exec_platform.Aes.Refines.{viewed, first_view, job_client-view}
use agent_exec_platform.Aes.Servicer.{World}
use agent_exec_platform.Aes.Malformed.{create_task}
use agent_exec_platform.Aes.Edge as Edge
use agent_exec_platform.Aes.Tests.{tools, tasks, done_jobs, fractions}

abbrev agents : Table (AgentRow ℕ) agent_id
agents = memory agent_id

abbrev empty : Catalog agents tools
unfolding memory
empty = record { agent_rows = ([], tt); tool_rows = ([], tt); links = [] }

abbrev worker : AgentFields ℕ
worker = record {
  name = codes "worker";
  instructions = codes "work";
  llm_config_name = [];
  llm_config_temperature = 0;
}

-- Another tenant cannot link the tool, and a deletion takes the link away.
abbrev changes : List (CatalogRequest agents tools)
changes =
    creating_tool (codes "t") 0 (codes "acme") (codes "read") none false
    ∷ creating_agent (codes "a") 1 (codes "acme") worker (codes "t" ∷ codes "x" ∷ [])
    ∷ creating_agent (codes "b") 2 (codes "evil") worker (codes "t" ∷ [])
    ∷ []

one_link :
    (serve_all agents tools changes empty).links
    ≡ record { agent = codes "a"; tool = codes "t" } ∷ []
unfolding memory by_key text_eq contains create_agent add_tool
one_link = refl

serve_all-IsLinked_example : IsLinked agents tools (serve_all agents tools changes empty)
unfolding empty
serve_all-IsLinked_example = serve_all-IsLinked agents tools changes empty tt

abbrev world : World agents tools tasks done_jobs fractions
unfolding memory
world = record { catalog = empty; task_rows = ([], tt); job_state = 0 }

no_agent_no_task :
    Edge.rejection agents tools tasks done_jobs fractions
      (codes "t")
      5
      (some (codes "acme"))
      (create_task (codes "sum"))
      world
    ≡ some code_failed_precondition
unfolding has_any memory is_blank text_eq
no_agent_no_task = refl

serve-rejected_example :
    Edge.serve agents tools tasks done_jobs fractions
      (codes "t")
      5
      (some (codes "acme"))
      (create_task (codes "sum"))
      world
    ≡ (raise code_failed_precondition, world)
serve-rejected_example =
    Edge.serve-rejected agents tools tasks done_jobs fractions (codes "t") 5 (some (codes "acme"))
      (create_task (codes "sum")) world code_failed_precondition no_agent_no_task

abbrev budgets : Settings
budgets = record { default_max_attempts = 3; default_max_retries = 1 }

-- The clock's digits name the jobs; only the first call fails.
abbrev first_fails : ℕ → Option StatusCode
first_fails zero = some code_unavailable
first_fails (suc n) = none

acme_is_named : is_blank (codes "a") ≡ false
unfolding is_blank
acme_is_named = refl

sum_is_given : is_truthy (strip (codes "sum")) ≡ true
unfolding strip is_truthy
sum_is_given = refl

-- The outage is an error of no class, and changes nothing but the clock.
outage :
    start_job_ref jobs budgets (λ n. n ∷ []) first_fails (codes "t1") (codes "a") (backlog, 0)
    ≡ (raise app_error, (backlog, 1))
unfolding start_job_ref
outage = refl

job_client-view_example :
    (create_job_ref jobs budgets (λ n. n ∷ []) first_fails (codes "t1") (codes "sum") (backlog, 4)
      ≡ viewed jobs budgets
          (λ n. n ∷ [])
          first_fails
          []
          4
          (create jobs budgets
            (4 ∷ [])
            4
            (codes "t1")
            (codes "agent_execution")
            (submitted_spec (codes "sum"))
            none
            none
            backlog))
    × (get_job_ref jobs budgets (λ n. n ∷ []) first_fails (codes "t1") (codes "a") (backlog, 4) ≡ (
      first_view (codes "a") (get jobs (codes "t1") (codes "a" ∷ []) [] [] backlog),
      (backlog, 5),
    ))
    × (start_job_ref jobs budgets (λ n. n ∷ []) first_fails (codes "t1") (codes "a") (backlog, 4)
        ≡ viewed jobs budgets
            (λ n. n ∷ [])
            first_fails
            (codes "a")
            4
            (update jobs (codes "t1") (codes "a") (codes "queued") 4 backlog))
    × (retry_job_ref jobs budgets (λ n. n ∷ []) first_fails (codes "t1") (codes "a") (backlog, 4)
        ≡ viewed jobs budgets
            (λ n. n ∷ [])
            first_fails
            (codes "a")
            4
            (retry jobs (codes "t1") (codes "a") 4 backlog))
job_client-view_example =
    job_client-view jobs budgets (λ n. n ∷ []) first_fails 116 (codes "1") (codes "a") (codes "sum")
      backlog 4 refl acme_is_named sum_is_given
