-- ===== src/Lib.antt =====
-- A model of the agent execution platform, five services that plan and run the tasks of tenants.
--
-- The parts and how they interact. A task is submitted to the agent execution service, which keeps a
-- row of its own and hands the work to job_svc as a job. job_svc queues jobs in a table; a poller
-- claims them under a lease, a runner plans a job and asks the orchestrator for one chat turn per
-- step, checkpoints every step, and reports how the run ended. The orchestrator lets the agents of
-- a tenant call tools through a workbench that stops mutating tools until a human approves; the tools
-- are served by mcp_svc. Every model call goes through the gateway, which screens it first.
--
-- Where the parts are modelled (paths from the repository's root):
--   Common        texts as code points, tests, lists, and the outcomes of code that raises
--   Database      the interface of one SQL table and an instance of it in memory
--   JobSvc        services/job_svc/src/job_svc: models.py and errors.py (Models), services/jobs.py
--                 (Jobs), orchestrator_client.py (Orchestrator), runner.py (Runner), mappers.py (Mappers),
--                 validators.py, auth.py and servicer.py (Servicer), poller.py (Poller)
--   Aes           services/agent_execution_service/src/agent_execution_service: models.py,
--                 errors.py and the protocol of job_client.py (Models), services/tasks.py
--                 (Progress, Tasks), services/tools.py (Tools), services/agents.py with the three
--                 tables of the catalog (Agents), job_client.py over JobSvc.Servicer (JobClient),
--                 mappers.py (Mappers), validators.py and auth.py (Validators), servicer.py (Servicer)
--   Gateway       services/gateway/src/gateway: guardrails.py (Guardrails), models.py and errors.py
--                 (Models), provider_zen.py (Zen), provider.py (OpenAi), servicer.py (Servicer)
--   Orchestrator  services/orchestrator/src/orchestrator: mcp_workbench.py (Workbench), run.py and
--                 the approval sink of groupchat.py (Chat), its slugs (Slugs), participants and
--                 selectors (GroupChat) and session (Team), agents_repo.py (AgentsRepo),
--                 model_client.py (ModelClient), servicer.py, auth.py and the rest of run.py
--                 (Servicer)
--   McpSvc        services/mcp_svc/src/mcp_svc: handlers.py (Handlers), server.py and tools.py
--                 (Server)
-- The other modules hold proofs, named for what they prove, and a module Tests in each part holds
-- runs of its definitions. A Python function keeps its name, less a leading underscore.
--
-- How the code is modelled. A method of a service is a function of a table that returns an outcome
-- and the table after it; one that raises rolls its transaction back. A statement of SQLAlchemy is an
-- operation of the interface Table, which states what PostgreSQL does to the row of every key; the
-- memory instance fulfils it, so that the definitions run. Status words are enums. Times are whole
-- numbers. The clock, new ids, the orchestrator, job_svc as the task service sees it, the tool server,
-- JSON, SQL and URL parsing, lower-casing, regular expressions and floats are parameters, and so are
-- the HTTP exchange and the SDK of the providers, the order of names in a query, Python's repr, and
-- which calls to job_svc the channel fails. The SQL server evaluates a statement on the rows of its
-- table references; its functions that run queries of their own are left out. What AutoGen's constructors are given is data. While a
-- run of a job goes on, Environment.others says what other transactions do to the table between two
-- statements. The locks of FOR UPDATE SKIP LOCKED are a parameter of a claim. The loop that
-- makes a slug distinct runs on fuel, as many rounds as names are taken, since each round tries a
-- new candidate; every other loop runs over a list. The wording of errors is left out where
-- nothing reads it.
--
-- Not modelled: the loop and waits of the poller and the heartbeat task as processes, the run of a
-- team inside AutoGen, the HTTP exchanges, channels and their streaming, settings, process start
-- and generated code: they are I/O, or code that is not in the repository.
pub mod Common
pub mod Database
pub mod JobSvc
pub mod Aes
pub mod Gateway
pub mod Orchestrator
pub mod McpSvc
