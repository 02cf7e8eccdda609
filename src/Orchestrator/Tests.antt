-- ===== src/Orchestrator/Tests.antt =====
-- Runs of the workbench, and the uses of its theorems.
mod Samples
mod Teams
use agent_exec_platform.Common.{
  ap, arith, leb, some, length, text_eq, contains, ℕ, zero, suc, true, false, List, [], ◌∷◌, ◌++◌,
  Text, codes, none, ◌≡◌, refl, any,
}
use agent_exec_platform.Common.Outcome.{ok}
use agent_exec_platform.Orchestrator.Workbench.{Workbench, Server, text_content}
use agent_exec_platform.Orchestrator.Chat.{
  ToolCall, call_all, finish_reason, approval_finish_reason,
}
use agent_exec_platform.Orchestrator.Slugs.{Characters, slugify_all, IsFresh, slugify_all-IsFresh}
use agent_exec_platform.Orchestrator.Tests.Samples.{counting, unary, ones_injective}
use agent_exec_platform.Orchestrator.Gate.{serve, waits, call_all-serve, finish_reason-waits}

abbrev desk : Workbench
desk = record {
  tenant_id = codes "acme";
  allowed = codes "read" ∷ codes "pay" ∷ [];
  mutating = codes "pay" ∷ [];
  approved = false;
  pending_approvals = [];
}

abbrev three_calls : List (ToolCall Text)
three_calls =
    record { name = codes "read"; arguments = [] }
    ∷ record { name = codes "pay"; arguments = [] }
    ∷ record { name = codes "drop"; arguments = [] }
    ∷ []

one_call_arrives : (call_all counting three_calls desk 0).1 ≡ 1
unfolding call_all contains text_eq
one_call_arrives = refl

both_calls_arrive : (call_all counting three_calls (record desk { approved = true }) 0).1 ≡ 2
unfolding call_all contains text_eq
both_calls_arrive = refl

call_all-serve_example :
    (call_all counting three_calls desk 0).1 ≡ serve counting desk three_calls 0
call_all-serve_example = call_all-serve counting three_calls desk 0

pay_waits : any (λ (c : ToolCall Text). waits counting desk c.name) three_calls ≡ true
unfolding any contains text_eq
pay_waits = refl

finish_reason-waits_example :
    finish_reason ([] ++ (call_all counting three_calls desk 0).0 ∷ desk ∷ []) none
    ≡ approval_finish_reason
finish_reason-waits_example =
    finish_reason-waits counting [] (desk ∷ []) desk three_calls 0 none pay_waits

numbers_repeat :
    slugify_all unary (codes "a b" ∷ codes "a-b" ∷ []) [] ≡ some (codes "a_b" ∷ codes "a_b_11" ∷ [])
unfolding slugify_all text_eq
numbers_repeat = refl

slugify_all-IsFresh_example :
    (slugs : List Text) × (slugify_all unary (codes "a b" ∷ codes "a-b" ∷ []) [] ≡ some slugs)
    × (length slugs ≡ 2)
    × IsFresh unary ones_injective [] slugs
slugify_all-IsFresh_example =
    slugify_all-IsFresh unary ones_injective (codes "a b" ∷ codes "a-b" ∷ []) []
