-- ===== src/Tests/Writes.antt =====
-- Runs of the tools that write facts, for the owner of the small ledger.
use murray_context_ledger_mc.Base.{
  ◌≡◌, refl, inl, inr, ◌^◌, String, true, some, none, List, [], ◌∷◌, Has,
}
use murray_context_ledger_mc.Effect.{Result, ok}
use murray_context_ledger_mc.Effect.Runs.{Runs}
use murray_context_ledger_mc.Json.{Json}
use murray_context_ledger_mc.Uuid.{is_uuid}
use murray_context_ledger_mc.Schemas.{FactInput}
use murray_context_ledger_mc.Db.{client_for_subject}
use murray_context_ledger_mc.Store.{Tables, FactRow, user_org_ids}
use murray_context_ledger_mc.Store.Backend.{patch_row}
use murray_context_ledger_mc.Server.Env.{Env}
use murray_context_ledger_mc.Server.Context.{ToolContext, begin, audit_row}
use murray_context_ledger_mc.Server.Context.Begin.{Begun}
use murray_context_ledger_mc.Server.Scope.{may_review, effective_scopes, scoped_pending_facts}
use murray_context_ledger_mc.Server.Write.{Outcome, created, deduped, fact_status, insert_fact}
use murray_context_ledger_mc.Server.Write.Inserted.{Inserted, insert_fact_returned}
use murray_context_ledger_mc.Server.Write.Idempotent.{insert_fact_twice}
use murray_context_ledger_mc.Server.Tools.Remember.{Remembered, remember_facts}
use murray_context_ledger_mc.Server.Tools.Remember.Batch.{Batch, remember_facts_returned}
use murray_context_ledger_mc.Server.Tools.Supersede.{
  Superseded, not_found, replaced, retire, supersede_fact,
}
use murray_context_ledger_mc.Server.Tools.Supersede.Outcomes.{
  Outcomes, supersede_arguments, supersede_fact_returned,
}
use murray_context_ledger_mc.Server.Tools.Supersede.SameKey.{contents, supersede_same_key}
use murray_context_ledger_mc.Server.Tools.Review.{
  promote, Reviewed, not_pending, tool_name, review_arguments, review_decision,
}
use murray_context_ledger_mc.Server.Tools.Review.Decided.{Review, review_decision_returned}
use murray_context_ledger_mc.Tests.Memory.{fresh_id}
use murray_context_ledger_mc.Tests.Seated.{memory-IsLawful}
use murray_context_ledger_mc.Tests.World.{
  as_user, as_user-IsLawfulEnv, ledger, shelf, shelf-UniqueKeys, tea, coffee, tea_row, fact_of,
  sent, owner_context, value, returned,
}

abbrev owner : Env
owner = as_user "u1" "app"

abbrev meal : FactInput
meal = fact_of "Lunch at one" (some "meal")

abbrev insert_run : Result (Outcome × String) × Tables
insert_run = insert_fact owner owner_context meal shelf

abbrev inserted : Outcome × String
inserted = value (deduped, "") insert_run

insert-Runs : Runs (insert_fact owner owner_context meal) shelf inserted insert_run.1
unfolding insert_fact user_org_ids fresh_id
insert-Runs = returned (insert_fact owner owner_context meal) shelf (deduped, "") refl

insert_fact_example : Inserted owner owner_context meal inserted.0 inserted.1 shelf insert_run.1
insert_fact_example =
    insert_fact_returned owner memory-IsLawful owner_context meal refl shelf inserted insert_run.1
      insert-Runs

abbrev again_run : Result (Outcome × String) × Tables
again_run = insert_fact owner owner_context meal insert_run.1

abbrev again : Outcome × String
again = value (created, "") again_run

again-Runs : Runs (insert_fact owner owner_context meal) insert_run.1 again again_run.1
unfolding insert_fact user_org_ids fresh_id
again-Runs = returned (insert_fact owner owner_context meal) insert_run.1 (created, "") refl

insert_fact_twice_example :
    (again.0 ≡ deduped) × (again.1 ≡ inserted.1) × (again_run.1 ≡ insert_run.1)
insert_fact_twice_example =
    insert_fact_twice owner owner_context meal memory-IsLawful refl "meal" shelf inserted
      insert_run.1 again again_run.1 refl shelf-UniqueKeys insert-Runs again-Runs

abbrev batch : List Json
batch =
    sent "Lunch at one" (some "meal")
    ∷ sent "" none
    ∷ sent "Lunch at noon" (some "meal")
    ∷ sent "Likes tea" (some "drink")
    ∷ []

abbrev nothing_stored : Remembered
nothing_stored = record {
  created = [];
  deduped = [];
  invalid = [];
  counts = record { created = 0; deduped = 0; invalid = 0 };
  connector_source = none;
}

abbrev batch_run : Result Remembered × Tables
batch_run = remember_facts owner batch shelf

batch-Runs : Runs (remember_facts owner batch) shelf (value nothing_stored batch_run) batch_run.1
unfolding remember_facts begin client_for_subject user_org_ids insert_fact fresh_id audit_row
batch-Runs = returned (remember_facts owner batch) shelf nothing_stored refl

remember_facts_example :
    Batch owner
      (as_user-IsLawfulEnv "u1" "app")
      batch
      (value nothing_stored batch_run)
      shelf
      batch_run.1
remember_facts_example =
    remember_facts_returned owner (as_user-IsLawfulEnv "u1" "app") batch shelf
      (value nothing_stored batch_run) batch_run.1 batch-Runs

abbrev green : Json
green = sent "Green tea" none

abbrev swap_run : Result Superseded × Tables
swap_run = supersede_fact owner tea green shelf

swap-Runs : Runs (supersede_fact owner tea green) shelf (value not_found swap_run) swap_run.1
unfolding supersede_fact begin client_for_subject user_org_ids is_uuid insert_fact fresh_id
    audit_row
swap-Runs = returned (supersede_fact owner tea green) shelf not_found refl

supersede_fact_example :
    (is_uuid tea ≡ true)
    × (ctx : ToolContext) × (mid : Tables) × Begun owner "supersede_fact"
        (supersede_arguments tea green)
        shelf
        ctx
        mid
    × Outcomes owner ctx tea green (value not_found swap_run) mid swap_run.1
supersede_fact_example =
    supersede_fact_returned owner (as_user-IsLawfulEnv "u1" "app") tea green shelf
      (value not_found swap_run) swap_run.1 swap-Runs

abbrev corrected : Json
corrected = sent "Green tea" (some "drink")

abbrev lost_run : Result Superseded × Tables
lost_run = supersede_fact owner tea corrected shelf

lost_answer : lost_run.0 ≡ ok (replaced tea tea (fact_status (2 ^ 1073)) true)
unfolding supersede_fact begin client_for_subject user_org_ids is_uuid insert_fact audit_row
lost_answer = refl

only_tea : (r : FactRow) → Has r shelf.facts → r.id ≡ tea → r ≡ tea_row
only_tea r (inl e) named = e
only_tea r (inr m) named = absurd m

supersede_same_key_example :
    (tea ≡ tea)
    × (true ≡ true)
    × (contents lost_run.1.facts ≡ contents shelf.facts)
    × Has (patch_row (retire tea) tea_row) lost_run.1.facts
supersede_same_key_example =
    supersede_same_key owner (as_user-IsLawfulEnv "u1" "app") tea "drink" corrected
      (fact_of "Green tea" (some "drink")) tea_row shelf tea tea (fact_status (2 ^ 1073)) true
      lost_run.1 refl refl refl shelf-UniqueKeys only_tea (λ i. (lost_answer i, lost_run.1))

abbrev review_run : Result Reviewed × Tables
review_run = review_decision owner coffee promote none ledger

review-Runs :
    Runs
      (review_decision owner coffee promote none)
      ledger
      (value not_pending review_run)
      review_run.1
unfolding review_decision begin client_for_subject user_org_ids is_uuid scoped_pending_facts
    effective_scopes audit_row
review-Runs = returned (review_decision owner coffee promote none) ledger not_pending refl

review_decision_example :
    (ctx : ToolContext) × (mid : Tables) × Begun owner
      (tool_name promote)
      (review_arguments promote coffee none)
      ledger
      ctx
      mid
    × (may_review ctx.role ≡ true)
    × (is_uuid coffee ≡ true)
    × Review owner ctx coffee promote (value not_pending review_run) mid review_run.1
review_decision_example =
    review_decision_returned owner (as_user-IsLawfulEnv "u1" "app") coffee promote none ledger
      (value not_pending review_run) review_run.1 review-Runs
