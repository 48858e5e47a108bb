-- ===== src/Tests/Broken.antt =====
-- Calls that Postgres breaks off: a batch of which the second fact is refused, since its content has
-- the code point 0, and a supersession by a role that may not update facts.
use murray_context_ledger_mc.Base.{
  ◌≡◌, refl, ◌==◌, false, none, some, String, List, [], ◌∷◌, ◌++◌, All, Has,
}
use murray_context_ledger_mc.Effect.{Result, err, api_error}
use murray_context_ledger_mc.Effect.Runs.{Runs}
use murray_context_ledger_mc.Json.{Json, array, object, field, end}
use murray_context_ledger_mc.Store.{Tables, FactRow, eq_id, user_org_ids}
use murray_context_ledger_mc.Server.Env.{Env}
use murray_context_ledger_mc.Server.Context.{ToolContext, begin}
use murray_context_ledger_mc.Server.Write.{
  unique_violation, fact_row, insert_fact, Outcome, deduped,
}
use murray_context_ledger_mc.Server.Tools.Remember.{
  Tally, empty, items_of, remember_loop, remember_facts,
}
use murray_context_ledger_mc.Server.Tools.Remember.Progress.{MadeFrom}
use murray_context_ledger_mc.Server.Tools.Remember.Broken.{remember_facts_broken}
use murray_context_ledger_mc.Db.{client_for_subject}
use murray_context_ledger_mc.Uuid.{is_uuid}
use murray_context_ledger_mc.Server.Write.Inserted.{Inserted}
use murray_context_ledger_mc.Server.Tools.Supersede.{target_query, retire, supersede_fact}
use murray_context_ledger_mc.Server.Tools.Supersede.Outcomes.{supersede_arguments}
use murray_context_ledger_mc.Server.Tools.Supersede.Broken.{supersede_fact_broken}
use murray_context_ledger_mc.Tests.Memory.{fresh_id}
use murray_context_ledger_mc.Tests.World.{
  as_user, as_user-IsLawfulEnv, world_with, world_with-IsLawfulEnv, token_of, tea, tea_row, shelf,
  fact_of, sent, owner_context, value, returned,
}

abbrev owner : Env
owner = as_user "u1" "app"

abbrev done : List Json
done = sent "Lunch at one" none ∷ []

abbrev nul : Json
nul = sent "a\0b" none

abbrev arguments : Json
arguments = object (field "facts" (array (items_of (done ++ (nul ∷ [])))) end)

abbrev begin_run : Result ToolContext × Tables
begin_run = begin owner "remember_facts" arguments shelf

abbrev ctx : ToolContext
ctx = value owner_context begin_run

begin-Runs : Runs (begin owner "remember_facts" arguments) shelf ctx begin_run.1
unfolding begin client_for_subject user_org_ids
begin-Runs = returned (begin owner "remember_facts" arguments) shelf owner_context refl

abbrev loop_run : Result Tally × Tables
loop_run = remember_loop owner ctx 0 done empty begin_run.1

loop-Runs :
    Runs (remember_loop owner ctx 0 done empty) begin_run.1 (value empty loop_run) loop_run.1
unfolding remember_loop insert_fact begin client_for_subject user_org_ids fresh_id
loop-Runs = returned (remember_loop owner ctx 0 done empty) begin_run.1 empty refl

abbrev refused_run : Result (List FactRow) × Tables
refused_run = owner.backend.insert_fact ctx.db (fact_row ctx (fact_of "a\0b" none)) loop_run.1

refusal : refused_run.0 ≡ err (api_error "22P05")
unfolding begin client_for_subject user_org_ids fact_row
refusal = refl

other_code : ("22P05" == unique_violation) ≡ false
other_code = refl

remember_facts_broken_example :
    (remember_facts owner (done ++ (nul ∷ [])) shelf ≡ (err (api_error "22P05"), loop_run.1))
    × (loop_run.1.audit_log ≡ shelf.audit_log)
    × (news : List FactRow) × All (MadeFrom owner ctx done) news
    × (loop_run.1.facts ≡ shelf.facts ++ news)
remember_facts_broken_example =
    remember_facts_broken owner (as_user-IsLawfulEnv "u1" "app") done nul [] (fact_of "a\0b" none)
      "22P05" ctx (value empty loop_run) shelf begin_run.1 loop_run.1 refused_run.1 begin-Runs
      loop-Runs refl other_code (λ i. (refusal i, refused_run.1))

abbrev grantless : Env
grantless = world_with false (some (token_of "u1" "app"))

abbrev green : Json
green = sent "Green tea" none

abbrev swap_begin : Result ToolContext × Tables
swap_begin = begin grantless "supersede_fact" (supersede_arguments tea green) shelf

abbrev swapper : ToolContext
swapper = value owner_context swap_begin

swap_begin-Runs :
    Runs
      (begin grantless "supersede_fact" (supersede_arguments tea green))
      shelf
      swapper
      swap_begin.1
unfolding begin client_for_subject user_org_ids
swap_begin-Runs =
    returned (begin grantless "supersede_fact" (supersede_arguments tea green)) shelf owner_context
      refl

found-Runs :
    Runs
      (grantless.backend.select_facts swapper.db (target_query tea))
      swap_begin.1
      (tea_row ∷ [])
      swap_begin.1
unfolding begin client_for_subject user_org_ids target_query
found-Runs = refl

abbrev green_run : Result (Outcome × String) × Tables
green_run = insert_fact grantless swapper (fact_of "Green tea" none) swap_begin.1

abbrev stored : Outcome × String
stored = value (deduped, "") green_run

stored-Runs :
    Runs (insert_fact grantless swapper (fact_of "Green tea" none)) swap_begin.1 stored green_run.1
unfolding insert_fact begin client_for_subject user_org_ids fresh_id
stored-Runs =
    returned (insert_fact grantless swapper (fact_of "Green tea" none)) swap_begin.1 (deduped, "")
      refl

no_grant :
    grantless.backend.update_facts swapper.db (retire stored.1) (eq_id tea ∷ []) green_run.1
    ≡ (err (api_error "42501"), green_run.1)
no_grant = refl

supersede_fact_broken_example :
    (supersede_fact grantless tea green shelf ≡ (err (api_error "42501"), green_run.1))
    × (green_run.1.audit_log ≡ shelf.audit_log)
    × (mid : Tables) × (mid.facts ≡ shelf.facts)
    × Inserted grantless swapper (fact_of "Green tea" none) stored.0 stored.1 mid green_run.1
    × (tea_row.id ≡ tea)
    × Has tea_row shelf.facts
    × Has tea_row green_run.1.facts
unfolding is_uuid
supersede_fact_broken_example =
    supersede_fact_broken grantless (world_with-IsLawfulEnv false (some (token_of "u1" "app"))) tea
      green (fact_of "Green tea" none) "42501" swapper tea_row [] stored shelf swap_begin.1
      swap_begin.1 green_run.1 green_run.1 refl refl swap_begin-Runs found-Runs stored-Runs no_grant
