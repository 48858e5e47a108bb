-- ===== src/Tests/Reads.antt =====
-- Runs of the reading tools for the rep and the owner of the small ledger.
use murray_context_ledger_mc.Base.{
  ◌≡◌, refl, ◌≤◌, String, true, some, none, List, [], ◌∷◌, map, length, arith,
}
use murray_context_ledger_mc.Base.Int.{pos}
use murray_context_ledger_mc.Effect.{Result}
use murray_context_ledger_mc.Effect.Runs.{Runs}
use murray_context_ledger_mc.Uuid.{is_uuid}
use murray_context_ledger_mc.Db.{client_for_subject}
use murray_context_ledger_mc.Schemas.{FactType, FactSource}
use murray_context_ledger_mc.Store.{Tables, FactRow, FactStatus, user_org_ids}
use murray_context_ledger_mc.Server.Env.{Env}
use murray_context_ledger_mc.Server.Context.{begin, audit_row}
use murray_context_ledger_mc.Server.Scope.{may_review, effective_scopes, scoped_active_facts}
use murray_context_ledger_mc.Server.Search.{search_facts}
use murray_context_ledger_mc.Server.Tools.Read.{
  Hit, Fetched, search_text, hit, search_context, search_ledger, get_recent_activity, fetch, ping,
}
use murray_context_ledger_mc.Server.Tools.Read.Shown.{Shown}
use murray_context_ledger_mc.Server.Tools.Read.SearchAnswers.{
  query_arguments, search_context_returned, search_ledger_returned,
}
use murray_context_ledger_mc.Server.Tools.Read.ActivityAnswers.{
  Activity, get_recent_activity_returned,
}
use murray_context_ledger_mc.Server.Tools.Read.FetchAnswers.{Fetches, fetch_returned}
use murray_context_ledger_mc.Server.Tools.Read.PingAnswer.{Pings, ping_returned}
use murray_context_ledger_mc.Server.Tools.Profile.{profile_lines, get_profile}
use murray_context_ledger_mc.Server.Tools.Profile.Answer.{Profiles, get_profile_returned}
use murray_context_ledger_mc.Server.Tools.Profile.Budget.{Chosen, profile_lines-Chosen}
use murray_context_ledger_mc.Server.Tools.Review.{Pending, capped, list_pending_facts}
use murray_context_ledger_mc.Server.Tools.Review.Queue.{
  limit_arguments, list_pending_facts_returned,
}
use murray_context_ledger_mc.Tests.World.{
  as_user, as_user-IsLawfulEnv, ledger, tea, tea_row, value, returned,
}

abbrev rep : Env
rep = as_user "u2" "app"

abbrev owner : Env
owner = as_user "u1" "app"

abbrev context_run : Result String × Tables
context_run = search_context rep "Tea" ledger

context-Runs : Runs (search_context rep "Tea") ledger (value "" context_run) context_run.1
unfolding search_context begin client_for_subject user_org_ids search_facts scoped_active_facts
    effective_scopes audit_row
context-Runs = returned (search_context rep "Tea") ledger "" refl

search_context_example :
    (rows : List FactRow) × (value "" context_run ≡ search_text "Tea" rows)
    × Shown rep FactStatus.active "search_context"
        (query_arguments "Tea")
        none
        rows
        ledger
        context_run.1
search_context_example =
    search_context_returned rep (as_user-IsLawfulEnv "u2" "app") "Tea" ledger (value "" context_run)
      context_run.1 context-Runs

abbrev hits_run : Result (List Hit) × Tables
hits_run = search_ledger rep "Tea" ledger

hits-Runs : Runs (search_ledger rep "Tea") ledger (value [] hits_run) hits_run.1
unfolding search_ledger begin client_for_subject user_org_ids search_facts scoped_active_facts
    effective_scopes audit_row
hits-Runs = returned (search_ledger rep "Tea") ledger [] refl

search_ledger_example :
    (rows : List FactRow) × (value [] hits_run ≡ map (hit rep) rows)
    × Shown rep FactStatus.active "search" (query_arguments "Tea") none rows ledger hits_run.1
search_ledger_example =
    search_ledger_returned rep (as_user-IsLawfulEnv "u2" "app") "Tea" ledger (value [] hits_run)
      hits_run.1 hits-Runs

abbrev activity_run : Result String × Tables
activity_run = get_recent_activity rep (some "work") ledger

activity-Runs :
    Runs (get_recent_activity rep (some "work")) ledger (value "" activity_run) activity_run.1
unfolding get_recent_activity begin client_for_subject user_org_ids audit_row
activity-Runs = returned (get_recent_activity rep (some "work")) ledger "" refl

get_recent_activity_example :
    Activity rep (some "work") (value "" activity_run) ledger activity_run.1
get_recent_activity_example =
    get_recent_activity_returned rep (as_user-IsLawfulEnv "u2" "app") (some "work") ledger
      (value "" activity_run) activity_run.1 activity-Runs

abbrev no_fact : Fetched
no_fact = record {
  id = "";
  title = "";
  text = "";
  url = "";
  type = FactType.state;
  confidence = 0;
  scope_tags = [];
  source = FactSource.user_manual;
  first_seen = "";
  last_seen = "";
}

abbrev fetch_run : Result Fetched × Tables
fetch_run = fetch rep tea ledger

fetch-Runs : Runs (fetch rep tea) ledger (value no_fact fetch_run) fetch_run.1
unfolding fetch begin client_for_subject user_org_ids is_uuid scoped_active_facts effective_scopes
    audit_row
fetch-Runs = returned (fetch rep tea) ledger no_fact refl

fetch_example :
    (is_uuid tea ≡ true)
    × Fetches rep (as_user-IsLawfulEnv "u2" "app") tea (value no_fact fetch_run) ledger fetch_run.1
fetch_example =
    fetch_returned rep (as_user-IsLawfulEnv "u2" "app") tea ledger (value no_fact fetch_run)
      fetch_run.1 fetch-Runs

abbrev ping_run : Result String × Tables
ping_run = ping rep ledger

ping-Runs : Runs (ping rep) ledger (value "" ping_run) ping_run.1
unfolding ping begin client_for_subject user_org_ids audit_row
ping-Runs = returned (ping rep) ledger "" refl

ping_example : Pings rep (value "" ping_run) ledger ping_run.1
ping_example =
    ping_returned rep (as_user-IsLawfulEnv "u2" "app") ledger (value "" ping_run) ping_run.1
      ping-Runs

abbrev profile_run : Result String × Tables
profile_run = get_profile rep ledger

profile-Runs : Runs (get_profile rep) ledger (value "" profile_run) profile_run.1
unfolding get_profile begin client_for_subject user_org_ids audit_row
profile-Runs = returned (get_profile rep) ledger "" refl

get_profile_example :
    Profiles rep (as_user-IsLawfulEnv "u2" "app") (value "" profile_run) ledger profile_run.1
get_profile_example =
    get_profile_returned rep (as_user-IsLawfulEnv "u2" "app") ledger (value "" profile_run)
      profile_run.1 profile-Runs

profile_lines_example : Chosen 25 (tea_row ∷ []) (profile_lines 25 (tea_row ∷ []))
profile_lines_example = profile_lines-Chosen 25 (tea_row ∷ []) (omega arith)

abbrev no_page : Pending
no_page = record { pending = []; count = 0 }

abbrev queue_run : Result Pending × Tables
queue_run = list_pending_facts owner (pos 50) ledger

queue-Runs : Runs (list_pending_facts owner (pos 50)) ledger (value no_page queue_run) queue_run.1
unfolding list_pending_facts begin client_for_subject user_org_ids audit_row
queue-Runs = returned (list_pending_facts owner (pos 50)) ledger no_page refl

list_pending_facts_example :
    let answer = value no_page queue_run in
    (answer.count ≡ length answer.pending)
    × (answer.count ≤ capped (pos 50))
    × (shown : Shown owner FactStatus.pending_review "list_pending_facts"
        (limit_arguments (pos 50))
        none
        answer.pending
        ledger
        queue_run.1)
    × (may_review shown.recorded.ctx.role ≡ true)
list_pending_facts_example =
    list_pending_facts_returned owner (as_user-IsLawfulEnv "u1" "app") (pos 50) ledger
      (value no_page queue_run) queue_run.1 queue-Runs
