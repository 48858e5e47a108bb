-- ===== src/Server/Request.antt =====
-- A call of one of the eleven tools that `_register_tools` registers, and how it is served.
pub mod Audited
pub mod Stopped
pub mod Denied
pub mod Reading
pub mod Walk
pub mod Kept
pub mod Answers
use murray_context_ledger_mc.Base.{String, Option, none, some, List, [], ◌∷◌}
use murray_context_ledger_mc.Base.Int.{ℤ}
use murray_context_ledger_mc.Json.{Json, text, int, array, object, field, end}
use murray_context_ledger_mc.Server.Env.{Env}
use murray_context_ledger_mc.Server.Context.{Call}
use murray_context_ledger_mc.Server.Tools.Profile.{get_profile}
use murray_context_ledger_mc.Server.Tools.Read.{
  opt_text, Hit, Fetched, search_context, get_recent_activity, search_ledger, fetch, ping,
}
use murray_context_ledger_mc.Server.Tools.Remember.{Remembered, items_of, remember_facts}
use murray_context_ledger_mc.Server.Tools.Supersede.{Superseded, supersede_fact}
use murray_context_ledger_mc.Server.Tools.Review.{
  Pending, Reviewed, promote, reject, tool_name, review_arguments, list_pending_facts, promote_fact,
  reject_fact,
}

pub data Request : Type 0 where
  profile_request : Request
  context_request : String → Request
  activity_request : Option String → Request
  search_request : String → Request
  fetch_request : String → Request
  ping_request : Request
  remember_request : List Json → Request
  supersede_request : String → Json → Request
  pending_request : ℤ → Request
  promote_request : String → Request
  reject_request : String → Option String → Request

-- The name under which the tool is registered.
unfoldable pub tool_of : Request → String
tool_of profile_request = "get_profile"
tool_of (context_request query) = "search_context"
tool_of (activity_request domain) = "get_recent_activity"
tool_of (search_request query) = "search"
tool_of (fetch_request id) = "fetch"
tool_of ping_request = "ping"
tool_of (remember_request facts) = "remember_facts"
tool_of (supersede_request old fact) = "supersede_fact"
tool_of (pending_request limit) = "list_pending_facts"
tool_of (promote_request id) = "promote_fact"
tool_of (reject_request id reason) = "reject_fact"

-- The arguments that the audit row is to carry a digest of.
unfoldable pub arguments_of : Request → Json
arguments_of profile_request = object end
arguments_of (context_request query) = object (field "query" (text query) end)
arguments_of (activity_request domain) = object (field "domain" (opt_text domain) end)
arguments_of (search_request query) = object (field "query" (text query) end)
arguments_of (fetch_request id) = object (field "id" (text id) end)
arguments_of ping_request = object end
arguments_of (remember_request facts) = object (field "facts" (array (items_of facts)) end)
arguments_of (supersede_request old fact) =
    object (field "old_fact_id" (text old) (field "new_fact" fact end))
arguments_of (pending_request limit) = object (field "limit" (int limit) end)
arguments_of (promote_request id) = object (field "fact_id" (text id) end)
arguments_of (reject_request id reason) =
    object (field "fact_id" (text id) (field "reason" (opt_text reason) end))

abbrev pub Reply : Request → Type 0
Reply profile_request = String
Reply (context_request query) = String
Reply (activity_request domain) = String
Reply (search_request query) = List Hit
Reply (fetch_request id) = Fetched
Reply ping_request = String
Reply (remember_request facts) = Remembered
Reply (supersede_request old fact) = Superseded
Reply (pending_request limit) = Pending
Reply (promote_request id) = Reviewed
Reply (reject_request id reason) = Reviewed

module _ (E : Env) where
  unfoldable pub serve : (q : Request) → Call E (Reply q)
  serve profile_request = get_profile E
  serve (context_request query) = search_context E query
  serve (activity_request domain) = get_recent_activity E domain
  serve (search_request query) = search_ledger E query
  serve (fetch_request id) = fetch E id
  serve ping_request = ping E
  serve (remember_request facts) = remember_facts E facts
  serve (supersede_request old fact) = supersede_fact E old fact
  serve (pending_request limit) = list_pending_facts E limit
  serve (promote_request id) = promote_fact E id
  serve (reject_request id reason) = reject_fact E id reason
