-- ===== src/Server/Request/Walk.antt =====
-- A property that the steps of the tools have, all calls have.
use murray_context_ledger_mc.Base.{none}
use murray_context_ledger_mc.Server.Env.{Env}
use murray_context_ledger_mc.Server.Logic.{Logic}
use murray_context_ledger_mc.Server.Tools.Profile.Walk.{get_profile-Walk}
use murray_context_ledger_mc.Server.Tools.Read.Walk.{
  search_context-Walk, get_recent_activity-Walk, search_ledger-Walk, fetch-Walk, ping-Walk,
}
use murray_context_ledger_mc.Server.Tools.Remember.Walk.{remember_facts-Walk}
use murray_context_ledger_mc.Server.Tools.Supersede.Walk.{supersede_fact-Walk}
use murray_context_ledger_mc.Server.Tools.Review.{promote, reject, promote_fact, reject_fact}
use murray_context_ledger_mc.Server.Tools.Review.Walk.{
  list_pending_facts-Walk, review_decision-Walk,
}
use murray_context_ledger_mc.Server.Request.{
  Request, profile_request, context_request, activity_request, search_request, fetch_request,
  ping_request, remember_request, supersede_request, pending_request, promote_request,
  reject_request, Reply, serve,
}

module _ (E : Env) (G : Logic E) where
  pub serve-Walk : (q : Request) → G.Whole (Reply q) (serve E q)
  unfolding serve promote_fact reject_fact
  serve-Walk profile_request = get_profile-Walk E G
  serve-Walk (context_request query) = search_context-Walk E G query
  serve-Walk (activity_request domain) = get_recent_activity-Walk E G domain
  serve-Walk (search_request query) = search_ledger-Walk E G query
  serve-Walk (fetch_request id) = fetch-Walk E G id
  serve-Walk ping_request = ping-Walk E G
  serve-Walk (remember_request facts) = remember_facts-Walk E G facts
  serve-Walk (supersede_request old fact) = supersede_fact-Walk E G old fact
  serve-Walk (pending_request limit) = list_pending_facts-Walk E G limit
  serve-Walk (promote_request id) = review_decision-Walk E G id promote none
  serve-Walk (reject_request id reason) = review_decision-Walk E G id reject reason
