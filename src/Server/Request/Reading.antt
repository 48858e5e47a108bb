-- ===== src/Server/Request/Reading.antt =====
-- The tools that only read.
use murray_context_ledger_mc.Base.{◌≡◌, ap, ◌∙◌, String, Bool, true, false, Option, List}
use murray_context_ledger_mc.Effect.Runs.{Runs}
use murray_context_ledger_mc.Json.{Json}
use murray_context_ledger_mc.Store.{Tables}
use murray_context_ledger_mc.Server.Env.{Env, IsLawfulEnv}
use murray_context_ledger_mc.Server.Tools.Read.Shown.{Recorded}
use murray_context_ledger_mc.Server.Tools.Read.SearchAnswers.{
  search_context_returned, search_ledger_returned,
}
use murray_context_ledger_mc.Server.Tools.Read.ActivityAnswers.{
  Activity, denied, answered, get_recent_activity_returned,
}
use murray_context_ledger_mc.Server.Tools.Read.FetchAnswers.{fetch_returned}
use murray_context_ledger_mc.Server.Tools.Read.PingAnswer.{ping_returned}
use murray_context_ledger_mc.Server.Tools.Profile.Answer.{get_profile_returned}
use murray_context_ledger_mc.Server.Tools.Review.Queue.{list_pending_facts_returned}
use murray_context_ledger_mc.Server.Request.{
  Request, profile_request, context_request, activity_request, search_request, fetch_request,
  ping_request, remember_request, supersede_request, pending_request, promote_request,
  reject_request, Reply, serve,
}

abbrev pub only_reads : Request → Bool
only_reads (remember_request facts) = false
only_reads (supersede_request old fact) = false
only_reads (promote_request id) = false
only_reads (reject_request id reason) = false
only_reads _ = true

-- The tables that a reading call leaves alone.
abbrev pub SameFacts : Tables → Tables → Type 0
SameFacts before after =
    (after.facts ≡ before.facts)
    × (after.memberships ≡ before.memberships)
    × (after.orgs ≡ before.orgs)

module _ (E : Env) where
  Recorded-SameFacts :
      (tool : String) (arguments : Json) (ids : List String) (before after : Tables)
      → Recorded E tool arguments ids before after
      → SameFacts before after
  Recorded-SameFacts tool arguments ids before after r =
      let whole = r.audited in
      (
        ap (λ (t : Tables). t.facts) whole ∙ ap (λ (t : Tables). t.facts) r.begun.frame,
        ap (λ (t : Tables). t.memberships) whole ∙ ap (λ (t : Tables). t.memberships) r.begun.frame,
        ap (λ (t : Tables). t.orgs) whole ∙ ap (λ (t : Tables). t.orgs) r.begun.frame,
      )

  Activity-SameFacts :
      (domain : Option String) (answer : String) (before after : Tables)
      → Activity E domain answer before after
      → SameFacts before after
  Activity-SameFacts domain answer before after (denied d _ _ recorded _) =
      Recorded-SameFacts _ _ _ before after recorded
  Activity-SameFacts domain answer before after (answered rows _ shown _) =
      Recorded-SameFacts _ _ _ before after shown.recorded

module _ (E : Env) (L : IsLawfulEnv E) where
  -- A call of a tool that is not remember_facts, supersede_fact, promote_fact or reject_fact, when
  -- it returns, has left the facts, the memberships and the orgs as they were.
  pub serve-SameFacts :
      (q : Request) (s : E.backend.State) (a : Reply q) (t : E.backend.State)
      → only_reads q ≡ true
      → Runs (serve E q) s a t
      → SameFacts (E.backend.tables s) (E.backend.tables t)
  unfolding serve
  serve-SameFacts profile_request s a t k h =
      let (rows, _, _, _, _, shown) = get_profile_returned E L s a t h in
      Recorded-SameFacts E _ _ _ _ _ shown.recorded
  serve-SameFacts (context_request query) s a t k h =
      let (rows, _, shown) = search_context_returned E L query s a t h in
      Recorded-SameFacts E _ _ _ _ _ shown.recorded
  serve-SameFacts (activity_request domain) s a t k h =
      Activity-SameFacts E domain a _ _ (get_recent_activity_returned E L domain s a t h)
  serve-SameFacts (search_request query) s a t k h =
      let (rows, _, shown) = search_ledger_returned E L query s a t h in
      Recorded-SameFacts E _ _ _ _ _ shown.recorded
  serve-SameFacts (fetch_request id) s a t k h =
      let (_, shows) = fetch_returned E L id s a t h in
      let (r, _, _, shown) = shows in Recorded-SameFacts E _ _ _ _ _ shown.recorded
  serve-SameFacts ping_request s a t k h =
      Recorded-SameFacts E _ _ _ _ _ (ping_returned E L s a t h).recorded
  serve-SameFacts (pending_request limit) s a t k h =
      let (_, _, shown, _) = list_pending_facts_returned E L limit s a t h in
      Recorded-SameFacts E _ _ _ _ _ shown.recorded
  serve-SameFacts _ s a t k h = cc
