-- ===== src/Server/Request/Audited.antt =====
-- Every served call is audited.
use murray_context_ledger_mc.Base.{◌≡◌, ap, ◌∙◌, String, Option, none, some, List, [], ◌∷◌, ◌++◌}
use murray_context_ledger_mc.Effect.Runs.{Runs}
use murray_context_ledger_mc.Json.{Json, dumps}
use murray_context_ledger_mc.Auth.{AccessToken}
use murray_context_ledger_mc.Schemas.{FactInput}
use murray_context_ledger_mc.Store.{Tables, AuditRow, FactRow, FactStatus}
use murray_context_ledger_mc.Store.Laws.{stored}
use murray_context_ledger_mc.Server.Env.{Env, IsLawfulEnv}
use murray_context_ledger_mc.Server.Context.{ToolContext, audit_row}
use murray_context_ledger_mc.Server.Context.Begin.{Begun}
use murray_context_ledger_mc.Server.Write.{Outcome}
use murray_context_ledger_mc.Server.Write.Inserted.{Inserted, fresh, existing}
use murray_context_ledger_mc.Server.Tools.Supersede.{Superseded}
use murray_context_ledger_mc.Server.Tools.Read.{ids}
use murray_context_ledger_mc.Server.Tools.Read.Shown.{Recorded, Shown}
use murray_context_ledger_mc.Server.Tools.Profile.Answer.{get_profile_returned}
use murray_context_ledger_mc.Server.Tools.Read.SearchAnswers.{
  search_ledger_returned, search_context_returned,
}
use murray_context_ledger_mc.Server.Tools.Read.ActivityAnswers.{
  Activity, denied, answered, activity_arguments, domain_scopes, get_recent_activity_returned,
}
use murray_context_ledger_mc.Server.Tools.Read.FetchAnswers.{fetch_returned}
use murray_context_ledger_mc.Server.Tools.Read.PingAnswer.{ping_returned}
use murray_context_ledger_mc.Server.Tools.Remember.Batch.{remember_facts_returned}
use murray_context_ledger_mc.Server.Tools.Supersede.Outcomes.{
  Outcomes, rejected, absent, swapped, supersede_arguments, supersede_fact_returned,
}
use murray_context_ledger_mc.Server.Tools.Review.{
  Decision, promote, reject, Reviewed, tool_name, review_arguments, review_decision, promote_fact,
  reject_fact,
}
use murray_context_ledger_mc.Server.Tools.Review.Decided.{
  Review, nothing, changed, review_decision_returned,
}
use murray_context_ledger_mc.Server.Tools.Review.Queue.{list_pending_facts_returned}
use murray_context_ledger_mc.Server.Request.{
  Request, profile_request, context_request, activity_request, search_request, fetch_request,
  ping_request, remember_request, supersede_request, pending_request, promote_request,
  reject_request, tool_of, arguments_of, Reply, serve,
}

-- The audit log has gained exactly one row: it names the caller, as the token does, the tool, and
-- the digest of the arguments.
pub record OneRow (E : Env) (tool : String) (arguments : Json) (before after : Tables)
    : Type 0 where
  pub row : AuditRow
  pub grown : after.audit_log ≡ before.audit_log ++ (row ∷ [])
  pub by_caller : (t : AccessToken) × (E.token ≡ some t) × (t.subject ≡ some row.user_id)
  pub tool_is : row.tool ≡ tool
  pub digest_is : row.payload_hash ≡ E.sha256_hex (dumps arguments)

module _ (E : Env) where
  -- A context that has begun, and a log that has gained its row.
  one_row :
      (tool : String) (arguments : Json) (ids : List String) (before : Tables) (ctx : ToolContext)
      (mid after : Tables)
      → Begun E tool arguments before ctx mid
      → after.audit_log ≡ mid.audit_log ++ (stored E.backend (audit_row E ctx ids) ∷ [])
      → OneRow E tool arguments before after
  unfolding audit_row
  one_row tool arguments ids before ctx mid after b grown = record {
    row = stored E.backend (audit_row E ctx ids);
    grown =
        grown
        ∙ ap (λ (t : Tables). t.audit_log ++ (stored E.backend (audit_row E ctx ids) ∷ [])) b.frame;
    by_caller = b.caller;
    tool_is = b.tool_is;
    digest_is = ap (λ a. E.sha256_hex (dumps a)) b.arguments_are;
  }

  of_Recorded :
      (tool : String) (arguments : Json) (ids : List String) (before after : Tables)
      → Recorded E tool arguments ids before after
      → OneRow E tool arguments before after
  of_Recorded tool arguments ids before after r =
      one_row tool arguments ids before r.ctx r.mid after r.begun
        (ap (λ (t : Tables). t.audit_log) r.audited)

  of_shown :
      (status : FactStatus) (tool : String) (arguments : Json) (scopes : Option (List String))
      (rows : List FactRow) (before after : Tables)
      → Shown E status tool arguments scopes rows before after
      → OneRow E tool arguments before after
  of_shown status tool arguments scopes rows before after r =
      of_Recorded tool arguments (ids rows) before after r.recorded

  of_Activity :
      (domain : Option String) (answer : String) (before after : Tables)
      → Activity E domain answer before after
      → OneRow E "get_recent_activity" (activity_arguments domain) before after
  of_Activity domain answer before after (denied d is_some made recorded outside) =
      of_Recorded "get_recent_activity" (activity_arguments domain) [] before after recorded
  of_Activity domain answer before after (answered rows made shown granted) =
      of_shown FactStatus.active "get_recent_activity" (activity_arguments domain)
        (domain_scopes domain) rows before after shown

  -- An insert writes no audit row.
  Inserted-audit_log :
      (ctx : ToolContext) (fact : FactInput) (outcome : Outcome) (id : String)
      (before after : Tables)
      → Inserted E ctx fact outcome id before after
      → after.audit_log ≡ before.audit_log
  Inserted-audit_log ctx fact outcome id before after (fresh new _ _ grown _ _ _) =
      ap (λ (t : Tables). t.audit_log) grown
  Inserted-audit_log ctx fact outcome id before after (existing r key _ _ kept _ _ _) =
      ap (λ (t : Tables). t.audit_log) kept

  of_Outcomes :
      (ctx : ToolContext) (old : String) (raw : Json) (answer : Superseded)
      (before mid after : Tables)
      → Begun E "supersede_fact" (supersede_arguments old raw) before ctx mid
      → Outcomes E ctx old raw answer mid after
      → OneRow E "supersede_fact" (supersede_arguments old raw) before after
  of_Outcomes ctx old raw answer before mid after b (rejected problems _ _ audited) =
      one_row "supersede_fact" (supersede_arguments old raw) [] before ctx mid after b
        (ap (λ (t : Tables). t.audit_log) audited)
  of_Outcomes ctx old raw answer before mid after b (absent fact _ _ _ audited) =
      one_row "supersede_fact" (supersede_arguments old raw) [] before ctx mid after b
        (ap (λ (t : Tables). t.audit_log) audited)
  of_Outcomes ctx old raw answer before mid after b
        (swapped fact target outcome new between _ _ stored_as _ audited) =
      one_row "supersede_fact" (supersede_arguments old raw) (new ∷ old ∷ []) before ctx mid after b
        (ap (λ (t : Tables). t.audit_log) audited
          ∙ ap (λ rows. rows ++ (stored E.backend (audit_row E ctx (new ∷ old ∷ [])) ∷ []))
              (Inserted-audit_log ctx fact outcome new mid between stored_as))

  of_Review :
      (decision : Decision) (ctx : ToolContext) (id : String) (arguments : Json) (answer : Reviewed)
      (before mid after : Tables)
      → Begun E (tool_name decision) arguments before ctx mid
      → Review E ctx id decision answer mid after
      → OneRow E (tool_name decision) arguments before after
  of_Review decision ctx id arguments answer before mid after b (nothing _ _ audited) =
      one_row (tool_name decision) arguments [] before ctx mid after b
        (ap (λ (t : Tables). t.audit_log) audited)
  of_Review decision ctx id arguments answer before mid after b (changed r _ _ audited) =
      one_row (tool_name decision) arguments (id ∷ []) before ctx mid after b
        (ap (λ (t : Tables). t.audit_log) audited)

module _ (E : Env) (L : IsLawfulEnv E) where
  reviewed_row :
      (id : String) (decision : Decision) (reason : Option String) (s : E.backend.State)
      (a : Reviewed) (t : E.backend.State)
      → Runs (review_decision E id decision reason) s a t
      → OneRow E
          (tool_name decision)
          (review_arguments decision id reason)
          (E.backend.tables s)
          (E.backend.tables t)
  reviewed_row id decision reason s a t h =
      let (ctx, mid, b, allowed, good, review) =
        review_decision_returned E L id decision reason s a t h in
      of_Review E decision ctx id (review_arguments decision id reason) a (E.backend.tables s) mid
        (E.backend.tables t) b review

  -- Over a lawful database, every tool call that returns, whatever the tool and the answer, has
  -- added exactly one row to the audit log. The row names the subject of the request's token, the
  -- tool that was called, and the SHA-256 digest of its arguments.
  pub serve-OneRow :
      (q : Request) (s : E.backend.State) (a : Reply q) (t : E.backend.State)
      → Runs (serve E q) s a t
      → OneRow E (tool_of q) (arguments_of q) (E.backend.tables s) (E.backend.tables t)
  unfolding serve tool_of arguments_of promote_fact reject_fact tool_name review_arguments
  serve-OneRow profile_request s a t h =
      let (rows, _, _, _, _, shown) = get_profile_returned E L s a t h in
      of_shown E FactStatus.active "get_profile" _ none rows _ _ shown
  serve-OneRow (context_request query) s a t h =
      let (rows, _, shown) = search_context_returned E L query s a t h in
      of_shown E FactStatus.active "search_context" _ none rows _ _ shown
  serve-OneRow (activity_request domain) s a t h =
      of_Activity E domain a _ _ (get_recent_activity_returned E L domain s a t h)
  serve-OneRow (search_request query) s a t h =
      let (rows, _, shown) = search_ledger_returned E L query s a t h in
      of_shown E FactStatus.active "search" _ none rows _ _ shown
  serve-OneRow (fetch_request id) s a t h =
      let (_, shows) = fetch_returned E L id s a t h in
      let (r, _, _, shown) = shows in of_shown E FactStatus.active "fetch" _ none (r ∷ []) _ _ shown
  serve-OneRow ping_request s a t h =
      of_Recorded E "ping" _ [] _ _ (ping_returned E L s a t h).recorded
  serve-OneRow (remember_request facts) s a t h =
      let b = remember_facts_returned E L facts s a t h in
      one_row E "remember_facts" _ b.touched _ b.ctx b.mid _ b.begun
        (ap (λ (x : Tables). x.audit_log) b.stored)
  serve-OneRow (supersede_request old fact) s a t h =
      let (_, ctx, mid, b, o) = supersede_fact_returned E L old fact s a t h in
      of_Outcomes E ctx old fact a _ mid _ b o
  serve-OneRow (pending_request limit) s a t h =
      let (_, _, shown, _) = list_pending_facts_returned E L limit s a t h in
      of_shown E FactStatus.pending_review "list_pending_facts" _ none a.pending _ _ shown
  serve-OneRow (promote_request id) s a t h = reviewed_row id promote none s a t h
  serve-OneRow (reject_request id reason) s a t h = reviewed_row id reject reason s a t h
