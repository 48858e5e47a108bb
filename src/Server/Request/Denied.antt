-- ===== src/Server/Request/Denied.antt =====
-- The three tools of the review queue, for a caller whose role may not review.
use murray_context_ledger_mc.Base.{◌≡◌, refl, Bool, true, false, []}
use murray_context_ledger_mc.Effect.{value_error, err}
use murray_context_ledger_mc.Effect.Runs.{Runs}
use murray_context_ledger_mc.Server.Env.{Env, IsLawfulEnv}
use murray_context_ledger_mc.Server.Context.{ToolContext, finish, begin}
use murray_context_ledger_mc.Server.Context.Begin.{begin_returned, finish_returned}
use murray_context_ledger_mc.Server.Scope.{may_review}
use murray_context_ledger_mc.Server.Tools.Review.{
  tool_name, review_arguments, list_pending_facts, promote_fact, reject_fact, review_denied_message,
}
use murray_context_ledger_mc.Server.Request.{
  Request, pending_request, promote_request, reject_request, tool_of, arguments_of, serve,
}
use murray_context_ledger_mc.Server.Request.Stopped.{UnchangedButLog}

abbrev pub is_review : Request → Bool
is_review (pending_request limit) = true
is_review (promote_request id) = true
is_review (reject_request id reason) = true
is_review _ = false

module _ (E : Env) where
  serve_denied_error :
      (q : Request) (ctx : ToolContext) (s u t : E.backend.State)
      → is_review q ≡ true
      → Runs (begin E (tool_of q) (arguments_of q)) s ctx u
      → may_review ctx.role ≡ false
      → Runs (finish E ctx []) u tt t
      → serve E q s ≡ (err (value_error review_denied_message), t)
  unfolding serve tool_of arguments_of list_pending_facts promote_fact reject_fact tool_name
      review_arguments
  serve_denied_error (pending_request limit) ctx s u t reviews began other audited =
      rw (began, other, audited)
  serve_denied_error (promote_request id) ctx s u t reviews began other audited =
      rw (began, other, audited)
  serve_denied_error (reject_request id reason) ctx s u t reviews began other audited =
      rw (began, other, audited)
  serve_denied_error _ ctx s u t reviews began other audited = cc

module _ (E : Env) (L : IsLawfulEnv E) where
  -- A call of a review tool that `_begin` admits, by a role that may not review, when its audit
  -- insert succeeds: it raises the message for reviewers; the facts are those before the call, and
  -- the log has one more row, with no fact ids.
  pub serve_denied :
      (q : Request) (ctx : ToolContext) (s u t : E.backend.State)
      → is_review q ≡ true
      → Runs (begin E (tool_of q) (arguments_of q)) s ctx u
      → may_review ctx.role ≡ false
      → Runs (finish E ctx []) u tt t
      → (serve E q s ≡ (err (value_error review_denied_message), t))
        × UnchangedButLog E (E.backend.tables s) ctx (E.backend.tables t)
  serve_denied q ctx s u t reviews began other audited =
      let b = begin_returned E L (tool_of q) (arguments_of q) s ctx u began in
      let (grown, _) = finish_returned E L ctx [] u t b.subject audited in
      (
        serve_denied_error E q ctx s u t reviews began other audited,
        rw grown (rw b.frame (refl, refl)),
      )
