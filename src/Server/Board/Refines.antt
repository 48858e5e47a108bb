-- ===== src/Server/Board/Refines.antt =====
-- The server refines the board.
use murray_context_ledger_mc.Base.{◌≡◌, refl, sym, ap, subst, String, true, Option, none, List}
use murray_context_ledger_mc.Effect.Runs.{Runs}
use murray_context_ledger_mc.Json.{Json}
use murray_context_ledger_mc.Store.{Tables, is_member_of}
use murray_context_ledger_mc.Store.Change.{UniqueIds}
use murray_context_ledger_mc.Server.Env.{Env, IsLawfulEnv}
use murray_context_ledger_mc.Server.Context.{ToolContext}
use murray_context_ledger_mc.Server.Context.Begin.{Begun, Begun-is_member_of, Begun-only_org}
use murray_context_ledger_mc.Server.Context.Kept.{caller, Begun-caller}
use murray_context_ledger_mc.Server.Tools.Remember.{Remembered}
use murray_context_ledger_mc.Server.Tools.Remember.Batch.{remember_facts_returned}
use murray_context_ledger_mc.Server.Tools.Supersede.{Superseded}
use murray_context_ledger_mc.Server.Tools.Supersede.Outcomes.{
  supersede_arguments, supersede_fact_returned,
}
use murray_context_ledger_mc.Server.Tools.Review.{
  Decision, promote, reject, Reviewed, new_status, tool_name, review_arguments, review_decision,
  promote_fact, reject_fact,
}
use murray_context_ledger_mc.Server.Tools.Review.Decided.{review_decision_returned}
use murray_context_ledger_mc.Server.Request.{
  Request, profile_request, context_request, activity_request, search_request, fetch_request,
  ping_request, remember_request, supersede_request, pending_request, promote_request,
  reject_request, Reply, serve,
}
use murray_context_ledger_mc.Server.Request.Reading.{serve-SameFacts}
use murray_context_ledger_mc.Server.Board.{
  look, board, Same, Remembers, Supersedes, Decides, Promised,
}
use murray_context_ledger_mc.Server.Board.Writes.{
  facts_of, on, remembered-Remembers, outcome-Supersedes, Review-Decides,
}

module _ (E : Env) (L : IsLawfulEnv E) where
  -- The caller's org, as the call has found it.
  module _ (tool : String) (args : Json) (before : Tables) (ctx : ToolContext) (mid : Tables)
      (b : Begun E tool args before ctx mid) where
    own_org : (org : String) → is_member_of before (caller E.token) org ≡ true → org ≡ ctx.org_id
    own_org org member =
        b.only_org org (rw (← Begun-caller E L tool args before ctx mid b) at member)

    own_facts : mid.facts ≡ before.facts
    own_facts = ap facts_of b.frame

  module _ (s : E.backend.State) (org : String)
      (member : is_member_of (E.backend.tables s) (caller E.token) org ≡ true) where
    remember-Promised :
        (facts : List Json) (a : Remembered) (t : E.backend.State)
        → Runs (serve E (remember_request facts)) s a t
        → Remembers a (board org (E.backend.tables s)) (board org (E.backend.tables t))
    unfolding serve
    remember-Promised facts a t h =
        let b = remember_facts_returned E L facts s a t h in
        let same = own_org "remember_facts" _ (E.backend.tables s) b.ctx b.mid b.begun org member in
        rw same (remembered-Remembers E L facts a (E.backend.tables s) (E.backend.tables t) b)

    supersede-Promised :
        (old : String) (raw : Json) (a : Superseded) (t : E.backend.State)
        → Runs (serve E (supersede_request old raw)) s a t
        → Supersedes
            (E.backend.canonical old)
            a
            (board org (E.backend.tables s))
            (board org (E.backend.tables t))
    unfolding serve
    supersede-Promised old raw a t h =
        let args = supersede_arguments old raw in
        let (_, ctx, mid, b, o) = supersede_fact_returned E L old raw s a t h in
        rw (own_org "supersede_fact" args (E.backend.tables s) ctx mid b org member) (
          subst
            (λ rows.
              Supersedes (E.backend.canonical old) a (on ctx.org_id rows)
                (board ctx.org_id (E.backend.tables t)))
            (own_facts "supersede_fact" args (E.backend.tables s) ctx mid b)
            (outcome-Supersedes E ctx old mid
              (Begun-is_member_of E "supersede_fact" args (E.backend.tables s) ctx mid b)
              (Begun-only_org E "supersede_fact" args (E.backend.tables s) ctx mid b) raw a
              (E.backend.tables t) o))

    review-Promised :
        (id : String) (decision : Decision) (reason : Option String) (a : Reviewed)
        (t : E.backend.State)
        → UniqueIds (E.backend.tables s).facts
        → Runs (review_decision E id decision reason) s a t
        → Decides
            (new_status decision)
            (E.backend.canonical id)
            a
            (board org (E.backend.tables s))
            (board org (E.backend.tables t))
    review-Promised id decision reason a t unique h =
        let tool = tool_name decision in
        let args = review_arguments decision id reason in
        let (ctx, mid, b, _, _, review) = review_decision_returned E L id decision reason s a t h in
        let same = own_facts tool args (E.backend.tables s) ctx mid b in
        rw (own_org tool args (E.backend.tables s) ctx mid b org member) (
          subst
            (λ rows.
              Decides (new_status decision) (E.backend.canonical id) a (on ctx.org_id rows)
                (board ctx.org_id (E.backend.tables t)))
            same
            (Review-Decides E ctx id mid
              (Begun-is_member_of E tool args (E.backend.tables s) ctx mid b)
              (Begun-only_org E tool args (E.backend.tables s) ctx mid b) decision a
              (E.backend.tables t) (subst UniqueIds (sym same) unique) review))

    kept_board :
        (t : E.backend.State)
        → (E.backend.tables t).facts ≡ (E.backend.tables s).facts
        → Same (board org (E.backend.tables s)) (board org (E.backend.tables t))
    kept_board t e id = ap (look org id) e

    -- Refinement, over a lawful database whose facts have unique ids: a call that returns has done to
    -- the board of the caller's org (what is known there of each id: the status and the link) what
    -- its answer tells, and no more. `remember_facts` has put the created ids, which were free, as
    -- active or pending; `supersede_fact` has retired a fact that was there in favour of the one that
    -- it names, which is new exactly if it does not say that it was deduped; a review has given a
    -- pending fact the status that it names; an answer that nothing was found or that a fact is not
    -- valid, and each of the other tools, leaves the board as it was.
    pub serve-Promised :
        (q : Request) (a : Reply q) (t : E.backend.State)
        → UniqueIds (E.backend.tables s).facts
        → Runs (serve E q) s a t
        → Promised E.backend.canonical q a
            (board org (E.backend.tables s))
            (board org (E.backend.tables t))
    unfolding serve promote_fact reject_fact new_status
    serve-Promised (remember_request facts) a t unique h = remember-Promised facts a t h
    serve-Promised (supersede_request old raw) a t unique h = supersede-Promised old raw a t h
    serve-Promised (promote_request id) a t unique h = review-Promised id promote none a t unique h
    serve-Promised (reject_request id reason) a t unique h =
        review-Promised id reject reason a t unique h
    serve-Promised profile_request a t unique h =
        kept_board t (serve-SameFacts E L profile_request s a t refl h).0
    serve-Promised (context_request query) a t unique h =
        kept_board t (serve-SameFacts E L (context_request query) s a t refl h).0
    serve-Promised (activity_request domain) a t unique h =
        kept_board t (serve-SameFacts E L (activity_request domain) s a t refl h).0
    serve-Promised (search_request query) a t unique h =
        kept_board t (serve-SameFacts E L (search_request query) s a t refl h).0
    serve-Promised (fetch_request id) a t unique h =
        kept_board t (serve-SameFacts E L (fetch_request id) s a t refl h).0
    serve-Promised ping_request a t unique h =
        kept_board t (serve-SameFacts E L ping_request s a t refl h).0
    serve-Promised (pending_request limit) a t unique h =
        kept_board t (serve-SameFacts E L (pending_request limit) s a t refl h).0
