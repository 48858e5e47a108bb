-- ===== src/Server/Tools/Review/Walk.antt =====
-- The review tools, returned or raised: what they can do to the tables.
use murray_context_ledger_mc.Base.{String, Option, List, [], length}
use murray_context_ledger_mc.Base.Int.{ℤ}
use murray_context_ledger_mc.Effect.{pure, ◌>>=◌, ◌>>◌}
use murray_context_ledger_mc.Json.{int, object, field, end}
use murray_context_ledger_mc.Uuid.{is_uuid}
use murray_context_ledger_mc.Store.{FactRow}
use murray_context_ledger_mc.Server.Env.{Env}
use murray_context_ledger_mc.Server.Context.{ToolContext, finish}
use murray_context_ledger_mc.Server.Logic.{Logic, Inside-if, finish-pure, finish-raise, select_then}
use murray_context_ledger_mc.Server.Scope.{may_review}
use murray_context_ledger_mc.Server.Tools.Read.{ids, refuse_id}
use murray_context_ledger_mc.Server.Tools.Read.Walk.{refuse_id-Walk}
use murray_context_ledger_mc.Server.Tools.Review.{
  Pending, Decision, Reviewed, tool_name, review_arguments, pending_query, review_query,
  review_denied_message, deny_review, pending_page, pending_as, list_pending_facts, decide_found,
  decide_id, decide, review_decision,
}

module _ (E : Env) (G : Logic E) where
  module _ (ctx : ToolContext) where
    deny_review-Walk : (A : Type 0) → G.Inside ctx _ (deny_review E {A = A} ctx)
    unfolding deny_review
    deny_review-Walk A = finish-raise E G ctx A [] (review_denied_message)

    pending_as-Walk : (limit : ℤ) → G.Inside ctx _ (pending_as E ctx limit)
    unfolding pending_as pending_page
    pending_as-Walk limit =
        let page = λ (rows : List FactRow).
          let p : Pending = record { pending = rows; count = length rows } in p in
        Inside-if E G ctx (may_review ctx.role) (pending_page E ctx limit) (deny_review E ctx)
          (select_then E G ctx (pending_query ctx limit)
            (λ rows. finish E ctx (ids rows) >> pure (page rows))
            (λ rows. finish-pure E G ctx (ids rows) (page rows)))
          (deny_review-Walk Pending)

    module _ (id : String) (decision : Decision) where
      decide_id-Walk : G.Inside ctx _ (decide_id E ctx id decision)
      unfolding decide_id
      decide_id-Walk =
          Inside-if E G ctx (is_uuid id)
            (E.backend.select_facts ctx.db (review_query ctx id) >>= decide_found E ctx id decision)
            (refuse_id E ctx id) (G.decides ctx id decision) (refuse_id-Walk E G Reviewed ctx id)

      decide-Walk : G.Inside ctx _ (decide E ctx id decision)
      unfolding decide
      decide-Walk =
          Inside-if E G ctx (may_review ctx.role) (decide_id E ctx id decision) (deny_review E ctx)
            decide_id-Walk (deny_review-Walk Reviewed)

  pub list_pending_facts-Walk : (limit : ℤ) → G.Whole _ (list_pending_facts E limit)
  unfolding list_pending_facts
  list_pending_facts-Walk limit =
      G.begins _ "list_pending_facts" (object (field "limit" (int limit) end))
        (λ ctx. pending_as E ctx limit) (λ ctx. pending_as-Walk ctx limit)

  pub review_decision-Walk :
      (id : String) (decision : Decision) (reason : Option String)
      → G.Whole _ (review_decision E id decision reason)
  unfolding review_decision
  review_decision-Walk id decision reason =
      G.begins _ (tool_name decision) (review_arguments decision id reason)
        (λ ctx. decide E ctx id decision) (λ ctx. decide-Walk ctx id decision)
