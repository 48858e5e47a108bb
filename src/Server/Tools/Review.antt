-- ===== src/Server/Tools/Review.antt =====
-- The tools `list_pending_facts`, `promote_fact` and `reject_fact`.
pub mod Decided
pub mod Queue
pub mod Walk
use Prim.Native.Nat.{min, max}
use murray_context_ledger_mc.Base.{
  ℕ, String, Bool, true, false, Option, none, some, List, [], ◌∷◌, length, if◌then◌else◌,
}
use murray_context_ledger_mc.Base.Int.{ℤ, pos, negsuc}
use murray_context_ledger_mc.Effect.{value_error, pure, raise, ◌>>=◌, ◌>>◌}
use murray_context_ledger_mc.Json.{Json, Fields, int, text, object, field, end}
use murray_context_ledger_mc.Uuid.{is_uuid}
use murray_context_ledger_mc.Store.{
  FactStatus, FactRow, FactQuery, FactPatch, eq_id, asc, desc, filtered, ordered, limited,
}
use murray_context_ledger_mc.Server.Env.{Env}
use murray_context_ledger_mc.Server.Context.{ToolContext, Call, begin, finish}
use murray_context_ledger_mc.Server.Scope.{may_review, scoped_pending_facts}
use murray_context_ledger_mc.Server.Tools.Read.{ids, opt_text, refuse_id}

abbrev pub review_denied_message : String
review_denied_message = "Reviewing facts (promote/reject) is limited to the owner and office roles."

abbrev pub pending_review_limit : ℕ
pending_review_limit = 20

-- `max(1, min(limit, PENDING_REVIEW_LIMIT))`
unfoldable pub capped : ℤ → ℕ
capped (pos n) = max 1 (min n pending_review_limit)
capped (negsuc n) = 1

unfoldable pub pending_query : ToolContext → ℤ → FactQuery
unfolding capped
pending_query ctx limit =
    limited
      (ordered
        (ordered
          (scoped_pending_facts ctx "id,type,content,confidence,scope_tags,source,created_at")
          (desc "created_at"))
        (asc "id"))
      (capped limit)

pub record Pending : Type 0 where
  pub pending : List FactRow
  pub count : ℕ

pub data Decision : Type 0 where
  promote reject : Decision

unfoldable pub tool_name : Decision → String
tool_name promote = "promote_fact"
tool_name reject = "reject_fact"

unfoldable pub review_arguments : Decision → String → Option String → Json
unfolding opt_text
review_arguments promote fact_id reason = object (field "fact_id" (text fact_id) end)
review_arguments reject fact_id reason =
    object (field "fact_id" (text fact_id) (field "reason" (opt_text reason) end))

unfoldable pub new_status : Decision → FactStatus
new_status promote = FactStatus.active
new_status reject = FactStatus.rejected

unfoldable pub review_query : ToolContext → String → FactQuery
review_query ctx fact_id = filtered (scoped_pending_facts ctx "id") (eq_id fact_id)

-- `{key: None, "message": ...}`, or `{key: fact_id, "status": ...}`
pub data Reviewed : Type 0 where
  not_pending : Reviewed
  reviewed : String → FactStatus → Reviewed

module _ (E : Env) where
  -- What the three tools do for a role that may not review.
  unfoldable pub deny_review : {A : Type 0} → ToolContext → Call E A
  unfolding finish
  deny_review ctx = do finish E ctx []; raise (value_error review_denied_message)

  pending_page : ToolContext → ℤ → Call E Pending
  unfolding pending_query finish
  pending_page ctx limit = do
    rows ← E.backend.select_facts ctx.db (pending_query ctx limit)
    finish E ctx (ids rows)
    pure (record { pending = rows; count = length rows })

  pending_as : ToolContext → ℤ → Call E Pending
  unfolding pending_page deny_review may_review
  pending_as ctx limit = if may_review ctx.role then pending_page ctx limit else deny_review ctx

  unfoldable pub list_pending_facts : ℤ → Call E Pending
  unfolding pending_as
  list_pending_facts limit = do
    ctx ← begin E "list_pending_facts" (object (field "limit" (int limit) end))
    pending_as ctx limit

  unfoldable pub decide_found : ToolContext → String → Decision → List FactRow → Call E Reviewed
  unfolding new_status finish
  decide_found ctx fact_id decision [] = do finish E ctx []; pure not_pending
  decide_found ctx fact_id decision (r ∷ rows) = do
    E.backend.update_facts ctx.db (record { superseded_by = none; status = new_status decision })
        (eq_id fact_id ∷ [])
    finish E ctx (fact_id ∷ [])
    pure (reviewed fact_id (new_status decision))

  decide_id : ToolContext → String → Decision → Call E Reviewed
  unfolding decide_found refuse_id review_query
  decide_id ctx fact_id decision =
      if is_uuid fact_id
      then (do
        found ← E.backend.select_facts ctx.db (review_query ctx fact_id)
        decide_found ctx fact_id decision found)
      else refuse_id E ctx fact_id

  decide : ToolContext → String → Decision → Call E Reviewed
  unfolding decide_id deny_review may_review
  decide ctx fact_id decision =
      if may_review ctx.role then decide_id ctx fact_id decision else deny_review ctx

  -- `_review_decision`
  unfoldable pub review_decision : String → Decision → Option String → Call E Reviewed
  unfolding decide tool_name review_arguments
  review_decision fact_id decision reason = do
    ctx ← begin E (tool_name decision) (review_arguments decision fact_id reason)
    decide ctx fact_id decision

  unfoldable pub promote_fact : String → Call E Reviewed
  unfolding review_decision
  promote_fact fact_id = review_decision fact_id promote none

  unfoldable pub reject_fact : String → Option String → Call E Reviewed
  unfolding review_decision
  reject_fact fact_id reason = review_decision fact_id reject reason
