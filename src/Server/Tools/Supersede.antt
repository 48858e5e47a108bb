-- ===== src/Server/Tools/Supersede.antt =====
-- The tool `supersede_fact`.
pub mod Outcomes
pub mod SameKey
pub mod Broken
pub mod Walk
use murray_context_ledger_mc.Base.{
  String, Bool, true, false, Option, none, some, List, [], ◌∷◌, if◌then◌else◌,
}
use murray_context_ledger_mc.Effect.{pure, ◌>>=◌, ◌>>◌}
use murray_context_ledger_mc.Json.{Json, text, object, field, end}
use murray_context_ledger_mc.Schemas.{FactInput}
use murray_context_ledger_mc.Uuid.{is_uuid}
use murray_context_ledger_mc.Store.{FactStatus, FactRow, FactQuery, FactFilter, FactPatch, eq_id}
use murray_context_ledger_mc.Server.Env.{Env, Validated, valid, invalid}
use murray_context_ledger_mc.Server.Context.{ToolContext, Call, begin, finish}
use murray_context_ledger_mc.Server.Write.{
  Outcome, created, deduped, FieldError, validation_errors, insert_fact, fact_status,
}
use murray_context_ledger_mc.Server.Tools.Read.{refuse_id}

-- The three dicts that the tool returns.
pub data Superseded : Type 0 where
  not_valid : List FieldError → Superseded
  not_found : Superseded
  -- old id, new id, status of the new fact, whether it was deduped
  replaced : String → String → FactStatus → Bool → Superseded

unfoldable pub target_query : String → FactQuery
target_query old_fact_id = record {
  columns = "id";
  filters = eq_id old_fact_id ∷ [];
  orders = [];
  limit = none;
}

unfoldable pub retire : String → FactPatch
retire new_id = record { superseded_by = some new_id; status = FactStatus.superseded }

abbrev pub was_deduped : Outcome → Bool
was_deduped created = false
was_deduped deduped = true

module _ (E : Env) where
  unfoldable pub replace_fact : ToolContext → String → FactInput → Call E Superseded
  unfolding retire
  replace_fact ctx old_fact_id fact = do
    outcome ← insert_fact E ctx fact
    E.backend.update_facts ctx.db (retire outcome.1) (eq_id old_fact_id ∷ [])
    finish E ctx (outcome.1 ∷ old_fact_id ∷ [])
    pure (replaced old_fact_id outcome.1 (fact_status fact.confidence) (was_deduped outcome.0))

  if_target : ToolContext → String → FactInput → List FactRow → Call E Superseded
  unfolding replace_fact finish
  if_target ctx old_fact_id fact [] = do finish E ctx []; pure not_found
  if_target ctx old_fact_id fact (r ∷ rows) = replace_fact ctx old_fact_id fact

  if_valid : ToolContext → String → Validated → Call E Superseded
  unfolding if_target target_query finish
  if_valid ctx old_fact_id (invalid problems) = do
    finish E ctx []
    pure (not_valid (validation_errors problems))
  if_valid ctx old_fact_id (valid fact) = do
    target ← E.backend.select_facts ctx.db (target_query old_fact_id)
    if_target ctx old_fact_id fact target

  supersede_as : ToolContext → String → Json → Call E Superseded
  unfolding if_valid refuse_id
  supersede_as ctx old_fact_id new_fact =
      if is_uuid old_fact_id
      then if_valid ctx old_fact_id (E.model_validate new_fact)
      else refuse_id E ctx old_fact_id

  unfoldable pub supersede_fact : String → Json → Call E Superseded
  unfolding supersede_as
  supersede_fact old_fact_id new_fact = do
    ctx ←
        begin E "supersede_fact"
          (object (field "old_fact_id" (text old_fact_id) (field "new_fact" new_fact end)))
    supersede_as ctx old_fact_id new_fact
