-- ===== src/Server/Write.antt =====
-- The write path: `_fact_status`, `_fact_row`, `_insert_fact` and `_validation_errors`.
pub mod Inserted
pub mod Idempotent
pub mod Refused
pub mod Kept
pub mod Answers
use murray_context_ledger_mc.Base.{
  ℕ, ◌*◌, ◌^◌, String, ◌==◌, Bool, ◌&&◌, leb, Option, none, some, List, [], ◌∷◌, map, join,
  if◌then◌else◌, true, false,
}
use murray_context_ledger_mc.Effect.{Error, api_error, index_error, pure, raise, ◌>>=◌, catch}
use murray_context_ledger_mc.Schemas.{FactInput, Float}
use murray_context_ledger_mc.Store.{
  FactStatus, FactRow, FactInsert, FactQuery, eq_org_id, eq_dedupe_key,
}
use murray_context_ledger_mc.Server.Env.{Env, Problem}
use murray_context_ledger_mc.Server.Context.{ToolContext, Call}

-- The double 0.9: 8106479329266893 units of 2^-53.
pub auto_promote_confidence : Float
auto_promote_confidence = 8106479329266893 * 2 ^ 1021

abbrev pub unique_violation : String
unique_violation = "23505"

unfoldable pub fact_status : Float → FactStatus
fact_status confidence =
    if leb auto_promote_confidence confidence then FactStatus.active else FactStatus.pending_review

unfoldable pub fact_row : ToolContext → FactInput → FactInsert
fact_row ctx fact = record {
  org_id = ctx.org_id;
  user_id = ctx.user_sub;
  type = fact.type;
  content = fact.content;
  confidence = fact.confidence;
  scope_tags = fact.scope_tags;
  source = fact.source;
  status = fact_status fact.confidence;
  source_ref = fact.source_ref;
  dedupe_key = fact.dedupe_key;
}

pub data Outcome : Type 0 where
  created deduped : Outcome

-- `{"field": ..., "message": ...}`
pub record FieldError : Type 0 where
  pub field : String
  pub message : String

or_root : String → String
or_root s = if s == "" then "(root)" else s

unfoldable pub validation_errors : List Problem → List FieldError
unfolding or_root
validation_errors = map (λ p. record { field = or_root (join "." p.loc); message = p.msg })

key_query : ToolContext → String → FactQuery
key_query ctx key = record {
  columns = "id";
  filters = eq_org_id ctx.org_id ∷ eq_dedupe_key key ∷ [];
  orders = [];
  limit = none;
}

module _ (E : Env) where
  first_created : List FactRow → Call E (Outcome × String)
  first_created [] = raise index_error
  first_created (r ∷ rest) = pure (created, r.id)

  first_existing : Error → List FactRow → Call E (Outcome × String)
  first_existing e [] = raise e
  first_existing e (r ∷ rest) = pure (deduped, r.id)

  look_up_key : ToolContext → String → Error → Call E (Outcome × String)
  unfolding key_query first_existing
  look_up_key ctx key e = do
    existing ← E.backend.select_facts ctx.db (key_query ctx key)
    first_existing e existing

  -- The `except APIError` clause.
  key_conflict : ToolContext → Option String → Error → Call E (Outcome × String)
  unfolding look_up_key
  key_conflict ctx none e = raise e
  key_conflict ctx (some key) (api_error code) =
      if code == unique_violation
      then look_up_key ctx key (api_error code)
      else raise (api_error code)
  key_conflict ctx (some key) e = raise e

  unfoldable pub insert_fact : ToolContext → FactInput → Call E (Outcome × String)
  unfolding first_created key_conflict fact_row
  insert_fact ctx fact =
      catch (do inserted ← E.backend.insert_fact ctx.db (fact_row ctx fact); first_created inserted)
        (key_conflict ctx fact.dedupe_key)
