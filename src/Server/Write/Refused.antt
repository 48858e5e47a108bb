-- ===== src/Server/Write/Refused.antt =====
-- `_insert_fact` where Postgres refuses the row for another reason than a taken key.
use murray_context_ledger_mc.Base.{◌≡◌, refl, String, ◌==◌, false, Option, none, some}
use murray_context_ledger_mc.Effect.{api_error, err}
use murray_context_ledger_mc.Schemas.{FactInput}
use murray_context_ledger_mc.Server.Env.{Env}
use murray_context_ledger_mc.Server.Context.{ToolContext}
use murray_context_ledger_mc.Server.Write.{unique_violation, fact_row, key_conflict, insert_fact}

module _ (E : Env) (ctx : ToolContext) where
  key_conflict-other :
      (key : Option String) (code : String) (s : E.backend.State)
      → (code == unique_violation) ≡ false
      → key_conflict E ctx key (api_error code) s ≡ (err (api_error code), s)
  unfolding key_conflict
  key_conflict-other none code s h = refl
  key_conflict-other (some key) code s h = rw h refl

  -- The error is passed on.
  pub insert_fact_refused :
      (fact : FactInput) (code : String) (s t : E.backend.State)
      → (code == unique_violation) ≡ false
      → E.backend.insert_fact ctx.db (fact_row ctx fact) s ≡ (err (api_error code), t)
      → insert_fact E ctx fact s ≡ (err (api_error code), t)
  unfolding insert_fact
  insert_fact_refused fact code s t other h = rw h (key_conflict-other fact.dedupe_key code t other)
