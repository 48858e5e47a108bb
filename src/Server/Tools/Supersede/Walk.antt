-- ===== src/Server/Tools/Supersede/Walk.antt =====
-- `supersede_fact`, returned or raised half-way: what it can do to the tables.
use murray_context_ledger_mc.Base.{◌≡◌, refl, String, List, [], ◌∷◌}
use murray_context_ledger_mc.Effect.{pure, ◌>>=◌, ◌>>◌}
use murray_context_ledger_mc.Json.{Json, text, object, field, end}
use murray_context_ledger_mc.Schemas.{FactInput}
use murray_context_ledger_mc.Uuid.{is_uuid}
use murray_context_ledger_mc.Store.{FactRow, eq_id}
use murray_context_ledger_mc.Server.Env.{Env, Validated, valid, invalid}
use murray_context_ledger_mc.Server.Context.{ToolContext, finish}
use murray_context_ledger_mc.Server.Logic.{Logic, Inside-if, finish-pure, select_then}
use murray_context_ledger_mc.Server.Write.{Outcome, validation_errors, insert_fact, fact_status}
use murray_context_ledger_mc.Server.Tools.Read.{refuse_id}
use murray_context_ledger_mc.Server.Tools.Read.Walk.{refuse_id-Walk}
use murray_context_ledger_mc.Server.Tools.Supersede.{
  Superseded, not_valid, not_found, replaced, target_query, retire, was_deduped, replace_fact,
  if_target, if_valid, supersede_as, supersede_fact,
}

module _ (E : Env) (G : Logic E) where
  module _ (ctx : ToolContext) (old : String) where
    swap-Walk :
        (fact : FactInput) (outcome : Outcome × String)
        → G.Inside ctx _ (
            E.backend.update_facts ctx.db (retire outcome.1) (eq_id old ∷ []) >>= λ _.
            finish E ctx (outcome.1 ∷ old ∷ [])
            >> pure (replaced old outcome.1 (fact_status fact.confidence) (was_deduped outcome.0)))
    unfolding retire
    swap-Walk fact outcome =
        let answer = replaced old outcome.1 (fact_status fact.confidence) (was_deduped outcome.0) in
        G.binds ctx _ _ (E.backend.update_facts ctx.db (retire outcome.1) (eq_id old ∷ []))
          (λ _. finish E ctx (outcome.1 ∷ old ∷ []) >> pure answer) (G.retires ctx old outcome.1)
          (λ _. finish-pure E G ctx (outcome.1 ∷ old ∷ []) answer)

    replace_fact-Walk :
        (raw : Json) (fact : FactInput)
        → E.model_validate raw ≡ valid fact
        → G.Inside ctx _ (replace_fact E ctx old fact)
    unfolding replace_fact
    replace_fact-Walk raw fact e =
        G.binds ctx _ _ (insert_fact E ctx fact)
          (λ outcome. E.backend.update_facts ctx.db (retire outcome.1) (eq_id old ∷ []) >>= λ _.
            finish E ctx (outcome.1 ∷ old ∷ [])
            >> pure (replaced old outcome.1 (fact_status fact.confidence) (was_deduped outcome.0)))
          (G.stores ctx raw fact e) (swap-Walk fact)

    if_target-Walk :
        (raw : Json) (fact : FactInput)
        → E.model_validate raw ≡ valid fact
        → (rows : List FactRow) → G.Inside ctx _ (if_target E ctx old fact rows)
    unfolding if_target
    if_target-Walk raw fact e [] = finish-pure E G ctx [] not_found
    if_target-Walk raw fact e (r ∷ rows) = replace_fact-Walk raw fact e

    if_valid-Walk :
        (raw : Json) (v : Validated)
        → E.model_validate raw ≡ v
        → G.Inside ctx _ (if_valid E ctx old v)
    unfolding if_valid
    if_valid-Walk raw (invalid problems) e =
        finish-pure E G ctx [] (not_valid (validation_errors problems))
    if_valid-Walk raw (valid fact) e =
        select_then E G ctx (target_query old) (if_target E ctx old fact)
          (if_target-Walk raw fact e)

    supersede_as-Walk : (raw : Json) → G.Inside ctx _ (supersede_as E ctx old raw)
    unfolding supersede_as
    supersede_as-Walk raw =
        Inside-if E G ctx (is_uuid old) (if_valid E ctx old (E.model_validate raw))
          (refuse_id E ctx old) (if_valid-Walk raw (E.model_validate raw) refl)
          (refuse_id-Walk E G Superseded ctx old)

  pub supersede_fact-Walk : (old : String) (raw : Json) → G.Whole _ (supersede_fact E old raw)
  unfolding supersede_fact
  supersede_fact-Walk old raw =
      G.begins _ "supersede_fact"
        (object (field "old_fact_id" (text old) (field "new_fact" raw end)))
        (λ ctx. supersede_as E ctx old raw) (λ ctx. supersede_as-Walk ctx old raw)
