-- ===== src/Server/Write/Kept.antt =====
-- `_insert_fact`, returned or raised: what it can do to the tables.
use murray_context_ledger_mc.Base.{◌≡◌, String, ◌==◌, Option, none, some, List, [], ◌∷◌}
use murray_context_ledger_mc.Effect.{
  Error, value_error, api_error, index_error, other_error, raise, ◌>>=◌,
}
use murray_context_ledger_mc.Schemas.{FactInput}
use murray_context_ledger_mc.Store.{FactRow}
use murray_context_ledger_mc.Store.Changed.{select_facts-Keeps, insert_fact-Keeps}
use murray_context_ledger_mc.Server.Env.{Env, IsLawfulEnv}
use murray_context_ledger_mc.Server.Context.{ToolContext}
use murray_context_ledger_mc.Server.Context.Kept.{
  Kept, Kept-pure, Kept-raise, Kept-bind, Kept-if, Kept-catch,
}
use murray_context_ledger_mc.Server.Write.{
  Outcome, created, deduped, unique_violation, fact_row, key_query, first_created, first_existing,
  look_up_key, key_conflict, insert_fact,
}

module _ (E : Env) (L : IsLawfulEnv E) (ctx : ToolContext)
    (who : E.backend.subject ctx.db ≡ some ctx.user_sub) where
  raise-Kept : (e : Error) → Kept E ctx.user_sub {A = Outcome × String} (raise e)
  raise-Kept e = Kept-raise E ctx.user_sub (Outcome × String) e

  first_created-Kept : (rows : List FactRow) → Kept E ctx.user_sub (first_created E rows)
  unfolding first_created
  first_created-Kept [] = raise-Kept index_error
  first_created-Kept (r ∷ rest) = Kept-pure E ctx.user_sub {A = Outcome × String} (created, r.id)

  first_existing-Kept :
      (e : Error) (rows : List FactRow) → Kept E ctx.user_sub (first_existing E e rows)
  unfolding first_existing
  first_existing-Kept e [] = raise-Kept e
  first_existing-Kept e (r ∷ rest) = Kept-pure E ctx.user_sub {A = Outcome × String} (deduped, r.id)

  look_up_key-Kept : (key : String) (e : Error) → Kept E ctx.user_sub (look_up_key E ctx key e)
  unfolding look_up_key
  look_up_key-Kept key e =
      Kept-bind E ctx.user_sub (E.backend.select_facts ctx.db (key_query ctx key))
        (first_existing E e)
        (select_facts-Keeps E.backend ctx.user_sub L.lawful ctx.db (key_query ctx key))
        (first_existing-Kept e)

  key_conflict-Kept :
      (key : Option String) (e : Error) → Kept E ctx.user_sub (key_conflict E ctx key e)
  unfolding key_conflict
  key_conflict-Kept none e = raise-Kept e
  key_conflict-Kept (some key) (api_error code) =
      Kept-if E ctx.user_sub (code == unique_violation) (look_up_key E ctx key (api_error code))
        (raise (api_error code)) (look_up_key-Kept key (api_error code))
        (raise-Kept (api_error code))
  key_conflict-Kept (some key) (value_error m) = raise-Kept (value_error m)
  key_conflict-Kept (some key) index_error = raise-Kept index_error
  key_conflict-Kept (some key) (other_error m) = raise-Kept (other_error m)

  pub insert_fact-Kept : (fact : FactInput) → Kept E ctx.user_sub (insert_fact E ctx fact)
  unfolding insert_fact
  insert_fact-Kept fact =
      Kept-catch E ctx.user_sub
        (E.backend.insert_fact ctx.db (fact_row ctx fact) >>= first_created E)
        (key_conflict E ctx fact.dedupe_key)
        (Kept-bind E ctx.user_sub (E.backend.insert_fact ctx.db (fact_row ctx fact))
          (first_created E)
          (insert_fact-Keeps E.backend ctx.user_sub L.lawful ctx.db who (fact_row ctx fact))
          first_created-Kept)
        (key_conflict-Kept fact.dedupe_key)
