-- ===== src/Server/Search/Walk.antt =====
-- Selects, and `_search_facts`: they change nothing.
use murray_context_ledger_mc.Base.{ℕ, String, List, [], ◌∷◌}
use murray_context_ledger_mc.Store.{FactRow}
use murray_context_ledger_mc.Server.Env.{Env}
use murray_context_ledger_mc.Server.Context.{ToolContext}
use murray_context_ledger_mc.Server.Logic.{Logic, select_then}
use murray_context_ledger_mc.Server.Search.{text_query, fallback_query, or_fallback, search_facts}

module _ (E : Env) (G : Logic E) (ctx : ToolContext) where
  or_fallback-Walk :
      (query : String) (limit : ℕ) (rows : List FactRow)
      → G.Inside ctx _ (or_fallback E ctx query limit rows)
  unfolding or_fallback
  or_fallback-Walk query limit [] = G.selects ctx (fallback_query ctx query limit)
  or_fallback-Walk query limit (r ∷ rows) = G.returns ctx (List FactRow) (r ∷ rows)

  pub search_facts-Walk :
      (query : String) (limit : ℕ) → G.Inside ctx _ (search_facts E ctx query limit)
  unfolding search_facts
  search_facts-Walk query limit =
      select_then E G ctx (text_query ctx query limit) (or_fallback E ctx query limit)
        (or_fallback-Walk query limit)
