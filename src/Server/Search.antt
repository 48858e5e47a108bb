-- ===== src/Server/Search.antt =====
-- `_search_facts`: full-text search, then the `ilike` fallback.
pub mod Found
pub mod Walk
use murray_context_ledger_mc.Base.{ℕ, String, none, List, [], ◌∷◌}
use murray_context_ledger_mc.Effect.{pure, ◌>>=◌}
use murray_context_ledger_mc.Store.{
  FactRow, FactQuery, text_search_content, ilike_content, asc, desc, filtered, ordered, limited,
}
use murray_context_ledger_mc.Server.Env.{Env}
use murray_context_ledger_mc.Server.Context.{ToolContext, Call}
use murray_context_ledger_mc.Server.Scope.{scoped_active_facts}
use murray_context_ledger_mc.Server.Render.{like_pattern}

abbrev search_columns : String
search_columns = "id,type,content,confidence"

unfoldable pub text_query : ToolContext → String → ℕ → FactQuery
text_query ctx query limit =
    filtered (limited (scoped_active_facts ctx search_columns none) limit)
      (text_search_content query "web_search" "english")

unfoldable pub fallback_query : ToolContext → String → ℕ → FactQuery
fallback_query ctx query limit =
    limited
      (ordered
        (ordered
          (filtered (scoped_active_facts ctx search_columns none)
            (ilike_content (like_pattern query)))
          (desc "confidence"))
        (asc "id"))
      limit

module _ (E : Env) where
  or_fallback : ToolContext → String → ℕ → List FactRow → Call E (List FactRow)
  unfolding fallback_query
  or_fallback ctx query limit [] = E.backend.select_facts ctx.db (fallback_query ctx query limit)
  or_fallback ctx query limit (r ∷ rows) = pure (r ∷ rows)

  unfoldable pub search_facts : ToolContext → String → ℕ → Call E (List FactRow)
  unfolding or_fallback text_query
  search_facts ctx query limit = do
    rows ← E.backend.select_facts ctx.db (text_query ctx query limit)
    or_fallback ctx query limit rows
