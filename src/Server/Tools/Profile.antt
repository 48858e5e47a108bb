-- ===== src/Server/Tools/Profile.antt =====
-- The tool `get_profile`.
pub mod Budget
pub mod Answer
pub mod Walk
use murray_context_ledger_mc.Base.{
  ℕ, ◌+◌, String, ltb, none, some, List, [], ◌∷◌, ◌++◌, map, take, join, if◌then◌else◌,
}
use murray_context_ledger_mc.Effect.{pure, ◌>>=◌, ◌>>◌}
use murray_context_ledger_mc.Json.{object, end}
use murray_context_ledger_mc.Schemas.{FactType}
use murray_context_ledger_mc.Store.{
  FactRow, FactQuery, eq_type, in_type, asc, desc, filtered, ordered, limited,
}
use murray_context_ledger_mc.Server.Env.{Env}
use murray_context_ledger_mc.Server.Context.{ToolContext, Call, begin, finish}
use murray_context_ledger_mc.Server.Scope.{scoped_active_facts}
use murray_context_ledger_mc.Server.Render.{estimate_tokens, fact_line, max_line}

abbrev pub profile_token_budget : ℕ
profile_token_budget = 400

abbrev pub profile_fact_cap : ℕ
profile_fact_cap = 30

abbrev pub header : String
header = "Core profile for this user:"

abbrev columns : String
columns = "id,type,content,confidence"

unfoldable pub identity_query : ToolContext → FactQuery
identity_query ctx =
    limited
      (ordered
        (ordered (filtered (scoped_active_facts ctx columns none) (eq_type FactType.identity))
          (asc "created_at"))
        (asc "id"))
      profile_fact_cap

unfoldable pub preference_query : ToolContext → FactQuery
preference_query ctx =
    limited
      (ordered
        (ordered
          (ordered
            (filtered (scoped_active_facts ctx columns none)
              (in_type (FactType.preference ∷ FactType.style ∷ [])))
            (desc "confidence"))
          (asc "created_at"))
        (asc "id"))
      profile_fact_cap

-- The loop: the lines and the ids that it appends, from the budget used so far.
unfoldable pub profile_lines : ℕ → List FactRow → List (String × String)
profile_lines budget_used [] = []
profile_lines budget_used (fact ∷ facts) =
    let line = fact_line max_line fact in
    let cost = estimate_tokens line in
    let more = (line, fact.id) ∷ profile_lines (budget_used + cost) facts in
    if ltb profile_token_budget (budget_used + cost) then [] else more

pub profile_text : List String → String
profile_text [] = "The ledger holds no active profile facts for this user yet."
profile_text (line ∷ lines) = join "\n" (header ∷ line ∷ lines)

module _ (E : Env) where
  report : ToolContext → List FactRow → List FactRow → Call E String
  unfolding profile_text finish
  report ctx identity preferences = do
    let chosen =
        profile_lines (estimate_tokens header) (take profile_fact_cap (identity ++ preferences))
    finish E ctx (map (λ l. l.1) chosen)
    pure (profile_text (map (λ l. l.0) chosen))

  unfoldable pub get_profile : Call E String
  unfolding report identity_query preference_query
  get_profile = do
    ctx ← begin E "get_profile" (object end)
    identity ← E.backend.select_facts ctx.db (identity_query ctx)
    preferences ← E.backend.select_facts ctx.db (preference_query ctx)
    report ctx identity preferences
