-- ===== src/Server/Tools/Profile/Walk.antt =====
-- `get_profile`, returned or raised: what it can do to the tables.
use murray_context_ledger_mc.Base.{List, ◌++◌, map, take}
use murray_context_ledger_mc.Effect.{◌>>=◌}
use murray_context_ledger_mc.Json.{object, end}
use murray_context_ledger_mc.Store.{FactRow}
use murray_context_ledger_mc.Server.Env.{Env}
use murray_context_ledger_mc.Server.Context.{ToolContext}
use murray_context_ledger_mc.Server.Logic.{Logic, finish-pure, select_then}
use murray_context_ledger_mc.Server.Render.{estimate_tokens}
use murray_context_ledger_mc.Server.Tools.Profile.{
  profile_fact_cap, header, identity_query, preference_query, profile_lines, profile_text, report,
  get_profile,
}

module _ (E : Env) (G : Logic E) where
  report-Walk :
      (ctx : ToolContext) (identity preferences : List FactRow)
      → G.Inside ctx _ (report E ctx identity preferences)
  unfolding report
  report-Walk ctx identity preferences =
      let chosen =
        profile_lines (estimate_tokens header) (take profile_fact_cap (identity ++ preferences)) in
      finish-pure E G ctx (map (λ l. l.1) chosen) (profile_text (map (λ l. l.0) chosen))

  pub get_profile-Walk : G.Whole _ (get_profile E)
  unfolding get_profile
  get_profile-Walk =
      G.begins _ "get_profile" (object end)
        (λ ctx. E.backend.select_facts ctx.db (identity_query ctx) >>= λ identity.
          E.backend.select_facts ctx.db (preference_query ctx) >>= λ preferences.
          report E ctx identity preferences)
        (λ ctx.
          select_then E G ctx (identity_query ctx)
            (λ identity. E.backend.select_facts ctx.db (preference_query ctx) >>= λ preferences.
              report E ctx identity preferences)
            (λ identity.
              select_then E G ctx (preference_query ctx) (report E ctx identity)
                (λ preferences. report-Walk ctx identity preferences)))
