-- ===== src/Server/Tools/Profile/Answer.antt =====
-- What `get_profile` answers, and what it writes to the audit log.
use murray_context_ledger_mc.Base.{
  ◌+◌, ◌*◌, ◌≤◌, ◌≡◌, refl, ap, ◌∙◌, String, none, List, [], ◌∷◌, ◌++◌, map, take, length,
  length-take, length-append, size, All, All-append, All-take, All-prefix, arith,
}
use murray_context_ledger_mc.Effect.{◌>>=◌}
use murray_context_ledger_mc.Effect.Runs.{Runs, Runs-bind}
use murray_context_ledger_mc.Json.{object, end}
use murray_context_ledger_mc.Schemas.{FactType}
use murray_context_ledger_mc.Store.{Tables, FactRow, FactStatus, eq_type, in_type}
use murray_context_ledger_mc.Server.Env.{Env, IsLawfulEnv}
use murray_context_ledger_mc.Server.Context.{ToolContext}
use murray_context_ledger_mc.Server.Context.Begin.{Begun, begin_then_returned, finish-pure_returned}
use murray_context_ledger_mc.Server.Scope.{scoped_active_facts}
use murray_context_ledger_mc.Server.Scope.Visible.{Visible}
use murray_context_ledger_mc.Server.Search.Found.{scoped_returned}
use murray_context_ledger_mc.Server.Render.{estimate_tokens}
use murray_context_ledger_mc.Server.Tools.Read.{ids}
use murray_context_ledger_mc.Server.Tools.Read.Shown.{Shown, show}
use murray_context_ledger_mc.Server.Tools.Profile.{
  profile_lines, profile_token_budget, profile_fact_cap, profile_text, header, identity_query,
  preference_query, report, get_profile,
}
use murray_context_ledger_mc.Server.Tools.Profile.Budget.{
  line_of, costs, profile_lines-Chosen, size-profile_text,
}

map-ids : (rows : List FactRow) → map (λ l. l.1) (map line_of rows) ≡ ids rows
map-ids [] = refl
map-ids (r ∷ rows) = ap (λ xs. r.id ∷ xs) (map-ids rows)

header_cost : estimate_tokens header ≤ profile_token_budget
unfolding estimate_tokens
header_cost = omega arith

module _ (E : Env) (L : IsLawfulEnv E) where
  -- The answer and the rows it is made of.
  abbrev pub Profiles : String → Tables → Tables → Type 0
  Profiles answer before after =
      (rows : List FactRow) × (answer ≡ profile_text (map (λ l. l.0) (map line_of rows)))
      × (length rows ≤ profile_fact_cap)
      × (estimate_tokens header + costs rows ≤ profile_token_budget)
      × (size answer ≤ 4 * profile_token_budget + profile_fact_cap)
      × Shown E FactStatus.active "get_profile" (object end) none rows before after

  report_returned :
      (before : Tables) (ctx : ToolContext) (mid : Tables) (identity preferences : List FactRow)
      (s : E.backend.State) (answer : String) (t : E.backend.State)
      → Begun E "get_profile" (object end) before ctx mid
      → E.backend.tables s ≡ mid
      → All (Visible FactStatus.active ctx none mid) identity
      → All (Visible FactStatus.active ctx none mid) preferences
      → Runs (report E ctx identity preferences) s answer t
      → Profiles answer before (E.backend.tables t)
  unfolding report
  report_returned before ctx mid identity preferences s answer t b at_mid vi vp h =
      let candidates = take profile_fact_cap (identity ++ preferences) in
      let lines = profile_lines (estimate_tokens header) candidates in
      let c = profile_lines-Chosen (estimate_tokens header) candidates header_cost in
      let seen : All (Visible FactStatus.active ctx none mid) candidates =
        All-take _ profile_fact_cap (identity ++ preferences)
          (All-append _ identity preferences vi vp) in
      let (same, audited) =
        finish-pure_returned E L ctx (map (λ l. l.1) lines) (profile_text (map (λ l. l.0) lines)) s
          answer t b.subject h in
      let few : length c.chosen ≤ profile_fact_cap = omega (
        arith,
        length-take profile_fact_cap (identity ++ preferences),
        ap length c.split,
        length-append c.chosen c.rest,
      ) in
      let text : answer ≡ profile_text (map (λ l. l.0) (map line_of c.chosen)) =
        same ∙ ap (λ ls. profile_text (map (λ l. l.0) ls)) c.lines_are in
      let listed : map (λ l. l.1) lines ≡ ids c.chosen =
        ap (map (λ l. l.1)) c.lines_are ∙ map-ids c.chosen in
      (
        c.chosen,
        text,
        few,
        c.within,
        rw text (size-profile_text c.chosen c.within few),
        show E FactStatus.active "get_profile" (object end) none c.chosen before ctx mid s t b
            (at_mid, All-prefix _ c.chosen c.rest (rw c.split at seen)) (rw listed at audited),
      )

  -- A call of `get_profile` that returns answers the text of at most 30 active facts of the
  -- caller's org within scope, which fit the budget of 400 estimated tokens together with the
  -- header; the answer has at most 1630 characters, and the audit row lists exactly the ids of
  -- these facts.
  pub get_profile_returned :
      (s : E.backend.State) (answer : String) (t : E.backend.State)
      → Runs (get_profile E) s answer t
      → Profiles answer (E.backend.tables s) (E.backend.tables t)
  unfolding get_profile identity_query preference_query scoped_active_facts
  get_profile_returned s answer t h =
      let before = E.backend.tables s in
      let (ctx, u, b, rest) =
        begin_then_returned E L "get_profile" (object end)
          (λ c. E.backend.select_facts c.db (identity_query c) >>= λ identity.
            E.backend.select_facts c.db (preference_query c) >>= report E c identity)
          s answer t h in
      let mid = E.backend.tables u in
      let (identity, v, got, more) =
        Runs-bind (E.backend.select_facts ctx.db (identity_query ctx))
          (λ identity.
            E.backend.select_facts ctx.db (preference_query ctx) >>= report E ctx identity)
          u answer t rest in
      let (at_mid, vi) =
        scoped_returned E L "get_profile" (object end) before ctx mid b (identity_query ctx)
          FactStatus.active none (eq_type FactType.identity ∷ []) u identity v refl refl got in
      let (preferences, w, got', last) =
        Runs-bind (E.backend.select_facts ctx.db (preference_query ctx)) (report E ctx identity) v
          answer t more in
      let (still, vp) =
        scoped_returned E L "get_profile" (object end) before ctx mid b (preference_query ctx)
          FactStatus.active none (in_type (FactType.preference ∷ FactType.style ∷ []) ∷ []) v
          preferences w refl at_mid got' in
      report_returned before ctx mid identity preferences w answer t b still vi vp last
