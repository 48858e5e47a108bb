-- ===== src/Server/Search/Found.antt =====
-- What the scoped reads of a call that has begun can return.
use murray_context_ledger_mc.Base.{
  ℕ, ◌≡◌, ◌∙◌, refl, String, Option, none, List, [], ◌∷◌, true, All, Has,
}
use murray_context_ledger_mc.Effect.Runs.{Runs, Runs-bind, Runs-pure, Runs-result}
use murray_context_ledger_mc.Json.{Json}
use murray_context_ledger_mc.Store.{
  Tables, FactRow, FactStatus, FactFilter, FactQuery, text_search_content, ilike_content,
}
use murray_context_ledger_mc.Store.Backend.{holds_all}
use murray_context_ledger_mc.Store.Returned.{select_facts_returned}
use murray_context_ledger_mc.Store.Laws.{names_row}
use murray_context_ledger_mc.Server.Env.{Env, IsLawfulEnv}
use murray_context_ledger_mc.Server.Context.{ToolContext}
use murray_context_ledger_mc.Server.Context.Begin.{Begun, Begun-only_org, Begun-is_member_of}
use murray_context_ledger_mc.Server.Scope.{scoped_active_facts}
use murray_context_ledger_mc.Server.Scope.Visible.{
  Visible, scoped_filters, answer_visible, Answer-more, visible-holds_all,
}
use murray_context_ledger_mc.Server.Render.{like_pattern}
use murray_context_ledger_mc.Server.Search.{text_query, fallback_query, or_fallback, search_facts}

-- A read that left the tables alone and answered rows that the caller may see.
abbrev pub Found :
    (E : Env)
    → FactStatus
    → ToolContext
    → Option (List String)
    → Tables
    → List FactRow
    → E.backend.State
    → Type 0
Found E status ctx scopes mid rows t =
    (E.backend.tables t ≡ mid) × All (Visible status ctx scopes mid) rows

module _ (E : Env) (L : IsLawfulEnv E) (tool : String) (arguments : Json) (before : Tables)
    (ctx : ToolContext) (mid : Tables) (b : Begun E tool arguments before ctx mid) where
  pub scoped_returned :
      (q : FactQuery) (status : FactStatus) (scopes : Option (List String)) (more : List FactFilter)
      (s : E.backend.State) (rows : List FactRow) (t : E.backend.State)
      → q.filters ≡ scoped_filters status ctx scopes more
      → E.backend.tables s ≡ mid
      → Runs (E.backend.select_facts ctx.db q) s rows t
      → Found E status ctx scopes mid rows t
  scoped_returned q status scopes more s rows t shape at_mid h =
      let (kept, sound) =
        select_facts_returned E.backend L.lawful ctx.db q ctx.user_sub s rows t b.subject h in
      (
        kept ∙ at_mid,
        answer_visible E.backend status ctx scopes mid
            (Begun-only_org E tool arguments before ctx mid b) q more rows shape
            (rw at_mid at sound),
      )

  pub scoped_more :
      (q : FactQuery) (status : FactStatus) (scopes : Option (List String)) (more : List FactFilter)
      (s : E.backend.State) (rows : List FactRow) (t : E.backend.State)
      → q.filters ≡ scoped_filters status ctx scopes more
      → E.backend.tables s ≡ mid
      → Runs (E.backend.select_facts ctx.db q) s rows t
      → All (λ r. holds_all E.backend more r ≡ true) rows
  scoped_more q status scopes more s rows t shape at_mid h =
      let (kept, sound) =
        select_facts_returned E.backend L.lawful ctx.db q ctx.user_sub s rows t b.subject h in
      Answer-more E.backend status ctx scopes mid (Begun-only_org E tool arguments before ctx mid b)
        q more rows shape (rw at_mid at sound)

  -- Of a query for one id no visible row is missing.
  pub scoped_complete :
      (q : FactQuery) (status : FactStatus) (scopes : Option (List String)) (more : List FactFilter)
      (s : E.backend.State) (rows : List FactRow) (t : E.backend.State) (r : FactRow)
      → q.filters ≡ scoped_filters status ctx scopes more
      → q.limit ≡ none
      → names_row q.filters ≡ true
      → E.backend.tables s ≡ mid
      → Runs (E.backend.select_facts ctx.db q) s rows t
      → Visible status ctx scopes mid r
      → holds_all E.backend more r ≡ true
      → Has r rows
  scoped_complete q status scopes more s rows t r shape unlimited named at_mid h v meets =
      L.lawful.on_facts.select_complete ctx.db q s ctx.user_sub rows r b.subject
        (Runs-result (E.backend.select_facts ctx.db q) s rows t h) unlimited named
        (rw at_mid v.stored)
        (rw (at_mid, v.in_org) (Begun-is_member_of E tool arguments before ctx mid b))
        (rw shape (visible-holds_all E.backend status ctx scopes mid more r v meets))

  or_fallback_returned :
      (query : String) (limit : ℕ) (s u : E.backend.State) (rows found : List FactRow)
      (t : E.backend.State)
      → Found E FactStatus.active ctx none mid rows u
      → Runs (or_fallback E ctx query limit rows) u found t
      → Found E FactStatus.active ctx none mid found t
  unfolding or_fallback fallback_query scoped_active_facts
  or_fallback_returned query limit s u [] found t (kept, sound) h =
      scoped_returned (fallback_query ctx query limit) FactStatus.active none
        (ilike_content (like_pattern query) ∷ []) u found t refl kept h
  or_fallback_returned query limit s u (r ∷ rows) found t (kept, sound) h =
      let (same, still) = Runs-pure (r ∷ rows) u found t h in (rw (← still) kept, rw (← same) sound)

  pub search_facts_returned :
      (query : String) (limit : ℕ) (s : E.backend.State) (rows : List FactRow) (t : E.backend.State)
      → E.backend.tables s ≡ mid
      → Runs (search_facts E ctx query limit) s rows t
      → Found E FactStatus.active ctx none mid rows t
  unfolding search_facts text_query scoped_active_facts
  search_facts_returned query limit s rows t at_mid h =
      let (found, u, got, rest) =
        Runs-bind (E.backend.select_facts ctx.db (text_query ctx query limit))
          (or_fallback E ctx query limit) s rows t h in
      or_fallback_returned query limit s u found rows t
        (scoped_returned (text_query ctx query limit) FactStatus.active none
          (text_search_content query "web_search" "english" ∷ []) s found u refl at_mid got)
        rest
