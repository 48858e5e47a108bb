-- ===== src/Server/Tools/Read/SearchAnswers.antt =====
-- What `search` and `search_context` answer, and what they write to the audit log.
use murray_context_ledger_mc.Base.{◌≡◌, refl, String, none, List, map}
use murray_context_ledger_mc.Effect.{pure, ◌>>=◌, ◌>>◌}
use murray_context_ledger_mc.Effect.Runs.{Runs, Runs-bind}
use murray_context_ledger_mc.Json.{Json, text, object, field, end}
use murray_context_ledger_mc.Store.{FactRow, FactStatus}
use murray_context_ledger_mc.Server.Env.{Env, IsLawfulEnv}
use murray_context_ledger_mc.Server.Context.{ToolContext, Call, begin, finish}
use murray_context_ledger_mc.Server.Context.Begin.{begin_then_returned, finish-pure_returned}
use murray_context_ledger_mc.Server.Search.{search_facts}
use murray_context_ledger_mc.Server.Search.Found.{search_facts_returned}
use murray_context_ledger_mc.Server.Tools.Read.{
  ids, search_text, search_context_limit, search_context, Hit, hit, search_ledger,
}
use murray_context_ledger_mc.Server.Tools.Read.Shown.{Shown, show}

abbrev pub query_arguments : String → Json
query_arguments query = object (field "query" (text query) end)

module _ (E : Env) (L : IsLawfulEnv E) where
  -- The shared course of the two tools, for a way to answer the rows.
  searched :
      {A : Type 0} (tool query : String) (answer : List FactRow → A) (s : E.backend.State) (a : A)
      (t : E.backend.State)
      → Runs
          (begin E tool (query_arguments query) >>= λ ctx.
            search_facts E ctx query search_context_limit >>= λ rows.
            finish E ctx (ids rows) >> pure (answer rows))
          s
          a
          t
      → (rows : List FactRow) × (a ≡ answer rows)
        × Shown E FactStatus.active tool
            (query_arguments query)
            none
            rows
            (E.backend.tables s)
            (E.backend.tables t)
  searched tool query answer s a t h =
      let args = query_arguments query in
      let reply : ToolContext → List FactRow → Call E _ =
        λ ctx rows. finish E ctx (ids rows) >> pure (answer rows) in
      let (ctx, u, b, rest) =
        begin_then_returned E L tool args
          (λ c. search_facts E c query search_context_limit >>= reply c) s a t h in
      let (rows, v, got, last) =
        Runs-bind (search_facts E ctx query search_context_limit) (reply ctx) u a t rest in
      let (same, audited) =
        finish-pure_returned E L ctx (ids rows) (answer rows) v a t b.subject last in
      (
        rows,
        same,
        show E FactStatus.active tool args none rows (E.backend.tables s) ctx (E.backend.tables u) v
            t b
            (search_facts_returned E L tool args (E.backend.tables s) ctx (E.backend.tables u) b
              query search_context_limit u rows v refl got)
            audited,
      )

  -- A call of `search` that returns answers one hit for each of some active facts of the caller's
  -- org within the caller's effective scopes, in their order; its one audit row lists exactly the
  -- ids of these facts.
  pub search_ledger_returned :
      (query : String) (s : E.backend.State) (hits : List Hit) (t : E.backend.State)
      → Runs (search_ledger E query) s hits t
      → (rows : List FactRow) × (hits ≡ map (hit E) rows)
        × Shown E FactStatus.active "search"
            (query_arguments query)
            none
            rows
            (E.backend.tables s)
            (E.backend.tables t)
  unfolding search_ledger
  search_ledger_returned query s hits t h = searched "search" query (map (hit E)) s hits t h

  -- A call of `search_context` that returns answers the text of some active facts of the caller's
  -- org within the caller's effective scopes; its one audit row lists exactly the ids of these
  -- facts.
  pub search_context_returned :
      (query : String) (s : E.backend.State) (answer : String) (t : E.backend.State)
      → Runs (search_context E query) s answer t
      → (rows : List FactRow) × (answer ≡ search_text query rows)
        × Shown E FactStatus.active "search_context"
            (query_arguments query)
            none
            rows
            (E.backend.tables s)
            (E.backend.tables t)
  unfolding search_context
  search_context_returned query s answer t h =
      searched "search_context" query (search_text query) s answer t h
