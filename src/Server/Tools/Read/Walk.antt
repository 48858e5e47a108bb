-- ===== src/Server/Tools/Read/Walk.antt =====
-- The reading tools, returned or raised: what they can do to the tables.
use murray_context_ledger_mc.Base.{
  ℕ, String, ◌<>◌, not, contains, decimal, Option, none, some, List, [], ◌∷◌, map,
}
use murray_context_ledger_mc.Effect.{pure, ◌>>=◌, ◌>>◌}
use murray_context_ledger_mc.Json.{text, object, field, end}
use murray_context_ledger_mc.Uuid.{is_uuid}
use murray_context_ledger_mc.Store.{FactRow}
use murray_context_ledger_mc.Server.Env.{Env}
use murray_context_ledger_mc.Server.Context.{ToolContext, finish}
use murray_context_ledger_mc.Server.Logic.{Logic, Inside-if, finish-pure, finish-raise, select_then}
use murray_context_ledger_mc.Server.Search.{search_facts}
use murray_context_ledger_mc.Server.Search.Walk.{search_facts-Walk}
use murray_context_ledger_mc.Server.Tools.Read.{
  search_context_limit, ids, quoted, search_text, opt_text, activity_query, activity_text, hit,
  Fetched, fetched, fetch_query, ping_query, count_or_zero, answer_search, search_context, recent,
  in_domain, get_recent_activity, answer_hits, search_ledger, answer_fetch, refuse_id, fetch_as,
  fetch, answer_ping, ping,
}

module _ (E : Env) (G : Logic E) where
  pub refuse_id-Walk :
      (A : Type 0) (ctx : ToolContext) (id : String) → G.Inside ctx _ (refuse_id E {A = A} ctx id)
  unfolding refuse_id
  refuse_id-Walk A ctx id = finish-raise E G ctx A [] ((quoted id <> " is not a valid fact id."))

  module _ (ctx : ToolContext) where
    searched-Walk :
        (query : String) → G.Inside ctx _ (search_facts E ctx query search_context_limit)
    searched-Walk query = search_facts-Walk E G ctx query search_context_limit

    answer_search-Walk :
        (query : String) (rows : List FactRow) → G.Inside ctx _ (answer_search E ctx query rows)
    unfolding answer_search
    answer_search-Walk query rows = finish-pure E G ctx (ids rows) (search_text query rows)

    answer_hits-Walk : (rows : List FactRow) → G.Inside ctx _ (answer_hits E ctx rows)
    unfolding answer_hits
    answer_hits-Walk rows = finish-pure E G ctx (ids rows) (map (hit E) rows)

    recent-Walk :
        (domain : Option String) (scopes : Option (List String))
        → G.Inside ctx _ (recent E ctx domain scopes)
    unfolding recent
    recent-Walk domain scopes =
        select_then E G ctx (activity_query ctx scopes)
          (λ rows. finish E ctx (ids rows) >> pure (activity_text domain rows))
          (λ rows. finish-pure E G ctx (ids rows) (activity_text domain rows))

    in_domain-Walk : (domain : Option String) → G.Inside ctx _ (in_domain E ctx domain)
    unfolding in_domain
    in_domain-Walk none = recent-Walk none none
    in_domain-Walk (some domain) =
        let message =
          "Domain " <> (quoted domain <> " is not within this client's granted scopes.") in
        Inside-if E G ctx (not (contains ctx.granted_scopes domain))
          (finish E ctx [] >> pure message) (recent E ctx (some domain) (some (domain ∷ [])))
          (finish-pure E G ctx [] message) (recent-Walk (some domain) (some (domain ∷ [])))

    answer_fetch-Walk : (rows : List FactRow) → G.Inside ctx _ (answer_fetch E ctx rows)
    unfolding answer_fetch
    answer_fetch-Walk [] =
        finish-raise E G ctx Fetched [] ("Fact not found or not accessible to this client.")
    answer_fetch-Walk (r ∷ rows) = finish-pure E G ctx (r.id ∷ []) (fetched E r)

    fetch_as-Walk : (id : String) → G.Inside ctx _ (fetch_as E ctx id)
    unfolding fetch_as
    fetch_as-Walk id =
        Inside-if E G ctx (is_uuid id)
          (E.backend.select_facts ctx.db (fetch_query ctx id) >>= answer_fetch E ctx)
          (refuse_id E ctx id)
          (select_then E G ctx (fetch_query ctx id) (answer_fetch E ctx) answer_fetch-Walk)
          (refuse_id-Walk Fetched ctx id)

    answer_ping-Walk : (count : Option ℕ) → G.Inside ctx _ (answer_ping E ctx count)
    unfolding answer_ping
    answer_ping-Walk count =
        finish-pure E G ctx []
          ("ledger ok — " <> (decimal (count_or_zero count) <> " active facts for this user."))

  pub search_context-Walk : (query : String) → G.Whole _ (search_context E query)
  unfolding search_context
  search_context-Walk query =
      G.begins _ "search_context" (object (field "query" (text query) end))
        (λ ctx. search_facts E ctx query search_context_limit >>= answer_search E ctx query)
        (λ ctx.
          G.binds ctx _ _ (search_facts E ctx query search_context_limit)
            (answer_search E ctx query) (searched-Walk ctx query) (answer_search-Walk ctx query))

  pub get_recent_activity-Walk : (domain : Option String) → G.Whole _ (get_recent_activity E domain)
  unfolding get_recent_activity
  get_recent_activity-Walk domain =
      G.begins _ "get_recent_activity" (object (field "domain" (opt_text domain) end))
        (λ ctx. in_domain E ctx domain) (λ ctx. in_domain-Walk ctx domain)

  pub search_ledger-Walk : (query : String) → G.Whole _ (search_ledger E query)
  unfolding search_ledger
  search_ledger-Walk query =
      G.begins _ "search" (object (field "query" (text query) end))
        (λ ctx. search_facts E ctx query search_context_limit >>= answer_hits E ctx)
        (λ ctx.
          G.binds ctx _ _ (search_facts E ctx query search_context_limit) (answer_hits E ctx)
            (searched-Walk ctx query) (answer_hits-Walk ctx))

  pub fetch-Walk : (id : String) → G.Whole _ (fetch E id)
  unfolding fetch
  fetch-Walk id =
      G.begins _ "fetch" (object (field "id" (text id) end)) (λ ctx. fetch_as E ctx id)
        (λ ctx. fetch_as-Walk ctx id)

  pub ping-Walk : G.Whole _ (ping E)
  unfolding ping
  ping-Walk =
      G.begins _ "ping" (object end)
        (λ ctx. E.backend.count_facts ctx.db (ping_query ctx) >>= answer_ping E ctx)
        (λ ctx.
          G.binds ctx _ _ (E.backend.count_facts ctx.db (ping_query ctx)) (answer_ping E ctx)
            (G.counts ctx (ping_query ctx)) (answer_ping-Walk ctx))
