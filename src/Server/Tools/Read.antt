-- ===== src/Server/Tools/Read.antt =====
-- The tools `search_context`, `get_recent_activity`, `search`, `fetch` and `ping`.
pub mod Shown
pub mod SearchAnswers
pub mod ActivityAnswers
pub mod FetchAnswers
pub mod PingAnswer
pub mod Walk
use murray_context_ledger_mc.Base.{
  ℕ, String, ◌<>◌, ◌==◌, Bool, not, contains, Option, none, some, List, [], ◌∷◌, map, join, length,
  decimal, prefix_of, if◌then◌else◌,
}
use murray_context_ledger_mc.Effect.{value_error, pure, raise, ◌>>=◌, ◌>>◌}
use murray_context_ledger_mc.Json.{Json, null, text, object, field, end}
use murray_context_ledger_mc.Schemas.{FactType, FactSource, Float, type_name}
use murray_context_ledger_mc.Config.{truthy}
use murray_context_ledger_mc.Uuid.{is_uuid}
use murray_context_ledger_mc.Store.{
  FactRow, FactStatus, FactQuery, eq_id, eq_status, in_type, overlaps_scope_tags, asc, desc,
  filtered, ordered, limited,
}
use murray_context_ledger_mc.Server.Env.{Env}
use murray_context_ledger_mc.Server.Context.{ToolContext, Call, begin, finish}
use murray_context_ledger_mc.Server.Scope.{scoped_active_facts, effective_scopes}
use murray_context_ledger_mc.Server.Render.{fact_line, max_line, fact_url}
use murray_context_ledger_mc.Server.Search.{search_facts}

abbrev pub search_context_limit : ℕ
search_context_limit = 12

abbrev pub recent_activity_limit : ℕ
recent_activity_limit = 10

abbrev pub snippet_chars : ℕ
snippet_chars = 200

abbrev pub ids : List FactRow → List String
ids = map (λ r. r.id)

unfoldable pub quoted : String → String
quoted s = "'" <> (s <> "'")

pub search_text : String → List FactRow → String
unfolding quoted
search_text query [] = "No stored facts match " <> (quoted query <> ".")
search_text query (r ∷ rows) = join "\n" (
    (decimal (length (r ∷ rows)) <> (" stored facts match " <> (quoted query <> ":")))
    ∷ map (fact_line max_line) (r ∷ rows))

unfoldable pub opt_text : Option String → Json
opt_text none = null
opt_text (some s) = text s

unfoldable pub activity_query : ToolContext → Option (List String) → FactQuery
activity_query ctx scopes =
    limited
      (ordered
        (ordered
          (filtered (scoped_active_facts ctx "id,type,content,confidence,last_seen" scopes)
            (in_type (FactType.state ∷ FactType.episodic ∷ FactType.behavioral ∷ [])))
          (desc "last_seen"))
        (asc "id"))
      recent_activity_limit

scope_note : Option String → String
unfolding quoted
scope_note none = ""
scope_note (some domain) = if truthy (some domain) then " in domain " <> quoted domain else ""

activity_line : FactRow → String
activity_line r =
    "[" <> (type_name r.type <> (", " <> (prefix_of 10 r.last_seen <> ("] " <> r.content))))

pub activity_text : Option String → List FactRow → String
unfolding scope_note activity_line
activity_text domain [] = "No recent activity facts" <> (scope_note domain <> ".")
activity_text domain (r ∷ rows) =
    join "\n" ("Recent activity, newest first:" ∷ map activity_line (r ∷ rows))

-- One result of `search`.
pub record Hit : Type 0 where
  pub id : String
  pub title : String
  pub text : String
  pub url : String

-- The result of `fetch`, its metadata included.
pub record Fetched : Type 0 where
  pub id : String
  pub title : String
  pub text : String
  pub url : String
  pub type : FactType
  pub confidence : Float
  pub scope_tags : List String
  pub source : FactSource
  pub first_seen : String
  pub last_seen : String

title : FactRow → String
title r = type_name r.type <> (": " <> prefix_of 80 r.content)

unfoldable pub fetch_query : ToolContext → String → FactQuery
fetch_query ctx id =
    filtered
      (scoped_active_facts ctx
        "id,type,content,confidence,status,scope_tags,source,first_seen,last_seen" none)
      (eq_id id)

unfoldable pub ping_query : ToolContext → FactQuery
ping_query ctx = record {
  columns = "id";
  filters = eq_status FactStatus.active ∷ overlaps_scope_tags (effective_scopes ctx none) ∷ [];
  orders = [];
  limit = none;
}

pub count_or_zero : Option ℕ → ℕ
count_or_zero none = 0
count_or_zero (some n) = n

module _ (E : Env) where
  answer_search : ToolContext → String → List FactRow → Call E String
  unfolding search_text finish
  answer_search ctx query rows = do finish E ctx (ids rows); pure (search_text query rows)

  unfoldable pub search_context : String → Call E String
  unfolding answer_search
  search_context query = do
    ctx ← begin E "search_context" (object (field "query" (text query) end))
    rows ← search_facts E ctx query search_context_limit
    answer_search ctx query rows

  recent : ToolContext → Option String → Option (List String) → Call E String
  unfolding activity_query activity_text finish
  recent ctx domain scopes = do
    rows ← E.backend.select_facts ctx.db (activity_query ctx scopes)
    finish E ctx (ids rows)
    pure (activity_text domain rows)

  in_domain : ToolContext → Option String → Call E String
  unfolding recent quoted finish
  in_domain ctx none = recent ctx none none
  in_domain ctx (some domain) =
      if not (contains ctx.granted_scopes domain)
      then (do
        finish E ctx []
        pure ("Domain " <> (quoted domain <> " is not within this client's granted scopes.")))
      else recent ctx (some domain) (some (domain ∷ []))

  unfoldable pub get_recent_activity : Option String → Call E String
  unfolding in_domain opt_text
  get_recent_activity domain = do
    ctx ← begin E "get_recent_activity" (object (field "domain" (opt_text domain) end))
    in_domain ctx domain

  pub hit : FactRow → Hit
  unfolding title
  hit r = record {
    id = r.id;
    title = title r;
    text = prefix_of snippet_chars r.content;
    url = fact_url E r.id;
  }

  answer_hits : ToolContext → List FactRow → Call E (List Hit)
  unfolding hit finish
  answer_hits ctx rows = do finish E ctx (ids rows); pure (map hit rows)

  unfoldable pub search_ledger : String → Call E (List Hit)
  unfolding answer_hits
  search_ledger query = do
    ctx ← begin E "search" (object (field "query" (text query) end))
    rows ← search_facts E ctx query search_context_limit
    answer_hits ctx rows

  pub fetched : FactRow → Fetched
  unfolding title
  fetched r = record {
    id = r.id;
    title = title r;
    text = r.content;
    url = fact_url E r.id;
    type = r.type;
    confidence = r.confidence;
    scope_tags = r.scope_tags;
    source = r.source;
    first_seen = r.first_seen;
    last_seen = r.last_seen;
  }

  answer_fetch : ToolContext → List FactRow → Call E Fetched
  unfolding fetched finish
  answer_fetch ctx [] = do
    finish E ctx []
    raise (value_error "Fact not found or not accessible to this client.")
  answer_fetch ctx (r ∷ rows) = do finish E ctx (r.id ∷ []); pure (fetched r)

  -- What a tool does with an id that is no uuid.
  unfoldable pub refuse_id : {A : Type 0} → ToolContext → String → Call E A
  unfolding finish quoted
  refuse_id ctx id = do
    finish E ctx []
    raise (value_error (quoted id <> " is not a valid fact id."))

  fetch_as : ToolContext → String → Call E Fetched
  unfolding refuse_id answer_fetch fetch_query
  fetch_as ctx id =
      if is_uuid id
      then (do rows ← E.backend.select_facts ctx.db (fetch_query ctx id); answer_fetch ctx rows)
      else refuse_id ctx id

  unfoldable pub fetch : String → Call E Fetched
  unfolding fetch_as
  fetch id = do ctx ← begin E "fetch" (object (field "id" (text id) end)); fetch_as ctx id

  answer_ping : ToolContext → Option ℕ → Call E String
  unfolding finish count_or_zero
  answer_ping ctx count = do
    finish E ctx []
    pure ("ledger ok — " <> (decimal (count_or_zero count) <> " active facts for this user."))

  unfoldable pub ping : Call E String
  unfolding answer_ping ping_query
  ping = do
    ctx ← begin E "ping" (object end)
    count ← E.backend.count_facts ctx.db (ping_query ctx)
    answer_ping ctx count
