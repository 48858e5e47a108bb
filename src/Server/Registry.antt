-- ===== src/Server/Registry.antt =====
-- `build_mcp` and `_register_tools` of server/app/mcp_server.py: what the SDK is given.
use murray_context_ledger_mc.Base.{
  ◌≡◌, refl, String, Bool, true, false, List, [], ◌∷◌, map, contains,
}
use murray_context_ledger_mc.Config.{Settings, auth0_issuer}
use murray_context_ledger_mc.Server.Request.{
  Request, profile_request, context_request, activity_request, search_request, fetch_request,
  ping_request, remember_request, supersede_request, pending_request, promote_request,
  reject_request, tool_of,
}

abbrev pub get_profile_description : String
get_profile_description =
    "Returns the user's core profile: identity, strongest preferences, and communication style. Call this once near the start of a conversation to personalize your responses."

abbrev pub search_context_description : String
search_context_description =
    "Searches the user's full memory for facts relevant to a topic. Call whenever the user references something you don't know about them — a project, a person, a plan, a preference."

abbrev pub get_recent_activity_description : String
get_recent_activity_description =
    "Returns the user's recent activity: current state, recent events, and observed behaviors, newest first. Optionally filter to one life domain such as 'work' or 'personal'."

abbrev pub search_description : String
search_description =
    "Searches the user's memory ledger and returns matching facts as search results. Use the fetch tool to retrieve the full content of a result by id."

abbrev pub fetch_description : String
fetch_description =
    "Fetches the full content of a single fact from the user's memory ledger by its id, as returned by the search tool."

abbrev pub ping_description : String
ping_description =
    "Verifies the connection to the user's memory ledger. Returns a short status line including how many active facts the ledger holds."

abbrev pub remember_facts_description : String
remember_facts_description =
    "Saves one or more already-structured facts about the account to the team's shared memory. Each fact needs a `type` (identity, preference, state, episodic, relationship, style, or behavioral), `content`, and a `confidence` 0..1; optional `scope_tags`, `source`, `source_ref`, and a `dedupe_key` that makes re-sending the same fact a no-op. Facts at confidence >= 0.9 become active (team-visible) immediately; lower ones wait in pending_review. Returns a per-fact summary of what was created, deduped, or rejected."

abbrev pub supersede_fact_description : String
supersede_fact_description =
    "Replaces an existing fact with a corrected one: writes the new fact and retires the old one (status 'superseded', linked via superseded_by). Use when the account's reality changed or a prior fact was wrong. Pass the old fact's id and the new fact in the same shape remember_facts accepts."

abbrev pub list_pending_facts_description : String
list_pending_facts_description =
    "Lists facts awaiting review (those that landed below the auto-promote confidence and aren't team-visible yet), newest first. For owner/office reviewers triaging the team's recent field notes before they go live."

abbrev pub promote_fact_description : String
promote_fact_description =
    "Approves a pending fact by id, making it active and visible to the whole org. Owner/office only. Use after confirming a field note is correct."

abbrev pub reject_fact_description : String
reject_fact_description =
    "Rejects a pending fact by id so it never becomes team-visible. Owner/office only. Optionally include a short reason for the audit trail."

-- `@mcp.tool(name=…, description=…)`
pub record Tool : Type 0 where
  pub name : String
  pub description : String

-- The tools, in the order in which `_register_tools` registers them.
unfoldable pub register_tools : List Tool
register_tools =
    record { name = "get_profile"; description = get_profile_description }
    ∷ record { name = "search_context"; description = search_context_description }
    ∷ record { name = "get_recent_activity"; description = get_recent_activity_description }
    ∷ record { name = "search"; description = search_description }
    ∷ record { name = "fetch"; description = fetch_description }
    ∷ record { name = "ping"; description = ping_description }
    ∷ record { name = "remember_facts"; description = remember_facts_description }
    ∷ record { name = "supersede_fact"; description = supersede_fact_description }
    ∷ record { name = "list_pending_facts"; description = list_pending_facts_description }
    ∷ record { name = "promote_fact"; description = promote_fact_description }
    ∷ record { name = "reject_fact"; description = reject_fact_description }
    ∷ []

-- `Auth0AccessTokenVerifier()`, which is `access_token` of Auth.
pub data TokenVerifier : Type 0 where
  auth0_access_token_verifier : TokenVerifier

-- The arguments of `FastMCP`, and the tools that it holds.
pub record FastMcp : Type 0 where
  pub name : String
  pub instructions : String
  pub stateless_http : Bool
  pub json_response : Bool
  pub streamable_http_path : String
  pub token_verifier : TokenVerifier
  pub issuer_url : String
  pub resource_server_url : String
  pub enable_dns_rebinding_protection : Bool
  pub tools : List Tool

unfoldable pub build_mcp : Settings → FastMcp
unfolding register_tools
build_mcp settings = record {
  name = "Murray Context Ledger";
  instructions =
      "Personal memory ledger for this user. Call get_profile early in a conversation; call search_context when the user mentions something you don't know about them.";
  stateless_http = true;
  json_response = true;
  streamable_http_path = "/mcp";
  token_verifier = auth0_access_token_verifier;
  issuer_url = auth0_issuer settings;
  resource_server_url = settings.resource_server_url;
  enable_dns_rebinding_protection = false;
  tools = register_tools;
}

-- Each request is for a tool that the server offers.
tool_of-offered :
    (settings : Settings) (q : Request)
    → contains (map (λ t. t.name) (build_mcp settings).tools) (tool_of q) ≡ true
unfolding build_mcp register_tools tool_of
tool_of-offered settings profile_request = refl
tool_of-offered settings (context_request query) = refl
tool_of-offered settings (activity_request domain) = refl
tool_of-offered settings (search_request query) = refl
tool_of-offered settings (fetch_request id) = refl
tool_of-offered settings ping_request = refl
tool_of-offered settings (remember_request facts) = refl
tool_of-offered settings (supersede_request old fact) = refl
tool_of-offered settings (pending_request limit) = refl
tool_of-offered settings (promote_request id) = refl
tool_of-offered settings (reject_request id reason) = refl
