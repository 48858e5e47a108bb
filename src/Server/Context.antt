-- ===== src/Server/Context.antt =====
-- `_begin`, `_resolve_membership`, `_resolve_client` and `_finish`.
pub mod Org
pub mod Seat
pub mod Begin
pub mod Refused
pub mod Kept
pub mod Answers
use murray_context_ledger_mc.Base.{
  ℕ, String, ◌==◌, Bool, true, false, Option, none, some, List, [], ◌∷◌, if◌then◌else◌,
}
use murray_context_ledger_mc.Effect.{
  Error, value_error, api_error, index_error, Result, Exec, pure, raise, ◌>>=◌, ◌>>◌, catch,
}
use murray_context_ledger_mc.Json.{Json, dumps}
use murray_context_ledger_mc.Config.{Settings, truthy}
use murray_context_ledger_mc.Db.{Client, client_for_subject}
use murray_context_ledger_mc.Auth.{AccessToken, Claims}
use murray_context_ledger_mc.Store.{Role, SeatStatus, Membership, ClientRow, AuditRow, ClientInsert}
use murray_context_ledger_mc.Store.Backend.{Backend}
use murray_context_ledger_mc.Server.Env.{Env}

abbrev pub unauthenticated_message : String
unauthenticated_message = "Unauthenticated MCP request reached a tool handler."

abbrev pub no_org_message : String
no_org_message =
    "This account is not a member of any ledger org yet. Ask an admin to provision a seat for you, then try again."

abbrev pub multi_org_message : String
multi_org_message =
    "This account belongs to more than one org, which is not supported in v1. Each user must map to exactly one org."

abbrev pub revoked_client_message : String
revoked_client_message =
    "This client's access to the ledger has been revoked. Ask the user to re-enable it in their ledger dashboard, then try again."

pub record ToolContext : Type 0 where
  pub db : Client
  pub user_sub : String
  pub org_id : String
  pub role : Role
  pub client_row_id : String
  pub granted_scopes : List String
  pub connector_source : Option String
  pub tool : String
  pub arguments : Json

module _ (E : Env) where
  abbrev pub Call : Type 0 → Type 0
  Call A = Exec E.backend.State A

  one_membership : List Membership → Call (String × Role)
  one_membership [] = raise (value_error no_org_message)
  one_membership (m ∷ []) = pure (m.org_id, m.role)
  one_membership (m ∷ n ∷ rest) = raise (value_error multi_org_message)

  unfoldable pub resolve_membership : Client → String → Call (String × Role)
  unfolding one_membership
  resolve_membership db user_sub = do
    rows ← E.backend.select_memberships db user_sub
    one_membership rows

  -- `rows[0]`
  first_seat : List ClientRow → Call ClientRow
  first_seat [] = raise index_error
  first_seat (r ∷ rest) = pure r

  reselect : Client → String → String → Call ClientRow
  unfolding first_seat
  reselect db org_id oauth_client_id = do
    rows ← E.backend.select_clients db org_id oauth_client_id
    first_seat rows

  -- The `except APIError` clause: another request may have registered the seat in between.
  seat_conflict : Client → String → String → Error → Call ClientRow
  unfolding reselect
  seat_conflict db org_id oauth_client_id (api_error code) =
      if code == "23505" then reselect db org_id oauth_client_id else raise (api_error code)
  seat_conflict db org_id oauth_client_id e = raise e

  register_seat : Client → String → String → String → Call ClientRow
  unfolding first_seat seat_conflict
  register_seat db org_id user_sub oauth_client_id =
      catch
        (do
          inserted ← E.backend.insert_client db (record {
            org_id = org_id;
            user_id = user_sub;
            oauth_client_id = oauth_client_id;
            display_name = oauth_client_id;
          })
          first_seat inserted)
        (seat_conflict db org_id oauth_client_id)

  found_seat : Client → String → String → String → List ClientRow → Call ClientRow
  unfolding register_seat
  found_seat db org_id user_sub oauth_client_id [] =
      register_seat db org_id user_sub oauth_client_id
  found_seat db org_id user_sub oauth_client_id (r ∷ rest) = pure r

  unfoldable pub resolve_client : Client → String → String → String → Call ClientRow
  unfolding found_seat
  resolve_client db org_id user_sub oauth_client_id = do
    found ← E.backend.select_clients db org_id oauth_client_id
    found_seat db org_id user_sub oauth_client_id found

  -- The row that `_finish` inserts.
  unfoldable pub audit_row : ToolContext → List String → AuditRow
  audit_row ctx fact_ids = record {
    user_id = ctx.user_sub;
    org_id = ctx.org_id;
    client_id = ctx.client_row_id;
    tool = ctx.tool;
    payload_hash = E.sha256_hex (dumps ctx.arguments);
    fact_ids = fact_ids;
  }

  unfoldable pub finish : ToolContext → List String → Call Unit
  finish ctx fact_ids = E.backend.insert_audit ctx.db (audit_row ctx fact_ids)

  unfoldable pub context : Client → String → String × Role → ClientRow → String → Json → ToolContext
  context db user_sub (org_id, role) client_row tool arguments = record {
    db = db;
    user_sub = user_sub;
    org_id = org_id;
    role = role;
    client_row_id = client_row.id;
    granted_scopes = client_row.granted_scopes;
    connector_source = client_row.connector_source;
    tool = tool;
    arguments = arguments;
  }

  admit : SeatStatus → ToolContext → Call ToolContext
  unfolding finish
  admit SeatStatus.active ctx = pure ctx
  admit SeatStatus.revoked ctx = do finish ctx []; raise (value_error revoked_client_message)

  unfoldable pub email_of : Option Claims → Option String
  email_of none = none
  email_of (some c) = c.email

  unfoldable pub caller_client : String → Option Claims → Client
  unfolding email_of
  caller_client sub claims = client_for_subject E.encode E.settings E.now sub (email_of claims) none

  begin_as : AccessToken → String → String → Json → Call ToolContext
  unfolding caller_client resolve_membership resolve_client context admit
  begin_as token sub tool arguments = do
    let db = caller_client sub token.claims
    member ← resolve_membership db sub
    client_row ← resolve_client db member.0 sub token.client_id
    admit client_row.status (context db sub member client_row tool arguments)

  with_subject : AccessToken → Option String → String → Json → Call ToolContext
  unfolding begin_as
  with_subject token none tool arguments = raise (value_error unauthenticated_message)
  with_subject token (some sub) tool arguments =
      if sub == ""
      then raise (value_error unauthenticated_message)
      else begin_as token sub tool arguments

  with_token : Option AccessToken → String → Json → Call ToolContext
  unfolding with_subject
  with_token none tool arguments = raise (value_error unauthenticated_message)
  with_token (some token) tool arguments = with_subject token token.subject tool arguments

  -- `_begin`
  unfoldable pub begin : String → Json → Call ToolContext
  unfolding with_token
  begin tool arguments = with_token E.token tool arguments
